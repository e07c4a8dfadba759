-- ===== src/Tests/Life.antt =====
-- A database with an iterator that is sought, one whose read fails, and a close.
use leveldown.Base.{refl, true, false, some, none, [], ◌∷◌, ◌≡◌}
use leveldown.Cursor.{CursorOps, Position, nowhere}
use leveldown.Cursor.Sample.{list_cursor, list_cursor-CursorLaws}
use leveldown.Lifecycle.{
  Database, Handle, absent, queued, executed, close, modify_handle, next_complete, next, iterator,
  new_handle, next_execute, handle_seek,
}
use leveldown.Lifecycle.Steps.{Reach, here, then_step, opens, nexts, next_executes, seeks}
use leveldown.Lifecycle.Invariant.{idle}
use leveldown.Lifecycle.Safety.{db_outlives_cursors}
use leveldown.Lifecycle.Blocked.{failed_read_blocks_close}
use leveldown.Lifecycle.Afterwards.{close_can_finish}
use leveldown.Tests.Iteration.{above_a, three_entries}

-- A cursor over no entries whose status is an error.
abbrev broken_cursor : CursorOps Position
broken_cursor = record (list_cursor []) { status_ok = λ c. false }

abbrev pub opened_database : Database Position
opened_database = record {
  db = true;
  block_cache = true;
  filter_policy = true;
  current_iterator_id = 0;
  pending_close_worker = false;
  handles = [];
  close_work = absent;
}

abbrev pub reading_handle : Handle Position
reading_handle = record {
  iterator = record {
    options = above_a;
    db_iterator = none;
    count = 0;
    target = none;
    seeking = false;
    landed = false;
    nexting = true;
    ended = false;
    end_worker = false;
  };
  id = 0;
  snapshot = true;
  registered = true;
  next_work = queued;
  end_work = absent;
}

abbrev failed_handle : Handle Position
failed_handle = record reading_handle {
  iterator = record reading_handle.iterator { db_iterator = some nowhere };
  next_work = executed false;
}

abbrev failed_database : Database Position
failed_database = record opened_database { current_iterator_id = 1; handles = failed_handle ∷ [] }

failed_reached : Reach broken_cursor opened_database failed_database
unfolding iterator leveldown.Lifecycle.erase new_handle modify_handle next next_execute
    leveldown.Iterator.is_stuck leveldown.Iterator.iterator_next leveldown.Iterator.collect
    leveldown.Iterator.read leveldown.Iterator.advance leveldown.Iterator.get_iterator
    leveldown.Iterator.examine leveldown.Iterator.start_cursor leveldown.Iterator.start_forward
    leveldown.Bytes.cmp leveldown.Iterator.new_iterator leveldown.Lifecycle.status_ok
    leveldown.Lifecycle.finished
failed_reached =
    then_step
      (then_step (then_step here (opens above_a (refl, refl, refl) tt)) (nexts 0 _ refl refl))
      (next_executes 0 2 reading_handle failed_handle [] true refl refl refl)

-- An iterator that was made and sought.
abbrev sought_handle : Handle Position
sought_handle =
    handle_seek (list_cursor three_entries) (98 ∷ [])
      (record (new_handle above_a 0) { registered = true })

abbrev sought_database : Database Position
sought_database = record opened_database { current_iterator_id = 1; handles = sought_handle ∷ [] }

sought_reached : Reach (list_cursor three_entries) opened_database sought_database
unfolding iterator leveldown.Lifecycle.erase new_handle modify_handle
    leveldown.Iterator.new_iterator leveldown.Iterator.falls_off leveldown.Iterator.get_iterator
    leveldown.Iterator.out_of_range leveldown.Iterator.too_high leveldown.Iterator.past_end
    leveldown.Iterator.too_low leveldown.Bytes.cmp
sought_reached =
    then_step (then_step here (opens above_a (refl, refl, refl) tt))
      (seeks 0 _ (98 ∷ []) refl refl refl refl)

db_outlives_cursors_example : (sought_database.db ≡ true) × (idle sought_database.close_work ≡ true)
unfolding handle_seek leveldown.Iterator.seek leveldown.Iterator.get_iterator new_handle
    leveldown.Iterator.new_iterator
db_outlives_cursors_example =
    db_outlives_cursors (list_cursor three_entries) opened_database sought_database 0 sought_handle
      ((refl, refl, refl), refl) sought_reached refl refl

abbrev waiting_database : Database Position
waiting_database = close (modify_handle 0 (next_complete false) failed_database)

failed_read_blocks_close_example :
    (waiting_database.pending_close_worker ≡ true)
    × (waiting_database.close_work ≡ absent)
    × (waiting_database.db ≡ true)
failed_read_blocks_close_example =
    failed_read_blocks_close broken_cursor opened_database failed_database waiting_database 0
      failed_handle ((refl, refl, refl), refl) failed_reached (refl, refl, refl) refl refl refl here

abbrev reading_database : Database Position
reading_database = record opened_database { current_iterator_id = 1; handles = reading_handle ∷ [] }

reading_reached : Reach (list_cursor []) opened_database reading_database
unfolding iterator leveldown.Lifecycle.erase new_handle modify_handle next
    leveldown.Iterator.new_iterator
reading_reached =
    then_step (then_step here (opens above_a (refl, refl, refl) tt)) (nexts 0 _ refl refl)

close_can_finish_example :
    (f : Database Position) × Reach (list_cursor []) (close reading_database) f
    × (f.db ≡ false)
    × (f.close_work ≡ absent)
unfolding leveldown.Iterator.is_stuck close leveldown.Lifecycle.any_registered
    leveldown.Lifecycle.end_all leveldown.Lifecycle.end
close_can_finish_example =
    close_can_finish (list_cursor []) [] (list_cursor-CursorLaws []) (λ c. refl) opened_database
      reading_database (close reading_database) ((refl, refl, refl), refl) reading_reached
      (refl, refl, refl) ((refl, λ n. refl), tt) here ((λ q. refl), tt)
