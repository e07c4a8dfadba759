-- ===== src/Tests/Together.antt =====
-- A database with puts under way and an iterator, and the close that overtakes a put.
use leveldown.Base.{◌≡◌, refl, true, List, [], ◌∷◌, All}
use leveldown.Cursor.{Position}
use leveldown.Cursor.Sample.{list_cursor}
use leveldown.Lifecycle.{Handle, iterator}
use leveldown.Lifecycle.Steps as Life
use leveldown.Store.LevelDb.{Update, Contents}
use leveldown.Store.Traffic.{Job, waiting, calls, put_call}
use leveldown.Whole.Joint.{Whole, there, works, lives, Reach, here, then_step}
use leveldown.Whole.Safety.{Runs, has_db, db_outlives_work}
use leveldown.Tests.Life.{opened_database}
use leveldown.Tests.Iteration.{above_a}
use leveldown.Tests.Values.{plain_v8}
use leveldown.Tests.Storing.{simple_leveldb, no_contents}
use leveldown.Tests.Traffic.{quiet, traffic_of, put_of, worker_of}

abbrev just_opened : Whole Position Contents (List Update)
just_opened = record { life = opened_database; traffic = quiet }

abbrev put_called : Whole Position Contents (List Update)
put_called = record just_opened {
  traffic = traffic_of no_contents (1 ∷ 0 ∷ []) 2 (waiting (worker_of 98 0) ∷ []);
}

put_reached : Reach (list_cursor []) plain_v8 simple_leveldb just_opened put_called
unfolding leveldown.Store.Workers.put leveldown.Store.Calls.setup_common leveldown.Value.is_function
    leveldown.Value.Memory.string_or_buffer_to_slice leveldown.Value.is_null_or_undefined
    leveldown.Value.is_buffer leveldown.Value.text leveldown.Value.boolean_option_value
    leveldown.Value.is_object
put_reached =
    then_step here
      (works _ (calls put_call (put_of 98) (worker_of 98 0) _ refl) (tt, (refl, refl, refl)))

-- An iterator is opened beside the put.
abbrev both_under_way : Whole Position Contents (List Update)
both_under_way = record put_called { life = iterator above_a opened_database }

both_reached : Reach (list_cursor []) plain_v8 simple_leveldb just_opened both_under_way
both_reached =
    then_step put_reached
      (lives (iterator above_a opened_database) (Life.opens above_a (refl, refl, refl) tt) tt)

db_outlives_work_example :
    All
      (λ (j : Job (List Update)).
        Runs
          (list_cursor [])
          plain_v8
          simple_leveldb
          both_under_way.traffic.batches
          both_under_way.traffic.db
          j)
      both_under_way.traffic.jobs
    × All
        (λ (h : Handle Position).
          has_db
            (list_cursor [])
            plain_v8
            simple_leveldb
            (there both_under_way.traffic.db)
            both_under_way.life.close_work
            h
          ≡ true)
        both_under_way.life.handles
db_outlives_work_example =
    db_outlives_work (list_cursor []) plain_v8 simple_leveldb just_opened both_under_way no_contents
      (((refl, refl, refl), refl), refl, refl) both_reached
