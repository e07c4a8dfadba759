-- ===== src/Lifecycle/Steps.antt =====
-- The interleavings of calls, worker executions and completions, as steps of the database object.
use leveldown.Base.{ℕ, ◌≡◌, ◌≢◌, Bool, true, false, some, List, All}
use leveldown.Bytes.{Bytes}
use leveldown.Cursor.{CursorOps}
use leveldown.Iterator.{Row, IteratorOptions, falls_off}
use leveldown.Base.{get_elem?}
use leveldown.Lifecycle.{
  absent, queued, executed, Handle, Database, SyncOutcome, next, next_execute, next_complete,
  next_sync, end, end_execute, modify_handle, end_complete, end_sync, close, close_execute,
  close_complete, iterator, handle_seek,
}

-- No close has been asked for: what the README (Safety) leaves to the caller.
abbrev pub IsOpen : {C : Type 0} → Database C → Type 0
IsOpen d = (d.db ≡ true) × (d.pending_close_worker ≡ false) × (d.close_work ≡ absent)

module _ {C : Type 0} (ops : CursorOps C) where
  -- A read is called with none in flight on the same iterator, and an iterator or a close only
  -- while no close has been asked for; an iterator is sought only before its end was asked for and
  -- while no read of it is in flight, and not out of range where there are no entries. Iterator ids
  -- are new: fewer than 2^32 were made.
  pub data Step (d : Database C) : Database C → Type 0 where
    opens :
        (o : IteratorOptions)
        → IsOpen d
        → All (λ (h : Handle C). h.id ≢ d.current_iterator_id) d.handles
        → Step d (iterator o d)
    nexts :
        (i : ℕ) (h : Handle C)
        → get_elem? d.handles i ≡ some h
        → h.next_work ≡ absent
        → Step d (modify_handle i (λ x. (next x).0) d)
    next_executes :
        (i fuel : ℕ) (h h' : Handle C) (rows : List Row) (done : Bool)
        → get_elem? d.handles i ≡ some h
        → h.next_work ≡ queued
        → next_execute ops fuel h ≡ some (h', rows, done)
        → Step d (modify_handle i (λ x. h') d)
    next_completes :
        (i : ℕ) (h : Handle C) (ok : Bool)
        → get_elem? d.handles i ≡ some h
        → h.next_work ≡ executed ok
        → Step d (modify_handle i (next_complete ok) d)
    next_syncs :
        (i fuel : ℕ) (h h' : Handle C) (r : SyncOutcome)
        → get_elem? d.handles i ≡ some h
        → h.next_work ≡ absent
        → next_sync ops fuel h ≡ some (h', r)
        → Step d (modify_handle i (λ x. h') d)
    seeks :
        (i : ℕ) (h : Handle C) (target : Bytes)
        → get_elem? d.handles i ≡ some h
        → h.ended ≡ false
        → h.next_work ≡ absent
        → falls_off ops target h.iterator ≡ false
        → Step d (modify_handle i (handle_seek ops target) d)
    ends : (i : ℕ) (h : Handle C) → get_elem? d.handles i ≡ some h → Step d (modify_handle i end d)
    end_executes :
        (i : ℕ) (h : Handle C)
        → get_elem? d.handles i ≡ some h
        → h.end_work ≡ queued
        → Step d (modify_handle i end_execute d)
    end_completes :
        (i : ℕ) (h : Handle C) (ok : Bool)
        → get_elem? d.handles i ≡ some h
        → h.end_work ≡ executed ok
        → Step d (end_complete i d)
    end_syncs : (i : ℕ) (h : Handle C) → get_elem? d.handles i ≡ some h → Step d (end_sync i d).0
    closes : IsOpen d → Step d (close d)
    close_executes : d.close_work ≡ queued → Step d (close_execute d)
    close_completes : (ok : Bool) → d.close_work ≡ executed ok → Step d (close_complete d)

  pub data Reach (s : Database C) : Database C → Type 0 where
    here : Reach s s
    then_step : {d e : Database C} → Reach s d → Step d e → Reach s e
