-- ===== src/Lifecycle/Objects.antt =====
-- An iterator object with the workers that are in flight for it, and what the calls and workers do
-- to it. `AsyncQueueWorker` hands a worker to a thread, which executes it at some time; the event
-- loop then completes it. The binding's contract allows one `NextWorker` at a time.
use leveldown.Base.{ℕ, Bool, true, false, not, Option, none, some, List, if◌then◌else◌}
use leveldown.Bytes.{Bytes}
use leveldown.Cursor.{CursorOps}
use leveldown.Iterator.{Row, IteratorOptions, Iterator, new_iterator, iterator_next, seek}

-- A worker that was not queued, one that waits for a thread, and one that has been executed and
-- waits for its completion, with whether its status is ok.
pub data Work : Type 0 where
  absent queued : Work
  executed : Bool → Work

-- `snapshot` says that the snapshot is held, and the cursor is `db_iterator`; `registered` that the database's map
-- `iterators` has the object under its id.
pub record Handle (C : Type 0) : Type 0 where
  pub iterator : Iterator C
  pub open iterator use *
  pub id : ℕ
  pub snapshot : Bool
  pub registered : Bool
  pub next_work : Work
  pub end_work : Work

module _ {C : Type 0} where
  -- The constructor takes a snapshot.
  unfoldable pub new_handle : IteratorOptions → ℕ → Handle C
  unfolding new_iterator
  new_handle o id = record {
    iterator = new_iterator o;
    id = id;
    snapshot = true;
    registered = false;
    next_work = absent;
    end_work = absent;
  }

  unfoldable pub release_target : Handle C → Handle C
  release_target h = record h { iterator = record h.iterator { target = none } }

  -- A queued end is started when the read that it waits for has come back.
  unfoldable pub check_end_callback : Handle C → Handle C
  unfolding release_target
  check_end_callback h =
      let idle : Handle C = record h {
        iterator = record h.iterator { target = none; nexting = false };
      } in
      if h.end_worker
      then record idle { iterator = record idle.iterator { end_worker = false }; end_work = queued }
      else idle

  -- `Iterator::Next`; the result says whether the call was accepted.
  unfoldable pub next : Handle C → Handle C × Bool
  next h =
      if h.ended
      then (h, false)
      else (record h { iterator = record h.iterator { nexting = true }; next_work = queued }, true)

  -- `HandleOKCallback` runs the callback above; `HandleErrorCallback` runs nothing of the iterator.
  unfoldable pub next_complete : Bool → Handle C → Handle C
  unfolding check_end_callback
  next_complete true h = check_end_callback (record h { next_work = absent })
  next_complete false h = record h { next_work = absent }

  unfoldable pub iterator_end : Handle C → Handle C
  iterator_end h = record h {
    iterator = record h.iterator { db_iterator = none };
    snapshot = false;
  }

  -- `Iterator::End`.
  unfoldable pub end : Handle C → Handle C
  end h =
      if h.ended
      then h
      else if h.nexting
      then record h { iterator = record h.iterator { ended = true; end_worker = true } }
      else record h { iterator = record h.iterator { ended = true }; end_work = queued }

  unfoldable pub end_execute : Handle C → Handle C
  unfolding iterator_end
  end_execute h = record (iterator_end h) { end_work = executed true }

pub data SyncOutcome : Type 0 where
  ended_error status_error : SyncOutcome
  rows : List Row → Bool → SyncOutcome

-- The third argument of the callback, and the `finished` property of the array.
unfoldable pub finished : Bool → Bool
finished more = not more

module _ {C : Type 0} (ops : CursorOps C) where
  -- `IteratorStatus` is read only after a read that reported the end.
  unfoldable pub status_ok : Bool → Iterator C → Bool
  status_ok true it = true
  status_ok false it = elim it.db_iterator [ none ↦ true | some c ↦ ops.status_ok c ]

  -- `Iterator::Seek` on the object: it does not test `ended`.
  unfoldable pub handle_seek : Bytes → Handle C → Handle C
  unfolding seek
  handle_seek target h = record h { iterator = seek ops target h.iterator }

  -- `NextWorker::Execute`; the second result is what it collected.
  unfoldable pub next_execute : ℕ → Handle C → Option (Handle C × List Row × Bool)
  next_execute fuel h = elim (iterator_next ops fuel h.iterator) [
    | none ↦ none
    | some (got, more, it') ↦
        some (
          record h { iterator = it'; next_work = executed (status_ok more it') },
          got,
          finished more,
        )
  ]

  -- `Iterator::NextSync`: a bad status is thrown before the callback's clean-up.
  unfoldable pub next_sync : ℕ → Handle C → Option (Handle C × SyncOutcome)
  next_sync fuel h =
      if h.ended
      then some (h, ended_error)
      else elim (iterator_next ops fuel (record h.iterator { nexting = true })) [
        | none ↦ none
        | some (got, more, it') ↦
            if status_ok more it'
            then some (check_end_callback (record h { iterator = it' }), rows got (finished more))
            else some (record h { iterator = it' }, status_error)
      ]
