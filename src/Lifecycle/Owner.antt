-- ===== src/Lifecycle/Owner.antt =====
-- The database object: its iterators, the close that waits for them, and the workers that touch
-- them.
use leveldown.Base.{
  ◌++◌, ℕ, ◌+◌, ◌%◌, ◌^◌, Bool, true, false, get_elem?, modify, not, ◌&&◌, ◌||◌, Option, none, some,
  List, [], ◌∷◌, ◌==◌, if◌then◌else◌,
}
use leveldown.Iterator.{IteratorOptions}
use leveldown.Lifecycle.Objects.{
  Work, absent, queued, executed, Handle, new_handle, iterator_end, end,
}

-- `db` says that the LevelDB object is there, `block_cache` and `filter_policy` that these are.
-- `handles` are the iterator objects, `close_work` the `CloseWorker` in flight.
pub record Database (C : Type 0) : Type 0 where
  pub db : Bool
  pub block_cache : Bool
  pub filter_policy : Bool
  pub current_iterator_id : ℕ
  pub pending_close_worker : Bool
  pub handles : List (Handle C)
  pub close_work : Work

module _ {C : Type 0} where
  unfoldable pub new_database : Database C
  new_database = record {
    db = false;
    block_cache = false;
    filter_policy = false;
    current_iterator_id = 0;
    pending_close_worker = false;
    handles = [];
    close_work = absent;
  }

  -- `!iterators.empty()`
  unfoldable pub any_registered : List (Handle C) → Bool
  any_registered [] = false
  any_registered (h ∷ hs) = h.registered || any_registered hs

  -- `iterators.erase(id)`
  unfoldable pub erase : ℕ → List (Handle C) → List (Handle C)
  erase id [] = []
  erase id (h ∷ hs) = (if h.id == id then record h { registered = false } else h) ∷ erase id hs

  -- The last iterator to go starts a close that waits.
  unfoldable pub release_iterator : ℕ → Database C → Database C
  release_iterator id d =
      let left = erase id d.handles in
      if not (any_registered left) && d.pending_close_worker
      then record d { handles = left; close_work = queued; pending_close_worker = false }
      else record d { handles = left }

  -- An object changes in place: objects are numbered in the order of their creation.
  unfoldable pub modify_handle : ℕ → (Handle C → Handle C) → Database C → Database C
  modify_handle i f d = record d { handles = modify i f d.handles }

  -- `Iterator::Release` of the object, by its id.
  unfoldable pub release : ℕ → Database C → Database C
  release i d = elim (get_elem? d.handles i) [ none ↦ d | some h ↦ release_iterator h.id d ]

  -- `EndWorker::HandleOKCallback`.
  unfoldable pub end_complete : ℕ → Database C → Database C
  end_complete i d = release i (modify_handle i (λ h. record h { end_work = absent }) d)

  -- `Iterator::EndSync`: it refuses while a read is in flight, and is undefined on an ended iterator.
  unfoldable pub end_sync : ℕ → Database C → Database C × Option Bool
  end_sync i d = elim (get_elem? d.handles i) [
    | none ↦ (d, none)
    | some h ↦
        if h.nexting
        then (d, some false)
        else if not h.ended
        then (
          release i (
              modify_handle i
                (λ x. iterator_end (record x { iterator = record x.iterator { ended = true } })) d),
          some true,
        )
        else (d, none)
  ]

  -- The loop of `Close`: every registered iterator that has not ended is ended.
  unfoldable pub end_all : List (Handle C) → List (Handle C)
  end_all [] = []
  end_all (h ∷ hs) = (if h.registered && not h.ended then end h else h) ∷ end_all hs

  -- `Database::Close`.
  unfoldable pub close : Database C → Database C
  close d =
      if any_registered d.handles
      then record d { pending_close_worker = true; handles = end_all d.handles }
      else record d { close_work = queued }

  unfoldable pub close_database : Database C → Database C
  close_database d = record d { db = false; block_cache = false; filter_policy = false }

  -- `Database::CloseSync` closes whatever iterators there are.
  unfoldable pub close_sync : Database C → Database C
  close_sync d = close_database d

  -- `CloseWorker::Execute`, and `CloseWorker::WorkComplete`, which calls back in any case.
  unfoldable pub close_execute : Database C → Database C
  close_execute d = record (close_database d) { close_work = executed true }

  unfoldable pub close_complete : Database C → Database C
  close_complete d = record d { close_work = absent }

  -- `Database::Iterator`: `currentIteratorId++` wraps round at 2^32, and an entry of the map under
  -- the same id is replaced.
  unfoldable pub iterator : IteratorOptions → Database C → Database C
  iterator o d =
      let id = d.current_iterator_id in
      let h : Handle C = new_handle o id in
      record d {
        current_iterator_id = (id + 1) % 2 ^ 32;
        handles = erase id d.handles ++ record h { registered = true } ∷ [];
      }
