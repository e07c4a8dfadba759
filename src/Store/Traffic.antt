-- ===== src/Store/Traffic.antt =====
-- A database with all that is under way at once: methods of src/database.cc and src/batch.cc that are
-- called, workers that a thread executes, and workers that the event loop completes.
pub mod Heaps
pub mod Sync
pub mod Owners
pub mod Safety
pub mod Effects
pub mod History
pub mod Objects
pub mod Settles
use leveldown.Base.{
  ℕ, zero, suc, ◌≡◌, Bool, true, false, Option, none, some, List, [], ◌∷◌, ◌++◌, get_elem?, modify,
}
use leveldown.Value.{JsValue, V8}
use leveldown.Value.Memory.{Heap}
use leveldown.Store.LevelDb.{Status, LevelDb}
use leveldown.Store.Calls.{Reply, State}
use leveldown.Store.Writes as Writes
use leveldown.Store.Batches as Batches
use leveldown.Store.Batches.{Batch, chained}
use leveldown.Store.Chained.{ChainedCall, chained_call}
use leveldown.Store.Workers as Workers
use leveldown.Store.Workers.{
  Worker, queued, batch_worker, batch_write_worker, Output, Callback, Call, execute, work_complete,
}

-- A worker that waits for a thread, and one that waits for its completion.
pub data Job (B : Type 0) : Type 0 where
  waiting : Worker B → Job B
  done : Worker B → Status → Output → Job B

-- The batch objects are numbered in the order of their creation.
pub record Traffic (D B : Type 0) : Type 0 where
  pub db : Option D
  pub heap : Heap
  pub batches : List (Batch B)
  pub jobs : List (Job B)

pub data Method : Type 0 where
  open_call put_call get_call delete_call compact_range_call approximate_size_call : Method

pub data SyncMethod : Type 0 where
  put_sync_call get_sync_call delete_sync_call batch_sync_call : SyncMethod

abbrev pub remove_at {ℓ} : {A : Type ℓ} → ℕ → List A → List A
remove_at i [] = []
remove_at zero (x ∷ xs) = xs
remove_at (suc i) (x ∷ xs) = x ∷ remove_at i xs

module _ {B : Type 0} (v8 : V8) where
  abbrev pub call : Method → List JsValue → Heap → Call B × Heap
  call open_call = Workers.open_ v8
  call put_call = Workers.put v8
  call get_call = Workers.get v8
  call delete_call = Workers.delete v8
  call compact_range_call = Workers.compact_range v8
  call approximate_size_call = Workers.approximate_size v8

module _ {D B : Type 0} (v8 : V8) (leveldb : LevelDb D B) where
  abbrev pub sync_call : SyncMethod → List JsValue → State D → Option (Reply × State D)
  sync_call put_sync_call = Writes.put_sync v8 leveldb
  sync_call get_sync_call = Writes.get_sync v8 leveldb
  sync_call delete_sync_call = Writes.delete_sync v8 leveldb
  sync_call batch_sync_call = Batches.batch_sync v8 leveldb

  abbrev pub state : Traffic D B → State D
  state t = record { db = t.db; heap = t.heap }

  -- Any worker that waits may be executed next, and any that is done completed.
  pub data Step (t : Traffic D B) : Traffic D B → Type 0 where
    calls :
        (m : Method) (args : List JsValue) (w : Worker B) (h : Heap)
        → call v8 m args t.heap ≡ (queued w, h)
        → Step t (record t { heap = h; jobs = t.jobs ++ waiting w ∷ [] })
    sync_calls :
        (m : SyncMethod) (args : List JsValue) (r : Reply) (s : State D)
        → sync_call m args (state t) ≡ some (r, s)
        → Step t (record t { db = s.db; heap = s.heap })
    batches :
        (args : List JsValue) (b : B) (sync : Bool) (h : Heap)
        → Batches.batch v8 leveldb args t.heap ≡ some (Batches.queued b sync, h)
        → Step t (record t { heap = h; jobs = t.jobs ++ waiting (batch_worker b sync) ∷ [] })
    new_batches :
        (args : List JsValue) (b : Batch B) (h : Heap)
        → Batches.batch v8 leveldb args t.heap ≡ some (chained b, h)
        → Step t (record t { heap = h; batches = t.batches ++ b ∷ [] })
    chained_calls :
        (i : ℕ) (c : ChainedCall) (b b' : Batch B) (h : Heap)
        → get_elem? t.batches i ≡ some b
        → chained_call v8 leveldb c (b, t.heap) ≡ some (b', h)
        → Step t (record t { heap = h; batches = modify i (λ x. b') t.batches })
    writes :
        (i : ℕ) (b : Batch B)
        → get_elem? t.batches i ≡ some b
        → Batches.write v8 leveldb b ≡ Batches.write_queued
        → Step t (record t { jobs = t.jobs ++ waiting (batch_write_worker i) ∷ [] })
    executes :
        (i : ℕ) (w : Worker B) (status : Status) (out : Output) (db : Option D)
        → get_elem? t.jobs i ≡ some (waiting w)
        → execute leveldb t.batches w t.db ≡ some (status, out, db)
        → Step t (record t { db = db; jobs = modify i (λ j. done w status out) t.jobs })
    completes :
        (i : ℕ) (w : Worker B) (status : Status) (out : Output) (cb : Callback) (h : Heap)
        → get_elem? t.jobs i ≡ some (done w status out)
        → work_complete w status out t.heap ≡ some (cb, h)
        → Step t (record t { heap = h; jobs = remove_at i t.jobs })

  pub data Reach (s : Traffic D B) : Traffic D B → Type 0 where
    here : Reach s s
    then_step : {t u : Traffic D B} → Reach s t → Step t u → Reach s u
