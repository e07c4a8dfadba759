-- ===== src/Store/Locations.antt =====
-- `DestroyDB` and `RepairDB` of src/leveldown.cc with their workers (src/leveldown_async.cc). What
-- LevelDB does to the files under a location is a parameter.
use leveldown.Bytes.{Bytes}
use leveldown.Base.{
  ℕ, ◌+◌, ◌≡◌, refl, ◌==◌, true, Option, none, some, List, [], ◌∷◌, if◌then◌else◌, arith,
}
use leveldown.Value.{JsValue, V8, is_function}
use leveldown.Value.Memory.{Heap, block, delete_array, remove}
use leveldown.Store.LevelDb.{Status}
use leveldown.Store.Calls.{argument, ◌>>=◌}
use leveldown.Store.Workers.{Callback, called, error}

-- LevelDB's `DestroyDB` and `RepairDB` with default options, over a state of the files.
pub record FileOps (F : Type 0) : Type 0 where
  pub destroy_db : Bytes → F → Status × F
  pub repair_db : Bytes → F → Status × F

pub data LocationMethod : Type 0 where
  destroy_method repair_method : LocationMethod

-- The worker owns the `Utf8String` of the location: its text and its block.
pub record LocationWorker : Type 0 where
  pub method : LocationMethod
  pub location : Bytes
  pub storage : ℕ

-- `**location` is a C string: it ends at the first zero byte.
unfoldable pub c_string : Bytes → Bytes
c_string [] = []
c_string (b ∷ rest) = let others = c_string rest in if b == 0 then [] else b ∷ others

-- The callback is cast to a function without a test: there is no result for another value.
unfoldable pub location_worker :
    V8 → LocationMethod → List JsValue → Heap → Option (LocationWorker × Heap)
location_worker v8 m args h =
    if is_function (argument args 1)
    then some (
      record { method = m; location = v8.to_utf8 (argument args 0); storage = h.next },
      record { live = h.next ∷ h.live; next = h.next + 1 },
    )
    else none

unfoldable pub destroy_db : V8 → List JsValue → Heap → Option (LocationWorker × Heap)
destroy_db v8 = location_worker v8 destroy_method

unfoldable pub repair_db : V8 → List JsValue → Heap → Option (LocationWorker × Heap)
repair_db v8 = location_worker v8 repair_method

-- `DestroyWorker::Execute` and `RepairWorker::Execute`.
unfoldable pub execute_at : {F : Type 0} → FileOps F → LocationWorker → F → Status × F
execute_at ops w files = elim w.method [
  | destroy_method ↦ ops.destroy_db (c_string w.location) files
  | repair_method ↦ ops.repair_db (c_string w.location) files
]

-- The worker is completed and then destroyed with its location.
unfoldable pub complete_at : LocationWorker → Status → Heap → Option (Callback × Heap)
complete_at w status h = do
  h' ← delete_array (block w.storage) h
  some (if status.ok then called [] else error status.to_string, h')

-- What each method asks of LevelDB, and how it is called.
abbrev pub asked_of : {F : Type 0} → LocationMethod → FileOps F → Bytes → F → Status × F
asked_of destroy_method ops = ops.destroy_db
asked_of repair_method ops = ops.repair_db

abbrev pub call_of : LocationMethod → V8 → List JsValue → Heap → Option (LocationWorker × Heap)
call_of destroy_method = destroy_db
call_of repair_method = repair_db

-- The worker that either method queues.
abbrev pub worker_at : V8 → LocationMethod → List JsValue → Heap → LocationWorker
worker_at v8 m args h = record {
  method = m;
  location = v8.to_utf8 (argument args 0);
  storage = h.next;
}

pub call_of_lem :
    (v8 : V8) (m : LocationMethod) (args : List JsValue) (h : Heap)
    → is_function (argument args 1) ≡ true
    → call_of m v8 args h
      ≡ some (worker_at v8 m args h, record { live = h.next ∷ h.live; next = h.next + 1 })
unfolding destroy_db repair_db location_worker
call_of_lem v8 destroy_method args h f = rw f refl
call_of_lem v8 repair_method args h f = rw f refl

execute_at_lem :
    {F : Type 0} (ops : FileOps F) (v8 : V8) (m : LocationMethod) (args : List JsValue) (h : Heap)
    (files : F)
    → execute_at ops (worker_at v8 m args h) files
      ≡ asked_of m ops (c_string (v8.to_utf8 (argument args 0))) files
unfolding execute_at
execute_at_lem ops v8 destroy_method args h files = refl
execute_at_lem ops v8 repair_method args h files = refl

-- `destroy` and `repair` with a function as the callback queue a worker. Executed, it destroys or
-- repairs, as was called, what is at the location, up to the location's first zero byte. Completed, it
-- reports the status of that, and the memory of the location is given back.
pub complete_at-execute_at :
    {F : Type 0} (ops : FileOps F) (v8 : V8) (m : LocationMethod) (args : List JsValue) (h : Heap)
    (files : F)
    → is_function (argument args 1) ≡ true
    → let r = asked_of m ops (c_string (v8.to_utf8 (argument args 0))) files in
      (w : LocationWorker) × (h₁ : Heap) × (h₂ : Heap) × (call_of m v8 args h ≡ some (w, h₁))
      × (execute_at ops w files ≡ r)
      × (complete_at w r.0 h₁ ≡ some (if r.0.ok then called [] else error r.0.to_string, h₂))
      × (h₂.live ≡ h.live)
unfolding execute_at complete_at delete_array
complete_at-execute_at ops v8 m args h files f =
    let found : remove h.next (h.next ∷ h.live) ≡ some h.live = ground arith in
    (
      worker_at v8 m args h,
      record { live = h.next ∷ h.live; next = h.next + 1 },
      record { live = h.live; next = h.next + 1 },
      call_of_lem v8 m args h f,
      execute_at_lem ops v8 m args h files,
      rw (complete_at, delete_array, found, ◌>>=◌) refl,
      refl,
    )
