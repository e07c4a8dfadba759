-- ===== src/Natives/Workers.antt =====
-- The objects of the workers of src/database_async.cc and src/leveldown_async.cc, and of batches, with
-- the methods that make them. A worker that is not here has no objects of its own, and a worker's
-- callback is Nan's to free.
use leveldown.Base.{ℕ, ◌+◌, Bool, true, false, Option, none, some, ◌∷◌, if◌then◌else◌}
use leveldown.Value.Memory.{Heap, block, delete_array}
use leveldown.Store.Calls.{◌>>=◌}

-- The pointers of a worker, or of a batch, to objects that are its own.
pub record Owned : Type 0 where
  pub options : Option ℕ
  pub batch : Option ℕ
  pub location : Option ℕ

abbrev pub nothing : Owned
nothing = record { options = none; batch = none; location = none }

-- `new`, and `delete`, which does nothing at a null pointer.
abbrev pub make_block : Heap → ℕ × Heap
make_block h = (h.next, record { live = h.next ∷ h.live; next = h.next + 1 })

unfoldable pub free : Option ℕ → Heap → Option Heap
free none h = some h
free (some n) h = delete_array (block n) h

abbrev pub with_options : Owned → Heap → Owned × Heap
with_options o h = let (options, h') = make_block h in (record o { options = some options }, h')

-- The constructors of the workers that own objects, and of `Batch`.
unfoldable pub open_worker : Heap → Owned × Heap
open_worker h = with_options nothing h

unfoldable pub read_worker : Heap → Owned × Heap
read_worker h = with_options nothing h

unfoldable pub delete_worker : Heap → Owned × Heap
delete_worker h = with_options nothing h

unfoldable pub write_worker : Heap → Owned × Heap
write_worker h = delete_worker h

unfoldable pub batch_worker : ℕ → Heap → Owned × Heap
batch_worker batch h = with_options (record nothing { batch = some batch }) h

unfoldable pub destroy_db_worker : ℕ → Owned
destroy_db_worker location = record nothing { location = some location }

unfoldable pub repair_db_worker : ℕ → Owned
repair_db_worker location = record nothing { location = some location }

unfoldable pub batch_object : Heap → Owned × Heap
batch_object h =
    let (o, h₁) = with_options nothing h in
    let (batch, h₂) = make_block h₁ in (record o { batch = some batch }, h₂)

-- Their destructors; that of a `WriteWorker` is that of a `DeleteWorker`.
unfoldable pub free_open_worker : Owned → Heap → Option Heap
free_open_worker o h = free o.options h

unfoldable pub free_read_worker : Owned → Heap → Option Heap
free_read_worker o h = free o.options h

unfoldable pub free_delete_worker : Owned → Heap → Option Heap
free_delete_worker o h = free o.options h

unfoldable pub free_batch_worker : Owned → Heap → Option Heap
free_batch_worker o h = do h' ← free o.batch h; free o.options h'

unfoldable pub free_destroy_db_worker : Owned → Heap → Option Heap
free_destroy_db_worker o h = free o.location h

unfoldable pub free_repair_db_worker : Owned → Heap → Option Heap
free_repair_db_worker o h = free o.location h

unfoldable pub free_batch_object : Owned → Heap → Option Heap
free_batch_object o h = do h' ← free o.options h; free o.batch h'

pub data Kind : Type 0 where
  open_kind read_kind write_kind delete_kind batch_kind : Kind
  destroy_kind repair_kind batch_object_kind : Kind

-- What a method makes: `Database::Batch` makes its worker only if there is data, and `DestroyDB` and
-- `RepairDB` make the location.
unfoldable pub start : Kind → Bool → Heap → Option Owned × Heap
unfolding open_worker read_worker write_worker delete_worker batch_worker destroy_db_worker
    repair_db_worker batch_object
start open_kind has_data h = let (o, h') = open_worker h in (some o, h')
start read_kind has_data h = let (o, h') = read_worker h in (some o, h')
start write_kind has_data h = let (o, h') = write_worker h in (some o, h')
start delete_kind has_data h = let (o, h') = delete_worker h in (some o, h')
start batch_kind true h =
    let (batch, h₁) = make_block h in let (o, h₂) = batch_worker batch h₁ in (some o, h₂)
start batch_kind false h = let (batch, h₁) = make_block h in (none, h₁)
start destroy_kind has_data h =
    let (location, h') = make_block h in (some (destroy_db_worker location), h')
start repair_kind has_data h =
    let (location, h') = make_block h in (some (repair_db_worker location), h')
start batch_object_kind has_data h = let (o, h') = batch_object h in (some o, h')

unfoldable pub finish : Kind → Owned → Heap → Option Heap
unfolding free_open_worker free_read_worker free_delete_worker free_batch_worker
    free_destroy_db_worker free_repair_db_worker free_batch_object
finish open_kind o h = free_open_worker o h
finish read_kind o h = free_read_worker o h
finish write_kind o h = free_delete_worker o h
finish delete_kind o h = free_delete_worker o h
finish batch_kind o h = free_batch_worker o h
finish destroy_kind o h = free_destroy_db_worker o h
finish repair_kind o h = free_repair_db_worker o h
finish batch_object_kind o h = free_batch_object o h

-- `Database::BatchSync`: its write options are on the stack, and the batch is deleted after a write.
unfoldable pub batch_sync_objects : Bool → Heap → Option Heap
batch_sync_objects has_data h =
    let (batch, h') = make_block h in if has_data then free (some batch) h' else some h'
