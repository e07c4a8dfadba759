-- ===== src/Store/Workers.antt =====
-- The asynchronous `Open`, `Put`, `Get`, `Delete`, `CompactRange` and `ApproximateSize` of
-- src/database.cc with their workers, and those of batches (src/database_async.cc,
-- src/batch_async.cc), and `GetProperty`. A worker is queued with its slices, executed
-- by a thread, and completed by the event loop, which disposes of the slices and calls back.
use Prim.Native.String.{String}
use leveldown.Base.{
  Bool, true, false, Option, none, some, List, [], ◌∷◌, if◌then◌else◌, ℕ, get_elem?, pos,
}
use leveldown.Bytes.{Bytes}
use leveldown.Value.{JsValue, null, string, V8, boolean_option_value, number}
use leveldown.Value.Memory.{
  Heap, Slice, delete_array, string_or_buffer_to_slice, dispose_string_or_buffer_from_slice,
}
use leveldown.Iterator.Result.{to_value}
use leveldown.Store.LevelDb.{Status, OpenOptions, LevelDb}
use leveldown.Store.Calls.{State, argument, setup_common, ◌>>=◌}
use leveldown.Value.Double.{to_double}
use leveldown.Store.Batches.{Batch}
use leveldown.Store.Database.{
  open_database, put_to_database, get_from_database, delete_from_database, write_batch_to_database,
  approximate_size_from_database, compact_range_from_database, get_property_from_database,
}
use leveldown.Store.Writes.{open_worker_options}

-- What a worker's constructor keeps: the slices with the handles that they came from, a batch of its
-- own (`BatchWorker`), or the number of a batch object (`BatchWriteWorker`).
pub data Worker (B : Type 0) : Type 0 where
  open_worker : OpenOptions → Worker B
  write_worker : Slice → Slice → Bool → JsValue → JsValue → Worker B
  read_worker : Slice → Bool → Bool → JsValue → Worker B
  delete_worker : Slice → Bool → JsValue → Worker B
  compact_range_worker : Slice → Slice → JsValue → JsValue → Worker B
  approximate_size_worker : Slice → Slice → JsValue → JsValue → Worker B
  batch_worker : B → Bool → Worker B
  batch_write_worker : ℕ → Worker B

-- An exception of the macro, or a queued worker.
pub data Call (B : Type 0) : Type 0 where
  refused : String → Call B
  queued : Worker B → Call B

-- The callback's arguments: an error with its text, or null and what follows it.
pub data Callback : Type 0 where
  error : Bytes → Callback
  called : List JsValue → Callback

abbrev ok_status : Status
ok_status = record { ok = true; is_not_found = false; to_string = [] }

-- What `Execute` reads.
pub data Output : Type 0 where
  no_output : Output
  read_value : Bytes → Output
  read_size : ℕ → Output

module _ {B : Type 0} (v8 : V8) where
  unfoldable pub open_ : List JsValue → Heap → Call B × Heap
  open_ args h = elim (setup_common (some 0) 1 args) [
    | none ↦ (refused "open() requires a callback argument", h)
    | some options ↦ (queued (open_worker (open_worker_options v8 options)), h)
  ]

  unfoldable pub put : List JsValue → Heap → Call B × Heap
  put args h = elim (setup_common (some 2) 3 args) [
    | none ↦ (refused "put() requires a callback argument", h)
    | some options ↦
        let (key, taken) = string_or_buffer_to_slice v8 (argument args 0) h in
        let (value, both) = string_or_buffer_to_slice v8 (argument args 1) taken in
        let sync = boolean_option_value v8 options "sync" false in
        (queued (write_worker key value sync (argument args 0) (argument args 1)), both)
  ]

  unfoldable pub get : List JsValue → Heap → Call B × Heap
  get args h = elim (setup_common (some 1) 2 args) [
    | none ↦ (refused "get() requires a callback argument", h)
    | some options ↦
        let (key, taken) = string_or_buffer_to_slice v8 (argument args 0) h in
        let as_buffer = boolean_option_value v8 options "asBuffer" true in
        let fill_cache = boolean_option_value v8 options "fillCache" true in
        (queued (read_worker key as_buffer fill_cache (argument args 0)), taken)
  ]

  unfoldable pub delete : List JsValue → Heap → Call B × Heap
  delete args h = elim (setup_common (some 1) 2 args) [
    | none ↦ (refused "del() requires a callback argument", h)
    | some options ↦
        let (key, taken) = string_or_buffer_to_slice v8 (argument args 0) h in
        let sync = boolean_option_value v8 options "sync" false in
        (queued (delete_worker key sync (argument args 0)), taken)
  ]

  unfoldable pub compact_range : List JsValue → Heap → Call B × Heap
  compact_range args h = elim (setup_common none 2 args) [
    | none ↦ (refused "compactRange() requires a callback argument", h)
    | some options ↦
        let (start, taken) = string_or_buffer_to_slice v8 (argument args 0) h in
        let (end, both) = string_or_buffer_to_slice v8 (argument args 1) taken in
        (queued (compact_range_worker start end (argument args 0) (argument args 1)), both)
  ]

  unfoldable pub approximate_size : List JsValue → Heap → Call B × Heap
  approximate_size args h = elim (setup_common none 2 args) [
    | none ↦ (refused "approximateSize() requires a callback argument", h)
    | some options ↦
        let (start, taken) = string_or_buffer_to_slice v8 (argument args 0) h in
        let (end, both) = string_or_buffer_to_slice v8 (argument args 1) taken in
        (queued (approximate_size_worker start end (argument args 0) (argument args 1)), both)
  ]

module _ {D B : Type 0} (leveldb : LevelDb D B) where
  -- `Batch::Write` as `BatchWriteWorker` calls it.
  abbrev write_object : Batch B → Option D → Option (Status × Option D)
  write_object b db = write_batch_to_database leveldb b.sync b.batch db

  -- `Execute`: the status that it sets, what it reads, and the database. The worker of a batch
  -- object holds the object, so it writes what the object has by then.
  unfoldable pub execute :
      List (Batch B) → Worker B → Option D → Option (Status × Output × Option D)
  execute batches (open_worker o) db =
      let (status, opened) = open_database leveldb o in some (status, no_output, opened)
  execute batches (write_worker key value sync kh vh) db = do
    (status, db') ← put_to_database leveldb sync key.bytes value.bytes db
    some (status, no_output, db')
  execute batches (read_worker key as_buffer fill_cache kh) db = do
    (status, found) ← get_from_database leveldb fill_cache key.bytes db
    some (status, read_value found, db)
  execute batches (delete_worker key sync kh) db = do
    (status, db') ← delete_from_database leveldb sync key.bytes db
    some (status, no_output, db')
  execute batches (compact_range_worker start end sh eh) db = do
    db' ← compact_range_from_database leveldb start.bytes end.bytes db
    some (ok_status, no_output, db')
  execute batches (approximate_size_worker start end sh eh) db = do
    size ← approximate_size_from_database leveldb start.bytes end.bytes db
    some (ok_status, read_size size, db)
  execute batches (batch_worker batch sync) db = do
    (status, db') ← write_batch_to_database leveldb sync batch db
    some (status, no_output, db')
  execute batches (batch_write_worker i) db = do
    b ← get_elem? batches i
    (status, db') ← write_object b db
    some (status, no_output, db')

-- `HandleOKCallback`: a read gives its value, and a size is cast to a double.
unfoldable pub handle_ok_callback : {B : Type 0} → Worker B → Output → Callback
handle_ok_callback (read_worker key as_buffer fill_cache kh) (read_value found) =
    called (null ∷ to_value as_buffer found ∷ [])
handle_ok_callback (approximate_size_worker start end sh eh) (read_size n) =
    called (null ∷ number (pos (to_double n)) ∷ [])
handle_ok_callback (compact_range_worker start end sh eh) out = called (null ∷ [])
handle_ok_callback w out = called []

-- The disposals of `WorkComplete`; a `WriteWorker` disposes of its value first.
unfoldable pub dispose_slices : {B : Type 0} → Worker B → Heap → Option Heap
dispose_slices (write_worker key value sync kh vh) h = do
  h' ← dispose_string_or_buffer_from_slice vh value h
  dispose_string_or_buffer_from_slice kh key h'
dispose_slices (read_worker key as_buffer fill_cache kh) h =
    dispose_string_or_buffer_from_slice kh key h
dispose_slices (delete_worker key sync kh) h = dispose_string_or_buffer_from_slice kh key h
dispose_slices (compact_range_worker start end sh eh) h = do
  h' ← dispose_string_or_buffer_from_slice sh start h
  dispose_string_or_buffer_from_slice eh end h'
dispose_slices (approximate_size_worker start end sh eh) h = do
  h' ← dispose_string_or_buffer_from_slice sh start h
  dispose_string_or_buffer_from_slice eh end h'
dispose_slices w h = some h

unfoldable pub work_complete :
    {B : Type 0} → Worker B → Status → Output → Heap → Option (Callback × Heap)
work_complete w status out h = do
  h' ← dispose_slices w h
  some (if status.ok then handle_ok_callback w out else error status.to_string, h')

module _ {D B : Type 0} (v8 : V8) (leveldb : LevelDb D B) where
  -- The array of the property is deleted whoever owns it.
  unfoldable pub get_property : List JsValue → State D → Option (JsValue × State D)
  get_property args s =
      let (property, taken) = string_or_buffer_to_slice v8 (argument args 0) s.heap in
      do
        found ← get_property_from_database leveldb property.bytes s.db
        h ← delete_array property.storage taken
        some (string found, record s { heap = h })
