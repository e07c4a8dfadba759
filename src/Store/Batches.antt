-- ===== src/Store/Batches.antt =====
-- The array that `BatchSync` and `Batch` of src/database.cc take, and the batch object of
-- src/batch.cc.
use Prim.Native.String.{String}
use leveldown.Base.{Bool, true, false, ◌&&◌, not, Option, none, some, List, [], ◌∷◌, if◌then◌else◌}
use leveldown.Bytes.{Bytes, cmp, is_eq}
use leveldown.Value.{
  JsValue, undefined, boolean, string, array, Elements, nil, cons, V8, get, is_object, is_array,
  boolean_option_value,
}
use leveldown.Value.Memory.{Heap, string_or_buffer_to_slice, dispose_string_or_buffer_from_slice}
use leveldown.Store.LevelDb.{LevelDb}
use leveldown.Store.Database.{write_batch_to_database}
use leveldown.Store.Calls.{Reply, returned, State, argument, object_option, setup_common, ◌>>=◌}
use leveldown.Store.Writes.{status_reply}

-- `StrictEquals` with a string.
unfoldable pub strict_equals : JsValue → Bytes → Bool
strict_equals (string s) t = is_eq (cmp s t)
strict_equals v t = false

-- The texts `del` and `put`.
abbrev pub del_text : Bytes
del_text = 100 ∷ 101 ∷ 108 ∷ []

abbrev pub put_text : Bytes
put_text = 112 ∷ 117 ∷ 116 ∷ []

abbrev pub field_of : JsValue → String → JsValue
field_of obj key = elim (get key obj) [ none ↦ undefined | some v ↦ v ]

-- No or one argument.
abbrev pub few_arguments : List JsValue → Bool
few_arguments [] = true
few_arguments (v ∷ []) = true
few_arguments args = false

-- Only an array can be read as one; anything else is undefined.
abbrev pub elements_of : JsValue → Option Elements
elements_of (array items) = some items
elements_of v = none

-- The batch that is built, whether it has data, and the heap.
pub record Filling (B : Type 0) : Type 0 where
  pub batch : B
  pub has_data : Bool
  pub heap : Heap

module _ {D B : Type 0} (v8 : V8) (leveldb : LevelDb D B) where
  unfoldable pub batch_delete : JsValue → Filling B → Option (Filling B)
  batch_delete key_buffer f =
      let (key, taken) = string_or_buffer_to_slice v8 key_buffer f.heap in
      do
        h ← dispose_string_or_buffer_from_slice key_buffer key taken
        some (record { batch = leveldb.batch_delete key.bytes f.batch; has_data = true; heap = h })

  unfoldable pub batch_put : JsValue → JsValue → Filling B → Option (Filling B)
  batch_put key_buffer value_buffer f =
      let (key, taken) = string_or_buffer_to_slice v8 key_buffer f.heap in
      let (value, both) = string_or_buffer_to_slice v8 value_buffer taken in
      do
        h ← dispose_string_or_buffer_from_slice key_buffer key both
        h' ← dispose_string_or_buffer_from_slice value_buffer value h
        some (record {
          batch = leveldb.batch_put key.bytes value.bytes f.batch;
          has_data = true;
          heap = h';
        })

  -- One element: no object and no known type are skipped.
  unfoldable pub batch_element : JsValue → Filling B → Option (Filling B)
  batch_element obj f =
      if not (is_object obj)
      then some f
      else if strict_equals (field_of obj "type") del_text
      then batch_delete (field_of obj "key") f
      else if strict_equals (field_of obj "type") put_text
      then batch_put (field_of obj "key") (field_of obj "value") f
      else some f

  unfoldable pub batch_elements : Elements → Filling B → Option (Filling B)
  batch_elements nil f = some f
  batch_elements (cons obj rest) f = batch_element obj f >>= batch_elements rest

  -- An empty batch is not let through.
  unfoldable pub write_filled : Bool → Filling B → State D → Option (Reply × State D)
  write_filled sync f s =
      if f.has_data
      then (do
        (status, db') ← write_batch_to_database leveldb sync f.batch s.db
        some (status_reply status, record { db = db'; heap = f.heap }))
      else some (returned (boolean true), record s { heap = f.heap })

  unfoldable pub batch_sync : List JsValue → State D → Option (Reply × State D)
  batch_sync args s =
      let sync = boolean_option_value v8 (object_option (argument args 1)) "sync" false in
      do
        items ← elements_of (argument args 0)
        f ←
            batch_elements items
              (record { batch = leveldb.new_batch; has_data = false; heap = s.heap })
        write_filled sync f s

-- The batch object; `sync` is in its write options.
pub record Batch (B : Type 0) : Type 0 where
  pub batch : B
  pub has_data : Bool
  pub sync : Bool

-- What a call leads to: an exception, a batch object, a worker that will write the batch, or the
-- callback at once.
pub data BatchCall (B : Type 0) : Type 0 where
  refused : String → BatchCall B
  chained : Batch B → BatchCall B
  queued : B → Bool → BatchCall B
  called_back : BatchCall B

-- `Batch::Write` queues a worker that holds the object, or calls back at once.
pub data WriteCall : Type 0 where
  write_queued write_called_back : WriteCall

module _ {D B : Type 0} (v8 : V8) (leveldb : LevelDb D B) where
  unfoldable pub new_batch : Option JsValue → Batch B
  new_batch options = record {
    batch = leveldb.new_batch;
    has_data = false;
    sync = boolean_option_value v8 options "sync" false;
  }

  -- `Batch::Put`, `Del`, `Clear` and `Write`.
  unfoldable pub put : List JsValue → Batch B → Heap → Option (Batch B × Heap)
  put args b h = do
    f ←
        batch_put v8 leveldb (argument args 0) (argument args 1)
          (record { batch = b.batch; has_data = b.has_data; heap = h })
    some (record b { batch = f.batch; has_data = f.has_data }, f.heap)

  unfoldable pub del : List JsValue → Batch B → Heap → Option (Batch B × Heap)
  del args b h = do
    f ←
        batch_delete v8 leveldb (argument args 0)
          (record { batch = b.batch; has_data = b.has_data; heap = h })
    some (record b { batch = f.batch; has_data = f.has_data }, f.heap)

  unfoldable pub clear : Batch B → Batch B
  clear b = record b { batch = leveldb.batch_clear b.batch; has_data = false }

  unfoldable pub write : Batch B → WriteCall
  write b = if b.has_data then write_queued else write_called_back

  -- `Database::Batch`: without an array it makes a batch object.
  unfoldable pub batch : List JsValue → Heap → Option (BatchCall B × Heap)
  batch args h =
      if few_arguments args && not (is_array (argument args 0))
      then some (chained (new_batch (object_option (argument args 0))), h)
      else elim (setup_common (some 1) 2 args) [
        | none ↦ some (refused "batch() requires a callback argument", h)
        | some options ↦ do
          items ← elements_of (argument args 0)
          f ←
              batch_elements v8 leveldb items
                (record { batch = leveldb.new_batch; has_data = false; heap = h })
          some (
            if f.has_data
                then queued f.batch (boolean_option_value v8 options "sync" false)
                else called_back,
            f.heap,
          )
      ]
