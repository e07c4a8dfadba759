-- ===== src/Store/Writes.antt =====
-- `OpenSync`, `PutSync`, `GetSync` and `DeleteSync` of src/database.cc. A method called while the
-- database is not open, and a fault of the heap, have no result.
use leveldown.Base.{◌*◌, ◌^◌, pos, true, false, Option, none, some, List, if◌then◌else◌}
use leveldown.Value.{JsValue, undefined, boolean, V8, boolean_option_value, uint32_option_value}
use leveldown.Value.Memory.{string_or_buffer_to_slice, dispose_string_or_buffer_from_slice}
use leveldown.Iterator.New.{to_int}
use leveldown.Iterator.Result.{to_value}
use leveldown.Store.LevelDb.{Status, OpenOptions, LevelDb}
use leveldown.Store.Database.{put_to_database, get_from_database, delete_from_database}
use leveldown.Store.Calls.{
  Reply, failed, returned, State, argument, object_option, no_arguments, after_usage, ◌>>=◌,
}

-- The options of `OpenSync`, which makes no cache and no filter.
unfoldable pub open_options : V8 → Option JsValue → OpenOptions
open_options v8 options = record {
  create_if_missing = boolean_option_value v8 options "createIfMissing" true;
  error_if_exists = boolean_option_value v8 options "errorIfExists" false;
  compression = boolean_option_value v8 options "compression" true;
  write_buffer_size = uint32_option_value v8 options "writeBufferSize" (4 * 2 ^ 20);
  block_size = uint32_option_value v8 options "blockSize" 4096;
  max_open_files = to_int (pos (uint32_option_value v8 options "maxOpenFiles" 1000));
  block_restart_interval = uint32_option_value v8 options "blockRestartInterval" 16;
  max_file_size = uint32_option_value v8 options "maxFileSize" (2 * 2 ^ 20);
  block_cache = none;
  filter_policy = none;
}

-- Those of `Open` with `OpenWorker`.
unfoldable pub open_worker_options : V8 → Option JsValue → OpenOptions
open_worker_options v8 options = record (open_options v8 options) {
  block_cache = some (uint32_option_value v8 options "cacheSize" (8 * 2 ^ 20));
  filter_policy = some 10;
}

abbrev pub status_reply : Status → Reply
status_reply s = if s.ok then returned (boolean true) else failed s.to_string

module _ {D B : Type 0} (v8 : V8) (leveldb : LevelDb D B) where
  unfoldable pub open_sync : List JsValue → State D → Reply × State D
  open_sync args s =
      let (status, db) =
        leveldb.open_database (open_options v8 (object_option (argument args 0))) in
      (status_reply status, record s { db = db })

  unfoldable pub put_sync : List JsValue → State D → Option (Reply × State D)
  put_sync args s =
      let sync = boolean_option_value v8 (object_option (argument args 2)) "sync" false in
      let (key, taken) = string_or_buffer_to_slice v8 (argument args 0) s.heap in
      let (value, both) = string_or_buffer_to_slice v8 (argument args 1) taken in
      do
        (status, db') ← put_to_database leveldb sync key.bytes value.bytes s.db
        h ← dispose_string_or_buffer_from_slice (argument args 0) key both
        h' ← dispose_string_or_buffer_from_slice (argument args 1) value h
        some (
          after_usage (no_arguments args) "PutSync requires the key argument."
              (status_reply status),
          record { db = db'; heap = h' },
        )

  -- A key that is not found gives `undefined`.
  unfoldable pub get_sync : List JsValue → State D → Option (Reply × State D)
  get_sync args s =
      let (key, taken) = string_or_buffer_to_slice v8 (argument args 0) s.heap in
      let options = object_option (argument args 1) in
      let as_buffer = boolean_option_value v8 options "asBuffer" true in
      let fill_cache = boolean_option_value v8 options "fillCache" true in
      do
        (status, value) ← get_from_database leveldb fill_cache key.bytes s.db
        h ← dispose_string_or_buffer_from_slice (argument args 0) key taken
        some (
          after_usage (no_arguments args) "GetSync requires the key argument." (
              if status.ok
              then returned (to_value as_buffer value)
              else if status.is_not_found
              then returned undefined
              else failed status.to_string),
          record s { heap = h },
        )

  unfoldable pub delete_sync : List JsValue → State D → Option (Reply × State D)
  delete_sync args s =
      let (key, taken) = string_or_buffer_to_slice v8 (argument args 0) s.heap in
      let sync = boolean_option_value v8 (object_option (argument args 1)) "sync" false in
      do
        (status, db') ← delete_from_database leveldb sync key.bytes s.db
        h ← dispose_string_or_buffer_from_slice (argument args 0) key taken
        some (status_reply status, record { db = db'; heap = h })
