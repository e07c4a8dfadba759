-- ===== src/Tests/Agreeing.antt =====
-- The asynchronous methods and the synchronous ones at the same arguments.
use leveldown.Base.{refl, ◌≡◌, true, false, some, List, [], ◌∷◌, if◌then◌else◌}
use leveldown.Value.{
  JsValue, string, object, field, end, boolean, function, null, undefined, array, cons, nil,
  Elements, boolean_option_value,
}
use leveldown.Value.Memory.{Heap}
use leveldown.Iterator.Result.{to_value}
use leveldown.Iterator.{Row}
use leveldown.Cursor.{Position, nowhere}
use leveldown.Cursor.Sample.{list_cursor}
use leveldown.Lifecycle.{Handle, next_sync, next_complete, next_execute, next}
use leveldown.Lifecycle as Lifecycle
use leveldown.Lifecycle.Synchronous.{next_sync-next}
use leveldown.Store.LevelDb.{Update}
use leveldown.Store.Calls.{returned, failed}
use leveldown.Store.Contents.{bytes_of, updates_of, any}
use leveldown.Store.Batches.{Batch, called_back, batch, batch_sync}
use leveldown.Store.Batches as Batches
use leveldown.Store.Writes.{get_sync, delete_sync, status_reply}
use leveldown.Store.Workers.{
  Worker, queued, get, delete, execute, work_complete, read_value, no_output, called, error,
  batch_worker,
}
use leveldown.Store.Agrees.{get-get_sync, delete-delete_sync, batch-batch_sync}
use leveldown.Tests.Values.{plain_v8, no_blocks}
use leveldown.Tests.Storing.{simple_leveldb, simple_leveldb-LevelDbLaws, no_contents, two_items}
use leveldown.Tests.Life.{reading_handle}

-- `{ asBuffer: false, sync: true }`
abbrev some_options : JsValue
some_options = object (field "asBuffer" (boolean false) (field "sync" (boolean true) end))

abbrev some_key : JsValue
some_key = string (97 ∷ [])

get-get_sync_example :
    let as_buffer = boolean_option_value plain_v8 (some some_options) "asBuffer" true in
    let fill_cache = boolean_option_value plain_v8 (some some_options) "fillCache" true in
    let r = simple_leveldb.get fill_cache (bytes_of plain_v8 some_key) no_contents in
    let value = to_value as_buffer r.1 in
    (w : Worker (List Update)) × (h₁ : Heap) × (h₂ : Heap) × (get plain_v8
        (some_key ∷ some_options ∷ function ∷ [])
        no_blocks
      ≡ (queued w, h₁))
    × (execute simple_leveldb [] w (some no_contents)
        ≡ some (r.0, read_value r.1, some no_contents))
    × (work_complete w r.0 (read_value r.1) h₁
        ≡ some (if r.0.ok then called (null ∷ value ∷ []) else error r.0.to_string, h₂))
    × (get_sync plain_v8 simple_leveldb
          (some_key ∷ some_options ∷ [])
          (record { db = some no_contents; heap = no_blocks })
        ≡ some (
          if r.0.ok
              then returned value
              else if r.0.is_not_found
              then returned undefined
              else failed r.0.to_string,
          record { db = some no_contents; heap = h₂ },
        ))
unfolding leveldown.Value.is_object leveldown.Value.is_function
get-get_sync_example =
    get-get_sync plain_v8 simple_leveldb [] some_key some_options no_blocks no_contents refl refl

delete-delete_sync_example :
    let sync = boolean_option_value plain_v8 (some some_options) "sync" false in
    let r = simple_leveldb.delete sync (bytes_of plain_v8 some_key) no_contents in
    (w : Worker (List Update)) × (h₁ : Heap) × (h₂ : Heap) × (delete plain_v8
        (some_key ∷ some_options ∷ function ∷ [])
        no_blocks
      ≡ (queued w, h₁))
    × (execute simple_leveldb [] w (some no_contents) ≡ some (r.0, no_output, some r.1))
    × (work_complete w r.0 no_output h₁
        ≡ some (if r.0.ok then called [] else error r.0.to_string, h₂))
    × (delete_sync plain_v8 simple_leveldb
          (some_key ∷ some_options ∷ [])
          (record { db = some no_contents; heap = no_blocks })
        ≡ some (status_reply r.0, record { db = some r.1; heap = h₂ }))
unfolding leveldown.Value.is_object leveldown.Value.is_function
delete-delete_sync_example =
    delete-delete_sync plain_v8 simple_leveldb [] some_key some_options no_blocks no_contents refl
      refl

batch-batch_sync_example :
    let sync = boolean_option_value plain_v8 (some some_options) "sync" false in
    let some_update = any (updates_of plain_v8 two_items) in
    (b : List Update) × (h' : Heap) × (batch plain_v8 simple_leveldb
        (array two_items ∷ some_options ∷ function ∷ [])
        no_blocks
      ≡ some (if some_update then Batches.queued b sync else called_back, h'))
    × (execute simple_leveldb [] (batch_worker b sync) (some no_contents)
        ≡ some (
          (simple_leveldb.write sync b no_contents).0,
          no_output,
          some (simple_leveldb.write sync b no_contents).1,
        ))
    × (batch_sync plain_v8 simple_leveldb
          (array two_items ∷ some_options ∷ [])
          (record { db = some no_contents; heap = no_blocks })
        ≡ some (
            if some_update
            then (
              status_reply (simple_leveldb.write sync b no_contents).0,
              record { db = some (simple_leveldb.write sync b no_contents).1; heap = h' },
            )
            else (returned (boolean true), record { db = some no_contents; heap = h' })))
    × (simple_leveldb-LevelDbLaws.updates b ≡ updates_of plain_v8 two_items)
unfolding leveldown.Value.is_object leveldown.Value.is_function
batch-batch_sync_example =
    batch-batch_sync plain_v8 simple_leveldb simple_leveldb-LevelDbLaws [] two_items some_options
      no_blocks no_contents refl refl

-- An iterator at rest over no entries.
abbrev resting_handle : Handle Position
resting_handle = record reading_handle {
  iterator = record reading_handle.iterator { nexting = false };
  next_work = Lifecycle.absent;
}

abbrev read_handle : Handle Position
read_handle = record reading_handle {
  iterator = record reading_handle.iterator { db_iterator = some nowhere };
  next_work = Lifecycle.executed true;
}

next_sync-next_example :
    next_sync (list_cursor []) 2 resting_handle
    ≡ some (next_complete true read_handle, Lifecycle.rows [] true)
unfolding next next_execute leveldown.Iterator.iterator_next leveldown.Iterator.collect
    leveldown.Iterator.read leveldown.Iterator.advance leveldown.Iterator.get_iterator
    leveldown.Iterator.examine leveldown.Iterator.start_cursor leveldown.Iterator.start_forward
    leveldown.Bytes.cmp leveldown.Lifecycle.status_ok leveldown.Lifecycle.finished
    leveldown.Iterator.is_stuck
next_sync-next_example =
    next_sync-next (list_cursor []) 2 resting_handle read_handle [] true refl refl refl refl
