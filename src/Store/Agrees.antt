-- ===== src/Store/Agrees.antt =====
-- The asynchronous `Get` and `Delete` of src/database.cc with their workers, executed and completed at
-- once, and `Batch` of an array with its worker, against `GetSync`, `DeleteSync` and `BatchSync`.
use leveldown.Base.{
  refl, ◌≡◌, true, false, Bool, some, List, [], ◌∷◌, arith, if◌then◌else◌, ◌∙◌, ap, ◌++◌,
}
use leveldown.Value.{
  JsValue, Elements, array, boolean, function, null, undefined, V8, boolean_option_value, is_object,
  is_function,
}
use leveldown.Value.Memory.{Heap, string_or_buffer_to_slice, dispose_only, leaks, left}
use leveldown.Iterator.Result.{to_value}
use leveldown.Store.LevelDb.{LevelDb, LevelDbLaws}
use leveldown.Store.Calls.{returned, failed, setup_common, ◌>>=◌}
use leveldown.Store.Contents.{bytes_of, bytes_of_lem, any, updates_of, batch_elements-Adds}
use leveldown.Store.Batches.{Batch, Filling, batch, batch_sync, write_filled, called_back}
use leveldown.Store.Batches as Batches
use leveldown.Store.Writes.{get_sync, delete_sync, status_reply}
use leveldown.Store.Workers.{
  no_output, read_value, Worker, queued, error, called, get, delete, execute, work_complete,
  dispose_slices, handle_ok_callback, read_worker, delete_worker, batch_worker,
}

-- The macro finds an options object before the callback.
setup_options :
    (k o : JsValue)
    → is_object o ≡ true
    → is_function o ≡ false
    → setup_common (some 1) 2 (k ∷ o ∷ function ∷ []) ≡ some (some o)
unfolding setup_common is_function
setup_options k o obj fun = ground (arith, obj, fun)

module _ {D B : Type 0} (v8 : V8) (leveldb : LevelDb D B) where
  -- On an open database and with an options object, `Get` with its worker and `GetSync` give the same
  -- value of the same read when its status is ok, and leave the same heap. When it is not, the callback
  -- gets the text of the status, and `GetSync` throws it, or returns undefined for a key not found.
  pub get-get_sync :
      (batches : List (Batch B)) (k o : JsValue) (h : Heap) (d : D)
      → is_object o ≡ true
      → is_function o ≡ false
      → let as_buffer = boolean_option_value v8 (some o) "asBuffer" true in
        let fill_cache = boolean_option_value v8 (some o) "fillCache" true in
        let r = leveldb.get fill_cache (bytes_of v8 k) d in
        let value = to_value as_buffer r.1 in
        (w : Worker B) × (h₁ : Heap) × (h₂ : Heap) × (get v8 (k ∷ o ∷ function ∷ []) h
          ≡ (queued w, h₁))
        × (execute leveldb batches w (some d) ≡ some (r.0, read_value r.1, some d))
        × (work_complete w r.0 (read_value r.1) h₁
            ≡ some (if r.0.ok then called (null ∷ value ∷ []) else error r.0.to_string, h₂))
        × (get_sync v8 leveldb (k ∷ o ∷ []) (record { db = some d; heap = h })
            ≡ some (
              if r.0.ok
                  then returned value
                  else if r.0.is_not_found
                  then returned undefined
                  else failed r.0.to_string,
              record { db = some d; heap = h₂ },
            ))
  unfolding get execute work_complete dispose_slices handle_ok_callback get_sync
  get-get_sync batches k o h d obj fun =
      let (key, taken) = string_or_buffer_to_slice v8 k h in
      let as_buffer = boolean_option_value v8 (some o) "asBuffer" true in
      let fill_cache = boolean_option_value v8 (some o) "fillCache" true in
      (
        read_worker key as_buffer fill_cache k,
        taken,
        record taken { live = left (leaks v8 k) h.next h.live },
        rw (get, setup_options k o obj fun) refl,
        rw (execute, bytes_of_lem v8 k h) refl,
        rw (work_complete, dispose_slices, dispose_only v8 k h, ◌>>=◌) refl,
        rw (get_sync, obj, bytes_of_lem v8 k h, dispose_only v8 k h, ◌>>=◌) refl,
      )

  -- On an open database and with an options object, `Delete` with its worker and `DeleteSync` do the
  -- same to LevelDB and leave the same heap, and report the same status: the one to its callback, the
  -- other as its result or as an exception.
  pub delete-delete_sync :
      (batches : List (Batch B)) (k o : JsValue) (h : Heap) (d : D)
      → is_object o ≡ true
      → is_function o ≡ false
      → let sync = boolean_option_value v8 (some o) "sync" false in
        let r = leveldb.delete sync (bytes_of v8 k) d in
        (w : Worker B) × (h₁ : Heap) × (h₂ : Heap) × (delete v8 (k ∷ o ∷ function ∷ []) h
          ≡ (queued w, h₁))
        × (execute leveldb batches w (some d) ≡ some (r.0, no_output, some r.1))
        × (work_complete w r.0 no_output h₁
            ≡ some (if r.0.ok then called [] else error r.0.to_string, h₂))
        × (delete_sync v8 leveldb (k ∷ o ∷ []) (record { db = some d; heap = h })
            ≡ some (status_reply r.0, record { db = some r.1; heap = h₂ }))
  unfolding delete execute work_complete dispose_slices handle_ok_callback delete_sync
  delete-delete_sync batches k o h d obj fun =
      let (key, taken) = string_or_buffer_to_slice v8 k h in
      let sync = boolean_option_value v8 (some o) "sync" false in
      (
        delete_worker key sync k,
        taken,
        record taken { live = left (leaks v8 k) h.next h.live },
        rw (delete, setup_options k o obj fun) refl,
        rw (execute, bytes_of_lem v8 k h) refl,
        rw (work_complete, dispose_slices, dispose_only v8 k h, ◌>>=◌) refl,
        rw (delete_sync, obj, bytes_of_lem v8 k h, dispose_only v8 k h, ◌>>=◌) refl,
      )

if_some :
    {A : Type 0} (b : Bool) (x y : A) → (if b then some x else some y) ≡ some (if b then x else y)
if_some true x y = refl
if_some false x y = refl

module _ {D B : Type 0} (v8 : V8) (leveldb : LevelDb D B) (laws : LevelDbLaws leveldb) where
  -- On an open database and with an options object, `Batch` and `BatchSync` of an array collect the
  -- same puts and dels. Where there are none, neither does anything else than report success; else the
  -- worker that is queued does the same to LevelDB when it is executed as `BatchSync` did, with the
  -- status that `BatchSync` reports, and both leave the same heap.
  pub batch-batch_sync :
      (batches : List (Batch B)) (items : Elements) (o : JsValue) (h : Heap) (d : D)
      → is_object o ≡ true
      → is_function o ≡ false
      → let sync = boolean_option_value v8 (some o) "sync" false in
        let some_update = any (updates_of v8 items) in
        (b : B) × (h' : Heap) × (batch v8 leveldb (array items ∷ o ∷ function ∷ []) h
          ≡ some (if some_update then Batches.queued b sync else called_back, h'))
        × (execute leveldb batches (batch_worker b sync) (some d)
            ≡ some ((leveldb.write sync b d).0, no_output, some (leveldb.write sync b d).1))
        × (batch_sync v8 leveldb (array items ∷ o ∷ []) (record { db = some d; heap = h })
            ≡ some (
                if some_update
                then (
                  status_reply (leveldb.write sync b d).0,
                  record { db = some (leveldb.write sync b d).1; heap = h' },
                )
                else (returned (boolean true), record { db = some d; heap = h' })))
        × (laws.updates b ≡ updates_of v8 items)
  unfolding execute batch batch_sync write_filled
  batch-batch_sync batches items o h d obj fun =
      let new : Filling B = record { batch = leveldb.new_batch; has_data = false; heap = h } in
      let (f, runs, a) = batch_elements-Adds v8 leveldb laws items new in
      (
        f.batch,
        f.heap,
        rw (batch, setup_options (array items) o obj fun, runs, a.1) refl,
        refl,
        rw (batch_sync, obj, runs, write_filled, a.1) (if_some (any (updates_of v8 items)) _ _),
        a.0 ∙ ap (λ us. us ++ updates_of v8 items) laws.new_batch_lem,
      )
