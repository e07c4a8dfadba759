-- ===== src/Store/Queued.antt =====
-- `Put` of src/database.cc with its `WriteWorker` from the call to the callback.
use leveldown.Base.{refl, ◌≡◌, ℕ, true, false, Bool, Option, some, List, [], arith, if◌then◌else◌}
use leveldown.Value.{JsValue, V8, boolean_option_value, is_null_or_undefined, is_buffer, text}
use leveldown.Value.Memory.{
  Heap, string_or_buffer_to_slice, dispose_string_or_buffer_from_slice, delete_array, dispose_only,
  leaks, left,
}
use leveldown.Store.LevelDb.{LevelDb}
use leveldown.Store.Calls.{argument, setup_common, ◌>>=◌}
use leveldown.Store.Contents.{bytes_of, bytes_of_lem}
use leveldown.Store.Batches.{Batch}
use leveldown.Store.Workers.{
  no_output, Worker, queued, error, called, put, execute, work_complete, dispose_slices,
  handle_ok_callback, write_worker,
}

-- The older of two slices is disposed of after the newer one.
dispose_older :
    (v8 : V8) (k : JsValue) (h : Heap) (leak : Bool)
    → let (key, taken) = string_or_buffer_to_slice v8 k h in
      (n : ℕ)
      → dispose_string_or_buffer_from_slice k key
          (record { live = left leak taken.next taken.live; next = n })
        ≡ some (record { live = left leak taken.next (left (leaks v8 k) h.next h.live); next = n })
unfolding string_or_buffer_to_slice dispose_string_or_buffer_from_slice delete_array leaks
    is_null_or_undefined is_buffer text
dispose_older v8 k h true n = ground arith
dispose_older v8 k h false n = ground arith

module _ {D B : Type 0} (v8 : V8) (leveldb : LevelDb D B) where
  -- `Put` with a callback queues a worker. Executed on an open database, it puts the bytes of the
  -- value under the bytes of the key; completed, it reports the status of that, and leaves of the
  -- heap blocks that the call took only those of empty texts.
  pub put-work_complete :
      (batches : List (Batch B)) (args : List JsValue) (options : Option JsValue) (h : Heap) (d : D)
      → setup_common (some 2) 3 args ≡ some options
      → let k = argument args 0 in
        let v = argument args 1 in
        let sync = boolean_option_value v8 options "sync" false in
        let r = leveldb.put sync (bytes_of v8 k) (bytes_of v8 v) d in
        let taken = (string_or_buffer_to_slice v8 k h).1 in
        (w : Worker B) × (h₁ : Heap) × (h₂ : Heap) × (put v8 args h ≡ (queued w, h₁))
        × (execute leveldb batches w (some d) ≡ some (r.0, no_output, some r.1))
        × (work_complete w r.0 no_output h₁
            ≡ some (if r.0.ok then called [] else error r.0.to_string, h₂))
        × (h₂.live ≡ left (leaks v8 v) taken.next (left (leaks v8 k) h.next h.live))
  unfolding put execute work_complete dispose_slices handle_ok_callback
  put-work_complete batches args options h d e =
      let k = argument args 0 in
      let v = argument args 1 in
      let sync = boolean_option_value v8 options "sync" false in
      let (key, taken) = string_or_buffer_to_slice v8 k h in
      let (value, both) = string_or_buffer_to_slice v8 v taken in
      (
        write_worker key value sync k v,
        both,
        record {
          live = left (leaks v8 v) taken.next (left (leaks v8 k) h.next h.live);
          next = both.next;
        },
        rw (put, e) refl,
        rw (execute, bytes_of_lem v8 k h, bytes_of_lem v8 v taken) refl,
        rw
            (
              work_complete,
              dispose_slices,
              dispose_only v8 v taken,
              ◌>>=◌,
              dispose_older v8 k h (leaks v8 v) both.next,
            )
            refl,
        refl,
      )
