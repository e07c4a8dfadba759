-- ===== src/Store/Applied.antt =====
-- The database after a write that succeeded, and what a read then gives.
use Prim.Native.String.{String}
use leveldown.Base.{
  refl, sym, ◌∙◌, ap, ◌≡◌, Bool, true, false, Option, none, some, List, [], ◌∷◌, ◌++◌, Bool-cases,
  inl, inr, arith, if◌then◌else◌, some_inj,
}
use leveldown.Bytes.{Bytes}
use leveldown.Bytes.Order.{cmp_refl}
use leveldown.Value.{
  JsValue, undefined, null, boolean, string, buffer, array, Elements, nil, cons, V8, get, is_object,
  is_null_or_undefined, is_buffer, boolean_option_value, text,
}
use leveldown.Value.Memory.{dispose_only}
use leveldown.Store.LevelDb.{Status, LevelDb, LevelDbLaws, Update, put, update, update_all}
use leveldown.Store.Calls.{
  Reply, usage, failed, returned, State, argument, object_option, no_arguments, after_usage, ◌>>=◌,
}
use leveldown.Store.Writes.{status_reply, put_sync, get_sync}
use leveldown.Store.Batches.{Filling, batch_sync, write_filled, elements_of}
use leveldown.Iterator.Result.{to_value}
use leveldown.Store.Contents.{
  bytes_of, any, updates_of, bytes_of_lem, Adds, put_sync-runs, batch_elements-Adds,
}

-- A reply `true` comes from a status that is ok.
pub reply_ok : (st : Status) → status_reply st ≡ returned (boolean true) → st.ok ≡ true
reply_ok st e = ground arith

usage_ok :
    (b : Bool) (text : String) (r : Reply) (v : JsValue)
    → after_usage b text r ≡ returned v
    → r ≡ returned v
usage_ok true text (usage m) v e = e
usage_ok true text (failed m) v e = e
usage_ok true text (returned w) v e = ground arith
usage_ok false text r v e = e

-- A read of a key that is mapped to a value gives a buffer of it, if it gives anything.
read_reply :
    (st : Status) (value v : Bytes) (m : Option Bytes) (x : JsValue)
    → m ≡ some v
    → (st.ok ≡ true → m ≡ some value)
    → (st.is_not_found ≡ true → m ≡ none)
    → (if st.ok
        then returned (to_value true value)
        else if st.is_not_found
        then returned undefined
        else failed st.to_string)
      ≡ returned x
    → x ≡ buffer v
unfolding to_value
read_reply st value v m x there found lost e = elim (Bool-cases st.ok) [
  | inl fine ↦ ground (arith, found fine)
  | inr bad ↦ elim (Bool-cases st.is_not_found) [
    | inl gone ↦ ground (arith, lost gone)
    | inr worse ↦ ground arith
  ]
]

no_updates : (us : List Update) → any us ≡ false → us ≡ []
no_updates [] e = refl
no_updates (u ∷ us) e = ground arith

module _ {D B : Type 0} (v8 : V8) (leveldb : LevelDb D B) (laws : LevelDbLaws leveldb) where
  open laws use {contents, updates}

  -- When `PutSync` on an open database returns true, the database afterwards maps the key's bytes to
  -- the value's bytes, and every other key to what it was mapped to.
  pub put_sync-contents :
      (args : List JsValue) (s s' : State D) (d : D)
      → s.db ≡ some d
      → put_sync v8 leveldb args s ≡ some (returned (boolean true), s')
      → (d' : D) × (s'.db ≡ some d')
        × (contents d'
            ≡ update
                (put (bytes_of v8 (argument args 0)) (bytes_of v8 (argument args 1)))
                (contents d))
  put_sync-contents args s s' d open_ e =
      let k = bytes_of v8 (argument args 0) in
      let v = bytes_of v8 (argument args 1) in
      let sync = boolean_option_value v8 (object_option (argument args 2)) "sync" false in
      let (h, runs) = put_sync-runs v8 leveldb args s d open_ in
      let same = some_inj (sym runs ∙ e) in
      let reply = usage_ok (no_arguments args) _ _ _ (ap (λ p. p.0) same) in
      let new : State D = record { db = some (leveldb.put sync k v d).1; heap = h } in
      let result : new ≡ s' = ap (λ p. p.1) same in
      (
        (leveldb.put sync k v d).1,
        sym (ap (λ (x : State D). x.db) result),
        laws.put_lem sync k v d (reply_ok (leveldb.put sync k v d).0 reply),
      )

  batch_filled :
      (sync : Bool) (items : Elements) (s s' : State D) (d : D) (f₀ f : Filling B)
      → s.db ≡ some d
      → updates f₀.batch ≡ []
      → f₀.has_data ≡ false
      → Adds v8 leveldb laws f₀ (updates_of v8 items) f
      → write_filled v8 leveldb sync f s ≡ some (returned (boolean true), s')
      → (d' : D) × (s'.db ≡ some d') × (contents d' ≡ update_all (updates_of v8 items) (contents d))
  unfolding write_filled
  batch_filled sync items s s' d f₀ f open_ none_yet no_data a e = elim (Bool-cases f.has_data) [
    | inl full ↦
        let same = some_inj (rw (write_filled, full, open_) at e) in
        let now : updates f.batch ≡ updates_of v8 items =
          a.0 ∙ ap (λ us. us ++ updates_of v8 items) none_yet in
        (
          (leveldb.write sync f.batch d).1,
          sym (ap (λ p. p.1.db) same),
          laws.write_lem sync f.batch d
                (reply_ok (leveldb.write sync f.batch d).0 (ap (λ p. p.0) same))
              ∙ ap (λ us. update_all us (contents d)) now,
        )
    | inr empty ↦
        let same = some_inj (rw (write_filled, empty) at e) in
        let nothing = no_updates (updates_of v8 items) (ground arith) in
        (
          d,
          sym (ap (λ p. p.1.db) same) ∙ open_,
          sym (ap (λ us. update_all us (contents d)) nothing),
        )
  ]

  pub batch_sync_applies :
      (items : Elements) (args : List JsValue) (s s' : State D) (d : D)
      → elements_of (argument args 0) ≡ some items
      → s.db ≡ some d
      → batch_sync v8 leveldb args s ≡ some (returned (boolean true), s')
      → (d' : D) × (s'.db ≡ some d') × (contents d' ≡ update_all (updates_of v8 items) (contents d))
  unfolding batch_sync
  batch_sync_applies items args s s' d is open_ e =
      let f₀ : Filling B = record { batch = leveldb.new_batch; has_data = false; heap = s.heap } in
      let (f, runs, a) = batch_elements-Adds v8 leveldb laws items f₀ in
      let sync = boolean_option_value v8 (object_option (argument args 1)) "sync" false in
      batch_filled sync items s s' d f₀ f open_ laws.new_batch_lem refl a
        (rw (batch_sync, is, ◌>>=◌, runs, ◌>>=◌) at e)

  -- When `BatchSync` of an array on an open database returns true, the database afterwards has what
  -- the array's puts and dels give, one after the other, and elements that are no objects or have
  -- another type change nothing.
  pub batch_sync-contents :
      (items : Elements) (args : List JsValue) (s s' : State D) (d : D)
      → s.db ≡ some d
      → batch_sync v8 leveldb (array items ∷ args) s ≡ some (returned (boolean true), s')
      → (d' : D) × (s'.db ≡ some d') × (contents d' ≡ update_all (updates_of v8 items) (contents d))
  batch_sync-contents items args s s' d open_ e =
      batch_sync_applies items (array items ∷ args) s s' d refl open_ e

  -- When `PutSync` of a key and a value on an open database returns true, and `GetSync` of the same
  -- key then returns anything, it returns a buffer with the bytes of the value.
  pub get_sync-put_sync :
      (k v x : JsValue) (s s' s'' : State D) (d : D)
      → s.db ≡ some d
      → put_sync v8 leveldb (k ∷ v ∷ []) s ≡ some (returned (boolean true), s')
      → get_sync v8 leveldb (k ∷ []) s' ≡ some (returned x, s'')
      → x ≡ buffer (bytes_of v8 v)
  unfolding get_sync leveldown.Value.boolean_option_value leveldown.Value.is_object
  get_sync-put_sync k v x s s' s'' d open_ p g =
      let (d', still, now) = put_sync-contents (k ∷ v ∷ []) s s' d open_ p in
      let key = bytes_of v8 k in
      let there : contents d' key ≡ some (bytes_of v8 v) =
        ap (λ m. m key) now ∙ rw (cmp_refl key) refl in
      let (status, value) = leveldb.get true key d' in
      let same = rw (get_sync, still, dispose_only v8 k s'.heap, bytes_of_lem v8 k s'.heap) at g in
      read_reply status value (bytes_of v8 v) (contents d' key) x there (laws.get_lem true key d')
        (laws.not_found_lem true key d') (ap (λ r. r.0) (some_inj same))

  -- `PutSync` without arguments on an open database throws its usage error, and all the same, when
  -- LevelDB's status is ok, the database afterwards maps the empty key to an empty value.
  pub put_sync-no_arguments :
      (s : State D) (d : D)
      → s.db ≡ some d
      → (leveldb.put (boolean_option_value v8 none "sync" false) [] [] d).0.ok ≡ true
      → (s' : State D) × (d' : D) × (put_sync v8 leveldb [] s
          ≡ some (usage "PutSync requires the key argument.", s'))
        × (s'.db ≡ some d')
        × (contents d' ≡ update (put [] []) (contents d))
  unfolding leveldown.Value.is_object leveldown.Value.is_null_or_undefined
  put_sync-no_arguments s d open_ fine =
      let (h, runs) = put_sync-runs v8 leveldb [] s d open_ in
      let r = leveldb.put (boolean_option_value v8 none "sync" false) [] [] d in
      let new : State D = record { db = some r.1; heap = h } in
      (new, r.1, rw fine at runs, refl, laws.put_lem _ [] [] d fine)
