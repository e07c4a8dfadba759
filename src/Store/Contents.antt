-- ===== src/Store/Contents.antt =====
-- What the writes and batches do to the contents of the database.
use leveldown.Base.{
  refl, sym, ◌∙◌, ap, ◌≡◌, Bool, true, false, not, ◌||◌, some, List, [], ◌∷◌, ◌++◌, Option-cases,
  Bool-cases, inl, inr, arith, if◌then◌else◌, append-nil, append_assoc,
}
use leveldown.Bytes.{Bytes}
use leveldown.Value.{
  JsValue, Elements, nil, cons, V8, is_object, is_null_or_undefined, boolean_option_value, text,
}
use leveldown.Value.Memory.{
  Heap, string_or_buffer_to_slice, dispose_string_or_buffer_from_slice, dispose_two,
  dispose_two_lem, dispose_only, leaks, left,
}
use leveldown.Store.LevelDb.{LevelDb, LevelDbLaws, Update, put, del}
use leveldown.Store.Calls.{State, argument, object_option, no_arguments, after_usage, ◌>>=◌}
use leveldown.Store.Writes.{status_reply, put_sync}
use leveldown.Store.Batches.{
  Filling, strict_equals, del_text, put_text, field_of, batch_delete, batch_put, batch_element,
  batch_elements,
}

-- The bytes of a key or value: null and undefined are read as an empty text.
abbrev pub bytes_of : V8 → JsValue → Bytes
bytes_of v8 v = if is_null_or_undefined v then [] else text v8 v

-- What the elements of a batch's array ask for, in order; no other element counts.
abbrev pub element_updates : V8 → JsValue → List Update
element_updates v8 obj =
    if not (is_object obj)
    then []
    else if strict_equals (field_of obj "type") del_text
    then del (bytes_of v8 (field_of obj "key")) ∷ []
    else if strict_equals (field_of obj "type") put_text
    then put (bytes_of v8 (field_of obj "key")) (bytes_of v8 (field_of obj "value")) ∷ []
    else []

abbrev pub updates_of : V8 → Elements → List Update
updates_of v8 nil = []
updates_of v8 (cons obj rest) = element_updates v8 obj ++ updates_of v8 rest

-- There are updates.
abbrev pub any : List Update → Bool
any [] = false
any (u ∷ us) = true

any_append : (us vs : List Update) → any (us ++ vs) ≡ (any us || any vs)
any_append [] vs = refl
any_append (u ∷ us) vs = refl

pub bytes_of_lem :
    (v8 : V8) (v : JsValue) (h : Heap) → (string_or_buffer_to_slice v8 v h).0.bytes ≡ bytes_of v8 v
unfolding string_or_buffer_to_slice
bytes_of_lem v8 v h = ground arith

-- Disposing of two slices is disposing of the one and then of the other.
two_parts :
    (v8 : V8) (k v : JsValue) (h h' : Heap)
    → dispose_two v8 k v h ≡ some h'
    → let (key, taken) = string_or_buffer_to_slice v8 k h in
      let (value, both) = string_or_buffer_to_slice v8 v taken in
      (h₁ : Heap) × (dispose_string_or_buffer_from_slice k key both ≡ some h₁)
      × (dispose_string_or_buffer_from_slice v value h₁ ≡ some h')
unfolding dispose_two
two_parts v8 k v h h' e =
    let (key, taken) = string_or_buffer_to_slice v8 k h in
    let (value, both) = string_or_buffer_to_slice v8 v taken in
    elim (Option-cases (dispose_string_or_buffer_from_slice k key both)) [
      | inl n ↦ ground (arith, n)
      | inr (h₁, n) ↦ (h₁, n, ground (arith, n))
    ]

module _ {D B : Type 0} (v8 : V8) (leveldb : LevelDb D B) where
  -- Any call on an open database has a result: the conversions and disposals never fault.
  pub put_sync-runs :
      (args : List JsValue) (s : State D) (d : D)
      → s.db ≡ some d
      → let k = argument args 0 in
        let v = argument args 1 in
        let sync = boolean_option_value v8 (object_option (argument args 2)) "sync" false in
        let r = leveldb.put sync (bytes_of v8 k) (bytes_of v8 v) d in
        (h : Heap) × (put_sync v8 leveldb args s
          ≡ some (
            after_usage (no_arguments args) "PutSync requires the key argument." (status_reply r.0),
            record { db = some r.1; heap = h },
          ))
  unfolding put_sync
  put_sync-runs args s d e =
      let k = argument args 0 in
      let v = argument args 1 in
      let (h, f, g) = dispose_two_lem v8 k v s.heap in
      let (h₁, a, b) = two_parts v8 k v s.heap h f in
      let taken = (string_or_buffer_to_slice v8 k s.heap).1 in
      (h, rw (put_sync, e, a, ◌>>=◌, b, bytes_of_lem v8 k s.heap, bytes_of_lem v8 v taken) refl)

  module _ (laws : LevelDbLaws leveldb) where
    open laws use {contents, updates}

    abbrev pub Adds : Filling B → List Update → Filling B → Type 0
    Adds f us f' =
        (updates f'.batch ≡ updates f.batch ++ us) × (f'.has_data ≡ (f.has_data || any us))

    pub batch_delete-Adds :
        (k : JsValue) (f : Filling B)
        → (f' : Filling B) × (batch_delete v8 leveldb k f ≡ some f')
          × Adds f (del (bytes_of v8 k) ∷ []) f'
    unfolding batch_delete
    batch_delete-Adds k f =
        let taken = (string_or_buffer_to_slice v8 k f.heap).1 in
        (
          record {
            batch = leveldb.batch_delete (bytes_of v8 k) f.batch;
            has_data = true;
            heap = record taken { live = left (leaks v8 k) f.heap.next f.heap.live };
          },
          rw (batch_delete, dispose_only v8 k f.heap, bytes_of_lem v8 k f.heap) refl,
          (laws.batch_delete_lem (bytes_of v8 k) f.batch, ground arith),
        )

    pub batch_put-Adds :
        (k v : JsValue) (f : Filling B)
        → (f' : Filling B) × (batch_put v8 leveldb k v f ≡ some f')
          × Adds f (put (bytes_of v8 k) (bytes_of v8 v) ∷ []) f'
    unfolding batch_put
    batch_put-Adds k v f =
        let (h, e, g) = dispose_two_lem v8 k v f.heap in
        let (h₁, a, b) = two_parts v8 k v f.heap h e in
        let taken = (string_or_buffer_to_slice v8 k f.heap).1 in
        (
          record {
            batch = leveldb.batch_put (bytes_of v8 k) (bytes_of v8 v) f.batch;
            has_data = true;
            heap = h;
          },
          rw (batch_put, a, ◌>>=◌, b, bytes_of_lem v8 k f.heap, bytes_of_lem v8 v taken) refl,
          (laws.batch_put_lem (bytes_of v8 k) (bytes_of v8 v) f.batch, ground arith),
        )

    skipped : (f : Filling B) → Adds f [] f
    skipped f = (sym (append-nil (updates f.batch)), ground arith)

    batch_element-Adds :
        (obj : JsValue) (f : Filling B)
        → (f' : Filling B) × (batch_element v8 leveldb obj f ≡ some f')
          × Adds f (element_updates v8 obj) f'
    unfolding batch_element
    batch_element-Adds obj f = elim (Bool-cases (is_object obj)) [
      | inr other ↦ rw (batch_element, other) (f, refl, skipped f)
      | inl is ↦ elim (Bool-cases (strict_equals (field_of obj "type") del_text)) [
        | inl is_del ↦ rw (batch_element, is, is_del) (batch_delete-Adds (field_of obj "key") f)
        | inr not_del ↦ elim (Bool-cases (strict_equals (field_of obj "type") put_text)) [
          | inl is_put ↦
              rw (batch_element, is, not_del, is_put)
                (batch_put-Adds (field_of obj "key") (field_of obj "value") f)
          | inr not_put ↦ rw (batch_element, is, not_del, not_put) (f, refl, skipped f)
        ]
      ]
    ]

    Adds-both :
        (us vs : List Update) (f g h : Filling B) → Adds f us g → Adds g vs h → Adds f (us ++ vs) h
    Adds-both us vs f g h a b = (
      b.0 ∙ ap (λ xs. xs ++ vs) a.0 ∙ append_assoc (updates f.batch) us vs,
      ground (arith, any_append us vs),
    )

    pub batch_elements-Adds :
        (items : Elements) (f : Filling B)
        → (f' : Filling B) × (batch_elements v8 leveldb items f ≡ some f')
          × Adds f (updates_of v8 items) f'
    unfolding batch_elements
    batch_elements-Adds nil f = (f, refl, skipped f)
    batch_elements-Adds (cons obj rest) f =
        let (g, e, a) = batch_element-Adds obj f in
        let (h, e', b) = batch_elements-Adds rest g in
        (
          h,
          rw (e, ◌>>=◌, e') refl,
          Adds-both (element_updates v8 obj) (updates_of v8 rest) f g h a b,
        )
