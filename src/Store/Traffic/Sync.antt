-- ===== src/Store/Traffic/Sync.antt =====
-- The synchronous methods and the calls on batches give back the blocks that they took.
use leveldown.Base.{
  ℕ, ◌≡◌, refl, Bool, true, false, not, Option, none, some, List, Option-cases, Bool-cases, inl,
  inr, ◌&&◌,
}
use leveldown.Value.{JsValue, V8, is_object, Elements, nil, cons, is_array}
use leveldown.Value.Memory.{Heap, string_or_buffer_to_slice, dispose_string_or_buffer_from_slice}
use leveldown.Value.Ownership.{Holds, convert-Holds, dispose-Holds}
use leveldown.Store.LevelDb.{LevelDb}
use leveldown.Store.Calls.{State, argument, ◌>>=◌, setup_common}
use leveldown.Store.Writes.{put_sync, get_sync, delete_sync}
use leveldown.Store.Batches.{
  Batch, Filling, strict_equals, del_text, put_text, field_of, batch_delete, batch_put,
  batch_element, batch_elements, batch_sync, write_filled, elements_of, few_arguments,
}
use leveldown.Store.Batches as Batches
use leveldown.Store.Chained.{ChainedCall, put_call, del_call, clear_call, chained_call}
use leveldown.Store.Traffic.{
  SyncMethod, put_sync_call, get_sync_call, delete_sync_call, batch_sync_call, sync_call,
}
use leveldown.Store.Traffic.Heaps.{disposed_in_order}

-- What is under a result, if there is one.
abbrev pub Leaves {ℓ} : {A : Type ℓ} → (A → Heap) → List ℕ → Option A → Type 0
Leaves heap mine none = Unit
Leaves heap mine (some r) = Holds mine (heap r)

module _ {D B : Type 0} (v8 : V8) (leveldb : LevelDb D B) (mine : List ℕ) where
  disposed_only :
      (k : JsValue) (h : Heap)
      → Holds mine h
      → let (key, taken) = string_or_buffer_to_slice v8 k h in
        (h' : Heap) × (dispose_string_or_buffer_from_slice k key taken ≡ some h') × Holds mine h'
  disposed_only k h s =
      let (key, taken) = string_or_buffer_to_slice v8 k h in
      let (c, held) = convert-Holds v8 k mine h s in dispose-Holds k key mine taken c held

  put_sync-Leaves :
      (args : List JsValue) (s : State D)
      → Holds mine s.heap
      → Leaves (λ r. r.1.heap) mine (put_sync v8 leveldb args s)
  unfolding put_sync
  put_sync-Leaves args s g = elim (Option-cases s.db) [
    | inl e ↦ rw (put_sync, e) tt
    | inr (d, e) ↦
        let (h₁, h₂, a, b, held) =
          disposed_in_order v8 (argument args 0) (argument args 1) mine s.heap g in
        rw (put_sync, e, a, ◌>>=◌, b) held
  ]

  get_sync-Leaves :
      (args : List JsValue) (s : State D)
      → Holds mine s.heap
      → Leaves (λ r. r.1.heap) mine (get_sync v8 leveldb args s)
  unfolding get_sync
  get_sync-Leaves args s g = elim (Option-cases s.db) [
    | inl e ↦ rw (get_sync, e) tt
    | inr (d, e) ↦
        let (h, a, held) = disposed_only (argument args 0) s.heap g in rw (get_sync, e, a) held
  ]

  delete_sync-Leaves :
      (args : List JsValue) (s : State D)
      → Holds mine s.heap
      → Leaves (λ r. r.1.heap) mine (delete_sync v8 leveldb args s)
  unfolding delete_sync
  delete_sync-Leaves args s g = elim (Option-cases s.db) [
    | inl e ↦ rw (delete_sync, e) tt
    | inr (d, e) ↦
        let (h, a, held) = disposed_only (argument args 0) s.heap g in rw (delete_sync, e, a) held
  ]

  batch_delete_runs :
      (k : JsValue) (f : Filling B)
      → Holds mine f.heap
      → (f' : Filling B) × (batch_delete v8 leveldb k f ≡ some f') × Holds mine f'.heap
  unfolding batch_delete
  batch_delete_runs k f g =
      let (h, a, held) = disposed_only k f.heap g in
      let key = (string_or_buffer_to_slice v8 k f.heap).0 in
      (
        record { batch = leveldb.batch_delete key.bytes f.batch; has_data = true; heap = h },
        rw (batch_delete, a, ◌>>=◌) refl,
        held,
      )

  batch_put_runs :
      (k v : JsValue) (f : Filling B)
      → Holds mine f.heap
      → (f' : Filling B) × (batch_put v8 leveldb k v f ≡ some f') × Holds mine f'.heap
  unfolding batch_put
  batch_put_runs k v f g =
      let (h₁, h₂, a, b, held) = disposed_in_order v8 k v mine f.heap g in
      let (key, taken) = string_or_buffer_to_slice v8 k f.heap in
      let value = (string_or_buffer_to_slice v8 v taken).0 in
      (
        record {
          batch = leveldb.batch_put key.bytes value.bytes f.batch;
          has_data = true;
          heap = h₂;
        },
        rw (batch_put, a, ◌>>=◌, b) refl,
        held,
      )

  batch_element_runs :
      (obj : JsValue) (f : Filling B)
      → Holds mine f.heap
      → (f' : Filling B) × (batch_element v8 leveldb obj f ≡ some f') × Holds mine f'.heap
  unfolding batch_element
  batch_element_runs obj f g = elim (Bool-cases (is_object obj)) [
    | inr other ↦ rw (batch_element, other) (f, refl, g)
    | inl is ↦ elim (Bool-cases (strict_equals (field_of obj "type") del_text)) [
      | inl is_del ↦ rw (batch_element, is, is_del) (batch_delete_runs (field_of obj "key") f g)
      | inr not_del ↦ elim (Bool-cases (strict_equals (field_of obj "type") put_text)) [
        | inl is_put ↦
            rw (batch_element, is, not_del, is_put)
              (batch_put_runs (field_of obj "key") (field_of obj "value") f g)
        | inr not_put ↦ rw (batch_element, is, not_del, not_put) (f, refl, g)
      ]
    ]
  ]

  pub batch_elements_runs :
      (items : Elements) (f : Filling B)
      → Holds mine f.heap
      → (f' : Filling B) × (batch_elements v8 leveldb items f ≡ some f') × Holds mine f'.heap
  unfolding batch_elements
  batch_elements_runs nil f g = (f, refl, g)
  batch_elements_runs (cons obj rest) f g =
      let (f₁, e, g₁) = batch_element_runs obj f g in
      let (f₂, e', g₂) = batch_elements_runs rest f₁ g₁ in (f₂, rw (e, ◌>>=◌, e') refl, g₂)

  write_filled-Leaves :
      (sync : Bool) (f : Filling B) (s : State D)
      → Holds mine f.heap
      → Leaves (λ r. r.1.heap) mine (write_filled v8 leveldb sync f s)
  unfolding write_filled
  write_filled-Leaves sync f s g = elim (Bool-cases f.has_data) [
    | inr empty ↦ rw (write_filled, empty) g
    | inl full ↦ elim (Option-cases s.db) [
      | inl e ↦ rw (write_filled, full, e) tt
      | inr (d, e) ↦ rw (write_filled, full, e) g
    ]
  ]

  batch_sync-Leaves :
      (args : List JsValue) (s : State D)
      → Holds mine s.heap
      → Leaves (λ r. r.1.heap) mine (batch_sync v8 leveldb args s)
  unfolding batch_sync
  batch_sync-Leaves args s g = elim (Option-cases (elements_of (argument args 0))) [
    | inl e ↦ rw (batch_sync, e) tt
    | inr (items, e) ↦
        let (f, runs, held) =
          batch_elements_runs items
            (record { batch = leveldb.new_batch; has_data = false; heap = s.heap }) g in
        rw (batch_sync, e, ◌>>=◌, runs) (write_filled-Leaves _ f s held)
  ]

  -- Each synchronous method gives back what it took.
  pub sync_call-Leaves :
      (m : SyncMethod) (args : List JsValue) (s : State D)
      → Holds mine s.heap
      → Leaves (λ r. r.1.heap) mine (sync_call v8 leveldb m args s)
  sync_call-Leaves put_sync_call args s g = put_sync-Leaves args s g
  sync_call-Leaves get_sync_call args s g = get_sync-Leaves args s g
  sync_call-Leaves delete_sync_call args s g = delete_sync-Leaves args s g
  sync_call-Leaves batch_sync_call args s g = batch_sync-Leaves args s g

  pub chained_call-Leaves :
      (c : ChainedCall) (b : Batch B) (h : Heap)
      → Holds mine h
      → Leaves (λ r. r.1) mine (chained_call v8 leveldb c (b, h))
  unfolding chained_call Batches.put Batches.del
  chained_call-Leaves (put_call args) b h g =
      let (f, runs, held) =
        batch_put_runs (argument args 0) (argument args 1)
          (record { batch = b.batch; has_data = b.has_data; heap = h }) g in
      rw (chained_call, Batches.put, runs) held
  chained_call-Leaves (del_call args) b h g =
      let (f, runs, held) =
        batch_delete_runs (argument args 0)
          (record { batch = b.batch; has_data = b.has_data; heap = h }) g in
      rw (chained_call, Batches.del, runs) held
  chained_call-Leaves clear_call b h g = g

  -- `Database::Batch` too, whatever it leads to.
  pub batch-Leaves :
      (args : List JsValue) (h : Heap)
      → Holds mine h
      → Leaves (λ r. r.1) mine (Batches.batch v8 leveldb args h)
  unfolding Batches.batch
  batch-Leaves args h g =
      elim (Bool-cases (few_arguments args && not (is_array (argument args 0)))) [
        | inl few ↦ rw (Batches.batch, few) g
        | inr more ↦ elim (Option-cases (setup_common (some 1) 2 args)) [
          | inl e ↦ rw (Batches.batch, more, e) g
          | inr (options, e) ↦ elim (Option-cases (elements_of (argument args 0))) [
            | inl n ↦ rw (Batches.batch, more, e, n) tt
            | inr (items, n) ↦
                let (f, runs, held) =
                  batch_elements_runs items
                    (record { batch = leveldb.new_batch; has_data = false; heap = h }) g in
                rw (Batches.batch, more, e, n, ◌>>=◌, runs) held
          ]
        ]
      ]
