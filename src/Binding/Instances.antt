-- ===== src/Binding/Instances.antt =====
-- How `Database::Batch` and `Database::Iterator` make objects: the arguments that a `NewInstance` gives,
-- and what the `New` of the class makes of them (src/batch.cc, src/iterator.cc).
use leveldown.Base.{
  ℕ, ◌-◌, ◌%◌, ◌^◌, ◌<◌, ◌≡◌, refl, ℤ, pos, negsuc, false, ◌&&◌, Option, none, some, List, [], ◌∷◌,
  if◌then◌else◌, arith, ltb, length, Bool-cases, inl, inr, ap, ◌∙◌,
}
use leveldown.Value.{JsValue, undefined, number, V8, is_object}
use leveldown.Iterator.{IteratorOptions}
use leveldown.Iterator.New.{new_options, to_int}
use leveldown.Store.LevelDb.{LevelDb}
use leveldown.Store.Calls.{argument, object_option}
use leveldown.Store.Batches.{Batch, new_batch}

-- `Batch::NewInstance`; the options are left out if they are empty.
unfoldable pub batch_instance : JsValue → Option JsValue → List JsValue
batch_instance database none = database ∷ []
batch_instance database (some options) = database ∷ options ∷ []

-- `Batch::New`.
unfoldable pub batch_new : {D B : Type 0} → V8 → LevelDb D B → List JsValue → Batch B
batch_new v8 leveldb args =
    let options : Option JsValue =
      if ltb 1 (length args) && is_object (argument args 1) then some (argument args 1) else none in
    new_batch v8 leveldb options

-- `Int32Value` of a number, and its cast to `uint32_t`.
unfoldable pub to_uint32 : ℤ → ℕ
to_uint32 (pos n) = n % 2 ^ 32
to_uint32 (negsuc n) = 2 ^ 32 - 1 - n % 2 ^ 32

-- `Iterator::NewInstance`.
unfoldable pub iterator_instance : JsValue → ℕ → Option JsValue → List JsValue
iterator_instance database id none = database ∷ number (pos id) ∷ []
iterator_instance database id (some options) = database ∷ number (pos id) ∷ options ∷ []

-- `Iterator::New`: the id and the options of the constructor.
unfoldable pub iterator_new : V8 → List JsValue → ℕ × IteratorOptions
unfolding to_uint32
iterator_new v8 args = (
  to_uint32 (elim (argument args 1) [ number n ↦ to_int n | other ↦ pos 0 ]),
  if ltb 1 (length args) then new_options v8 (argument args 2) else new_options v8 undefined,
)

-- A batch object is made with the options that its database was given, if they are an object.
batch_new-batch_instance :
    {D B : Type 0} (v8 : V8) (leveldb : LevelDb D B) (database v : JsValue)
    → batch_new v8 leveldb (batch_instance database (object_option v))
      ≡ new_batch v8 leveldb (object_option v)
unfolding batch_new batch_instance
batch_new-batch_instance v8 leveldb database v = elim (Bool-cases (is_object v)) [
  | inl e ↦ rw e (rw (batch_new, batch_instance, e) refl)
  | inr e ↦ rw e refl
]

-- A number of 32 bits comes through `Int32Value` and its cast.
to_uint32-to_int : (n : ℕ) → n < 2 ^ 32 → to_uint32 (to_int (pos n)) ≡ n
unfolding to_uint32 to_int
to_uint32-to_int n h = elim (Bool-cases (ltb (n % 2 ^ 32) (2 ^ 31))) [
  | inl e ↦ rw (to_int, e) (omega arith)
  | inr e ↦ rw (to_int, e) (omega arith)
]

no_options :
    (v8 : V8) (v : JsValue) → is_object v ≡ false → new_options v8 undefined ≡ new_options v8 v
unfolding new_options is_object
no_options v8 v e = rw (new_options, e) refl

-- An iterator is made with the id that its database counted, if that has 32 bits, and with the options
-- of the value that `iterator` was called with.
iterator_new-iterator_instance :
    (v8 : V8) (database v : JsValue) (id : ℕ)
    → id < 2 ^ 32
    → iterator_new v8 (iterator_instance database id (object_option v)) ≡ (id, new_options v8 v)
unfolding iterator_new iterator_instance
iterator_new-iterator_instance v8 database v id h = elim (Bool-cases (is_object v)) [
  | inl e ↦ rw e (ap (λ n. (n, new_options v8 v)) (to_uint32-to_int id h))
  | inr e ↦ rw e (
      ap (λ n. (n, new_options v8 undefined)) (to_uint32-to_int id h)
      ∙ ap (λ o. (id, o)) (no_options v8 v e))
]
