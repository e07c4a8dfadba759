-- ===== src/Value/Ownership.antt =====
-- Who owns which block: a slice whose disposal frees a block owns it from its conversion on.
use leveldown.Base.{
  ℕ, ◌+◌, ◌≤◌, ◌≡◌, refl, true, not, ◌&&◌, some, List, [], ◌∷◌, ◌++◌, count, arith, ◌==◌,
  if◌then◌else◌, Bool-cases, inr, inl,
}
use leveldown.Value.Defs.{JsValue, V8, is_buffer}
use leveldown.Value.Memory.{
  Heap, Slice, Storage, nowhere, node_owned, block, empty, delete_array, string_or_buffer_to_slice,
  dispose_string_or_buffer_from_slice, remove,
}

-- The block that the disposal of a slice frees.
abbrev pub owned : JsValue → Slice → List ℕ
owned handle slice =
    if not (empty slice) && not (is_buffer handle)
    then elim slice.storage [ block b ↦ b ∷ [] | _ ↦ [] ]
    else []

-- Only the slice of a buffer points to memory that Node owns.
abbrev pub IsConverted : JsValue → Slice → Type 0
IsConverted handle slice = slice.storage ≡ node_owned → is_buffer handle ≡ true

-- No block is live twice, none is live that was not yet handed out, and all that are owned are live.
pub record Holds (mine : List ℕ) (h : Heap) : Type 0 where
  pub enough : (b : ℕ) → count b mine ≤ count b h.live
  pub once : (b : ℕ) → count b h.live ≤ 1
  pub fresh : (b : ℕ) → h.next ≤ b → count b h.live ≡ 0

pub Holds-cong :
    (xs ys : List ℕ) (h : Heap) → ((b : ℕ) → count b xs ≡ count b ys) → Holds xs h → Holds ys h
Holds-cong xs ys h e s = record {
  enough = λ b. omega (arith, e b, s.enough b);
  once = s.once;
  fresh = s.fresh;
}

pub convert-Holds :
    (v8 : V8) (v : JsValue) (mine : List ℕ) (h : Heap)
    → Holds mine h
    → let (slice, h') = string_or_buffer_to_slice v8 v h in
      IsConverted v slice × Holds (owned v slice ++ mine) h'
unfolding string_or_buffer_to_slice
convert-Holds v8 v mine h s = (
  ground arith,
  record {
    enough = λ b. ground (arith, s.enough b, s.fresh b);
    once = λ b. ground (arith, s.once b, s.fresh b);
    fresh = λ b l. ground (arith, s.fresh b);
  },
)

pub remove_found :
    (b : ℕ) (live : List ℕ)
    → 1 ≤ count b live
    → (rest : List ℕ) × (remove b live ≡ some rest)
      × ((x : ℕ) → count x live ≡ count x (b ∷ []) + count x rest)
unfolding remove
remove_found b [] h = absurd (omega arith)
remove_found b (c ∷ live) h = elim (Bool-cases (b == c)) [
  | inl e ↦ (live, rw (remove, e) refl, λ x. ground (arith, e))
  | inr e ↦
      let (rest, found, counts) = remove_found b live (ground arith) in
      (c ∷ rest, rw (remove, e, found) refl, λ x. ground (arith, counts x))
]

pub dispose-Holds :
    (handle : JsValue) (slice : Slice) (mine : List ℕ) (h : Heap)
    → IsConverted handle slice
    → Holds (owned handle slice ++ mine) h
    → (h' : Heap) × (dispose_string_or_buffer_from_slice handle slice h ≡ some h') × Holds mine h'
unfolding dispose_string_or_buffer_from_slice delete_array
dispose-Holds handle slice mine h c s =
    elim (Bool-cases (not (empty slice) && not (is_buffer handle))) [
      | inr kept ↦ (h, rw (dispose_string_or_buffer_from_slice, kept) refl, rw kept at s)
      | inl freed ↦ freed_case slice.storage refl freed
    ]
  where
    freed_case :
        (st : Storage)
        → slice.storage ≡ st
        → (not (empty slice) && not (is_buffer handle)) ≡ true
        → (h' : Heap) × (dispose_string_or_buffer_from_slice handle slice h ≡ some h')
          × Holds mine h'
    freed_case nowhere e f =
        (h, rw (dispose_string_or_buffer_from_slice, f, e) refl, rw (f, e) at s)
    freed_case node_owned e f = absurd (ground (arith, c e))
    freed_case (block b) e f =
        let s' : Holds (b ∷ mine) h = rw (f, e) at s in
        let (rest, found, counts) = remove_found b h.live (ground (arith, s'.enough b)) in
        (
          record h { live = rest },
          rw (dispose_string_or_buffer_from_slice, f, e, delete_array, found) refl,
          record {
            enough = λ x. ground (arith, s'.enough x, counts x);
            once = λ x. omega (arith, s'.once x, counts x);
            fresh = λ x l. omega (arith, s'.fresh x l, counts x);
          },
        )
