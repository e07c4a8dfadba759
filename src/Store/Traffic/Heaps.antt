-- ===== src/Store/Traffic/Heaps.antt =====
-- What each method does to the heap: an asynchronous one leaves the blocks of its slices to its
-- worker, and any other gives back what it took.
use leveldown.Base.{ℕ, ◌≡◌, sym, subst, some, List, ◌++◌, count-append, arith, append_assoc}
use leveldown.Value.{JsValue, V8}
use leveldown.Value.Memory.{
  Heap, Slice, string_or_buffer_to_slice, dispose_string_or_buffer_from_slice,
}
use leveldown.Value.Ownership.{owned, IsConverted, Holds, Holds-cong, convert-Holds, dispose-Holds}

pub Holds-swap :
    (xs ys zs : List ℕ) (h : Heap) → Holds (xs ++ (ys ++ zs)) h → Holds (ys ++ (xs ++ zs)) h
Holds-swap xs ys zs h = Holds-cong (xs ++ (ys ++ zs)) (ys ++ (xs ++ zs)) h λ b. omega (
  arith,
  count-append b xs (ys ++ zs),
  count-append b ys zs,
  count-append b ys (xs ++ zs),
  count-append b xs zs,
)

-- Two values are converted.
pub convert_two-Holds :
    (v8 : V8) (k v : JsValue) (mine : List ℕ) (h : Heap)
    → Holds mine h
    → let (key, taken) = string_or_buffer_to_slice v8 k h in
      let (value, both) = string_or_buffer_to_slice v8 v taken in
      IsConverted k key × IsConverted v value × Holds (owned v value ++ (owned k key ++ mine)) both
convert_two-Holds v8 k v mine h s =
    let (key, taken) = string_or_buffer_to_slice v8 k h in
    let (ck, sk) = convert-Holds v8 k mine h s in
    let (cv, sv) = convert-Holds v8 v (owned k key ++ mine) taken sk in (ck, cv, sv)

-- Two slices are disposed of, in whichever order they are named.
pub dispose_two-Holds :
    (k v : JsValue) (key value : Slice) (mine : List ℕ) (h : Heap)
    → IsConverted k key
    → IsConverted v value
    → Holds (owned k key ++ (owned v value ++ mine)) h
    → (h₁ : Heap) × (h₂ : Heap) × (dispose_string_or_buffer_from_slice k key h ≡ some h₁)
      × (dispose_string_or_buffer_from_slice v value h₁ ≡ some h₂)
      × Holds mine h₂
dispose_two-Holds k v key value mine h ck cv s =
    let (h₁, e₁, s₁) = dispose-Holds k key (owned v value ++ mine) h ck s in
    let (h₂, e₂, s₂) = dispose-Holds v value mine h₁ cv s₁ in (h₁, h₂, e₁, e₂, s₂)

pub disposed_in_order :
    (v8 : V8) (k v : JsValue) (mine : List ℕ) (h : Heap)
    → Holds mine h
    → let (key, taken) = string_or_buffer_to_slice v8 k h in
      let (value, both) = string_or_buffer_to_slice v8 v taken in
      (h₁ : Heap) × (h₂ : Heap) × (dispose_string_or_buffer_from_slice k key both ≡ some h₁)
      × (dispose_string_or_buffer_from_slice v value h₁ ≡ some h₂)
      × Holds mine h₂
disposed_in_order v8 k v mine h s =
    let (key, taken) = string_or_buffer_to_slice v8 k h in
    let (value, both) = string_or_buffer_to_slice v8 v taken in
    let (ck, cv, both_held) = convert_two-Holds v8 k v mine h s in
    dispose_two-Holds k v key value mine both ck cv
      (Holds-swap (owned v value) (owned k key) mine both both_held)

pub Holds-both :
    (xs ys mine : List ℕ) (h : Heap) → Holds (xs ++ (ys ++ mine)) h → Holds ((xs ++ ys) ++ mine) h
Holds-both xs ys mine h s = subst (λ zs. Holds zs h) (sym (append_assoc xs ys mine)) s
