-- ===== src/Base/Lists.antt =====
-- Lists measured by native numbers and filtered by Boolean tests.
use Prim.Native.Nat.{ℕ, zero, suc, ◌+◌, ◌≤◌}
use mathlib.Core.Path.{◌≡◌, refl}
use mathlib.Core.Bool.{Bool, true, false, ◌&&◌}
use mathlib.Core.List.{List, [], ◌∷◌, ◌++◌, append-nil}
use native.Mathlib.Omega.{arith}
use leveldown.Base.Tests.{if◌then◌else◌}

module _ {ℓ} {A : Type ℓ} where
  abbrev pub length : List A → ℕ
  length [] = 0
  length (x ∷ xs) = suc (length xs)

  abbrev pub take : ℕ → List A → List A
  take zero xs = []
  take (suc n) [] = []
  take (suc n) (x ∷ xs) = x ∷ take n xs

  abbrev pub drop : ℕ → List A → List A
  drop zero xs = xs
  drop (suc n) [] = []
  drop (suc n) (x ∷ xs) = drop n xs

  abbrev pub tail : List A → List A
  tail [] = []
  tail (x ∷ xs) = xs

  -- The elements that pass a test.
  abbrev pub filter : (A → Bool) → List A → List A
  filter p [] = []
  filter p (x ∷ xs) = if p x then x ∷ filter p xs else filter p xs

  -- The longest prefix of elements that pass a test.
  abbrev pub take_while : (A → Bool) → List A → List A
  take_while p [] = []
  take_while p (x ∷ xs) = if p x then x ∷ take_while p xs else []

  -- What follows the longest prefix of elements that pass a test.
  abbrev pub drop_while : (A → Bool) → List A → List A
  drop_while p [] = []
  drop_while p (x ∷ xs) = if p x then drop_while p xs else x ∷ xs

  -- `rev_append xs ys` is the reversal of `xs` followed by `ys`.
  abbrev pub rev_append : List A → List A → List A
  rev_append [] ys = ys
  rev_append (x ∷ xs) ys = rev_append xs (x ∷ ys)

  -- A predicate that holds of every element.
  abbrev pub All {κ} : (A → Type κ) → List A → Type κ
  All P [] = Unit
  All P (x ∷ xs) = P x × All P xs

module _ {ℓ} {A : Type ℓ} where
  pub length-append : (xs ys : List A) → length (xs ++ ys) ≡ length xs + length ys
  length-append [] ys = omega arith
  length-append (x ∷ xs) ys = omega (arith, length-append xs ys)

  pub length-filter : (p : A → Bool) (xs : List A) → length (filter p xs) ≤ length xs
  length-filter p [] = omega arith
  length-filter p (x ∷ xs) = ground (arith, length-filter p xs)

  pub filter-none : (p : A → Bool) (xs : List A) → All (λ x. p x ≡ false) xs → filter p xs ≡ []
  filter-none p [] h = refl
  filter-none p (x ∷ xs) h = ground (arith, filter-none p xs h.1)

  pub filter-All : (p : A → Bool) (xs : List A) → All (λ x. p x ≡ true) xs → filter p xs ≡ xs
  filter-All p [] h = refl
  filter-All p (x ∷ xs) h = ground (arith, filter-All p xs h.1)

  pub filter-filter :
      (p q : A → Bool) (xs : List A) → filter p (filter q xs) ≡ filter (λ x. q x && p x) xs
  filter-filter p q [] = refl
  filter-filter p q (x ∷ xs) = ground (arith, filter-filter p q xs)

  pub filter_cong :
      (p q : A → Bool) (xs : List A) → ((x : A) → p x ≡ q x) → filter p xs ≡ filter q xs
  filter_cong p q [] h = refl
  filter_cong p q (x ∷ xs) h = ground (arith, h x, filter_cong p q xs h)

  pub filter-rev_append :
      (p : A → Bool) (xs ys : List A)
      → filter p (rev_append xs ys) ≡ rev_append (filter p xs) (filter p ys)
  filter-rev_append p [] ys = refl
  filter-rev_append p (x ∷ xs) ys = ground (arith, filter-rev_append p xs (x ∷ ys))

  pub All-map {κ λ'} :
      {P : A → Type κ} {Q : A → Type λ'} (xs : List A) → ((x : A) → P x → Q x) → All P xs → All Q xs
  All-map [] f h = tt
  All-map (x ∷ xs) f h = (f x h.0, All-map xs f h.1)

  pub All-filter {κ} :
      (P : A → Type κ) (p : A → Bool) (xs : List A) → All P xs → All P (filter p xs)
  All-filter P p [] h = tt
  All-filter P p (x ∷ xs) h = keep (p x) (All-filter P p xs h.1)
    where
      keep : (b : Bool) → All P (filter p xs) → All P (if b then x ∷ filter p xs else filter p xs)
      keep true rest = (h.0, rest)
      keep false rest = rest

module _ {ℓ} {A : Type ℓ} where
  pub rev_append-rev_append :
      (xs ys zs : List A) → rev_append (rev_append xs ys) zs ≡ rev_append ys (xs ++ zs)
  rev_append-rev_append [] ys zs = refl
  rev_append-rev_append (x ∷ xs) ys zs = rev_append-rev_append xs (x ∷ ys) zs

  pub take_while_cong :
      (p q : A → Bool) (xs : List A) → All (λ x. p x ≡ q x) xs → take_while p xs ≡ take_while q xs
  take_while_cong p q [] h = refl
  take_while_cong p q (x ∷ xs) h = ground (arith, h.0, take_while_cong p q xs h.1)

  -- What a filter keeps passes its test.
  pub All-filter_self : (p : A → Bool) (xs : List A) → All (λ x. p x ≡ true) (filter p xs)
  All-filter_self p [] = tt
  All-filter_self p (x ∷ xs) = keep (p x) refl (All-filter_self p xs)
    where
      keep :
          (b : Bool)
          → p x ≡ b
          → All (λ x. p x ≡ true) (filter p xs)
          → All (λ x. p x ≡ true) (if b then x ∷ filter p xs else filter p xs)
      keep true e rest = (e, rest)
      keep false e rest = rest

  -- A filter over a list that is split round an element.
  pub filter-split :
      (p : A → Bool) (before after : List A) (x : A)
      → All (λ y. p y ≡ true) before
      → All (λ y. p y ≡ false) after
      → filter p (rev_append (rev_append before (x ∷ after)) [])
        ≡ (if p x then x ∷ before else before)
  filter-split p before after x h k =
      rw (rev_append-rev_append before (x ∷ after) [], append-nil before)
        (rw (filter-rev_append p after (x ∷ before), filter-none p after k, filter-All p before h)
          refl)

  -- The same without the reversal, for a test that fails before the element and holds after it.
  pub filter-rev_append_split :
      (p : A → Bool) (before after : List A) (x : A)
      → All (λ y. p y ≡ false) before
      → All (λ y. p y ≡ true) after
      → filter p (rev_append before (x ∷ after)) ≡ (if p x then x ∷ after else after)
  filter-rev_append_split p before after x h k =
      rw (filter-rev_append p before (x ∷ after), filter-none p before h, filter-All p after k) refl

  pub All-every {κ} : (P : A → Type κ) (xs : List A) → ((x : A) → P x) → All P xs
  All-every P [] h = tt
  All-every P (x ∷ xs) h = (h x, All-every P xs h)

  pub length-rev_append : (xs ys : List A) → length (rev_append xs ys) ≡ length xs + length ys
  length-rev_append [] ys = omega arith
  length-rev_append (x ∷ xs) ys = omega (arith, length-rev_append xs (x ∷ ys))

  pub rev_append-append :
      (xs ys zs : List A) → rev_append (xs ++ ys) zs ≡ rev_append ys (rev_append xs zs)
  rev_append-append [] ys zs = refl
  rev_append-append (x ∷ xs) ys zs = rev_append-append xs ys (x ∷ zs)

  pub All-append {κ} : (P : A → Type κ) (xs ys : List A) → All P xs → All P ys → All P (xs ++ ys)
  All-append P [] ys h k = k
  All-append P (x ∷ xs) ys h k = (h.0, All-append P xs ys h.1 k)
