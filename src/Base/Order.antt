-- ===== src/Base/Order.antt =====
-- Lists ordered by a relation, and tests that a scan along such a list can stop at.
use mathlib.Core.Path.{◌≡◌, refl}
use mathlib.Core.Bool.{Bool, true, false}
use mathlib.Core.List.{List, [], ◌∷◌, ◌++◌}
use native.Mathlib.Omega.{arith}
use leveldown.Base.Tests.{if◌then◌else◌, Bool-cases}
use leveldown.Base.Lists.{
  All-append, All, All-map, All-filter, filter, filter-none, filter-All, take_while, drop_while,
  rev_append,
}
use mathlib.Core.Logic.{inl, inr}
use mathlib.Core.Bool.{not}

module _ {ℓ κ} {A : Type ℓ} (R : A → A → Type κ) where
  -- Each element is related to all that follow it.
  abbrev pub Sorted : List A → Type κ
  Sorted [] = Unit
  Sorted (x ∷ xs) = All (R x) xs × Sorted xs

  -- A test that stays false once it is false, going along the relation.
  abbrev pub Closes : (A → Bool) → Type (ℓ ⊔ κ)
  Closes p = (x y : A) → R x y → p x ≡ false → p y ≡ false

  -- A test that stays true once it is true.
  abbrev pub Opens : (A → Bool) → Type (ℓ ⊔ κ)
  Opens p = (x y : A) → R x y → p x ≡ true → p y ≡ true

module _ {ℓ κ} {A : Type ℓ} (R : A → A → Type κ) where
  -- On an ordered list, stopping at the first failure of a test that closes loses nothing.
  pub take_while-eq-filter :
      (p : A → Bool) (xs : List A) → Closes R p → Sorted R xs → take_while p xs ≡ filter p xs
  take_while-eq-filter p [] c s = refl
  take_while-eq-filter p (x ∷ xs) c s = elim (Bool-cases (p x)) [
    | inl e ↦ ground (arith, take_while-eq-filter p xs c s.1)
    | inr e ↦ ground (arith, filter-none p xs (All-map xs (λ y r. c x y r e) s.0))
  ]

  -- On an ordered list, starting at the first success of a test that opens loses nothing.
  pub drop_while-eq-filter :
      (p : A → Bool) (xs : List A)
      → Opens R p
      → Sorted R xs
      → drop_while (λ x. not (p x)) xs ≡ filter p xs
  drop_while-eq-filter p [] c s = refl
  drop_while-eq-filter p (x ∷ xs) c s = elim (Bool-cases (p x)) [
    | inl e ↦ ground (arith, filter-All p xs (All-map xs (λ y r. c x y r e) s.0))
    | inr e ↦ ground (arith, drop_while-eq-filter p xs c s.1)
  ]

  pub Sorted-filter : (p : A → Bool) (xs : List A) → Sorted R xs → Sorted R (filter p xs)
  Sorted-filter p [] s = tt
  Sorted-filter p (x ∷ xs) s = keep (p x) (Sorted-filter p xs s.1)
    where
      keep :
          (b : Bool)
          → Sorted R (filter p xs)
          → Sorted R (if b then x ∷ filter p xs else filter p xs)
      keep true rest = (All-filter (R x) p xs s.0, rest)
      keep false rest = rest

module _ {ℓ κ} {A : Type ℓ} (R : A → A → Type κ) where
  -- The reversal of an ordered list is ordered the other way.
  pub Sorted-rev_append :
      (xs ys : List A)
      → Sorted R xs
      → Sorted (λ x y. R y x) ys
      → All (λ y. All (λ x. R y x) xs) ys
      → Sorted (λ x y. R y x) (rev_append xs ys)
  Sorted-rev_append [] ys s t h = t
  Sorted-rev_append (x ∷ xs) ys s t h =
      Sorted-rev_append xs (x ∷ ys) s.1 (All-map ys (λ y a. a.0) h, t)
        (s.0, All-map ys (λ y a. a.1) h)

  pub Sorted-rev_append_right : (xs ys : List A) → Sorted R (rev_append xs ys) → Sorted R ys
  Sorted-rev_append_right [] ys s = s
  Sorted-rev_append_right (x ∷ xs) ys s = (Sorted-rev_append_right xs (x ∷ ys) s).1

  pub Sorted-append_last :
      (xs : List A) (y : A) → Sorted R xs → All (λ x. R x y) xs → Sorted R (xs ++ y ∷ [])
  Sorted-append_last [] y s h = (tt, tt)
  Sorted-append_last (x ∷ xs) y s h =
      (All-append (R x) xs (y ∷ []) s.0 (h.0, tt), Sorted-append_last xs y s.1 h.1)
