-- ===== src/Base/Arrays.antt =====
-- Lists as arrays: indexed by native numbers, written in place.
use Prim.Native.Nat.{ℕ, zero, suc}
use mathlib.Core.Path.{◌≡◌, refl, ap, sym, subst}
use mathlib.Core.Option.{Option, none, some}
use mathlib.Core.List.{List, [], ◌∷◌, ◌++◌}
use leveldown.Base.Lists.{length, All}

pub some_inj {ℓ} : {A : Type ℓ} {a b : A} → some a ≡ some b → a ≡ b
some_inj e = cc

module _ {ℓ} {A : Type ℓ} where
  -- A write out of bounds changes nothing.
  abbrev pub set : List A → ℕ → A → List A
  set [] i v = []
  set (x ∷ xs) zero v = v ∷ xs
  set (x ∷ xs) (suc i) v = x ∷ set xs i v

  abbrev pub replicate : ℕ → A → List A
  replicate zero a = []
  replicate (suc n) a = a ∷ replicate n a

  pub length-replicate : (n : ℕ) (a : A) → length (replicate n a) ≡ n
  length-replicate zero a = refl
  length-replicate (suc n) a = ap suc (length-replicate n a)

  pub replicate-suc :
      (n : ℕ) (a : A) (xs : List A) → replicate (suc n) a ++ xs ≡ replicate n a ++ a ∷ xs
  replicate-suc zero a xs = refl
  replicate-suc (suc n) a xs = ap (◌∷◌ a) (replicate-suc n a xs)

  -- A write just behind a prefix.
  pub set-append :
      (xs ys : List A) (i : ℕ) (y v : A) → i ≡ length xs → set (xs ++ y ∷ ys) i v ≡ xs ++ v ∷ ys
  set-append [] ys i y v e = rw e refl
  set-append (x ∷ xs) ys i y v e = rw e (ap (◌∷◌ x) (set-append xs ys (length xs) y v refl))

  abbrev pub get_elem? : List A → ℕ → Option A
  get_elem? [] i = none
  get_elem? (x ∷ xs) zero = some x
  get_elem? (x ∷ xs) (suc i) = get_elem? xs i

  -- A change of one element; out of bounds there is none.
  abbrev pub modify : ℕ → (A → A) → List A → List A
  modify i f [] = []
  modify zero f (x ∷ xs) = f x ∷ xs
  modify (suc i) f (x ∷ xs) = x ∷ modify i f xs

  pub All-get {κ} :
      (P : A → Type κ) (xs : List A) (i : ℕ) (x : A) → All P xs → get_elem? xs i ≡ some x → P x
  All-get P [] i x h e = cc
  All-get P (y ∷ xs) zero x h e = subst P (some_inj e) h.0
  All-get P (y ∷ xs) (suc i) x h e = All-get P xs i x h.1 e

  pub All-modify {κ} :
      (P : A → Type κ) (f : A → A) (xs : List A) (i : ℕ) (x : A)
      → All P xs
      → get_elem? xs i ≡ some x
      → P (f x)
      → All P (modify i f xs)
  All-modify P f [] i x h e p = tt
  All-modify P f (y ∷ xs) zero x h e p = (subst (λ z. P (f z)) (sym (some_inj e)) p, h.1)
  All-modify P f (y ∷ xs) (suc i) x h e p = (h.0, All-modify P f xs i x h.1 e p)

  pub get_elem?-modify :
      (f : A → A) (xs : List A) (i : ℕ) (x : A)
      → get_elem? xs i ≡ some x
      → get_elem? (modify i f xs) i ≡ some (f x)
  get_elem?-modify f [] i x e = cc
  get_elem?-modify f (y ∷ xs) zero x e = ap (λ z. some (f z)) (some_inj e)
  get_elem?-modify f (y ∷ xs) (suc i) x e = get_elem?-modify f xs i x e
