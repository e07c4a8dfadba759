-- ===== src/Natives/Objects.antt =====
-- Objects from `new`, and what `delete` does. An object may need others as long as it lives.
use leveldown.Base.{
  ℕ, ◌+◌, ◌<◌, ◌≤◌, ◌≡◌, refl, Bool, false, ◌||◌, ◌==◌, Option, none, some, List, [], ◌∷◌, ◌++◌,
  All, arith, if◌then◌else◌,
}

pub record Object : Type 0 where
  pub number : ℕ
  pub needs : List ℕ

-- The objects that live, newest first; `next` numbers the next one.
pub record Natives : Type 0 where
  pub live : List Object
  pub next : ℕ

unfoldable pub make : List ℕ → Natives → ℕ × Natives
make needs h = (
  h.next,
  record { live = record { number = h.next; needs = needs } ∷ h.live; next = h.next + 1 },
)

abbrev pub among : ℕ → List ℕ → Bool
among n [] = false
among n (m ∷ ms) = (m == n) || among n ms

abbrev pub needed : ℕ → List Object → Bool
needed n [] = false
needed n (o ∷ os) = among n o.needs || needed n os

abbrev pub without : ℕ → List Object → Option (List Object)
without n [] = none
without n (o ∷ os) =
    let others = without n os in
    if o.number == n then some os else elim others [ none ↦ none | some r ↦ some (o ∷ r) ]

-- `delete`: a fault at an object that does not live, or that one that lives needs; nothing at a null
-- pointer.
unfoldable pub delete : Option ℕ → Natives → Option Natives
delete none h = some h
delete (some n) h = elim (without n h.live) [
  | none ↦ none
  | some rest ↦ if needed n rest then none else some (record h { live = rest })
]

-- Objects that are younger than `k` and need nothing.
abbrev pub Loose : ℕ → List Object → Type 0
Loose k = All (λ (o : Object). (k < o.number) × (o.needs ≡ []))

-- Objects that need only what is older than `k`.
abbrev pub Settled : ℕ → List Object → Type 0
Settled k = All (λ (o : Object). All (λ (m : ℕ). m < k) o.needs)

among-older : (k n : ℕ) (ms : List ℕ) → k ≤ n → All (λ (m : ℕ). m < k) ms → among n ms ≡ false
among-older k n [] l a = refl
among-older k n (m ∷ ms) l a = ground (arith, a.0, among-older k n ms l a.1)

pub needed-Settled : (k n : ℕ) (os : List Object) → k ≤ n → Settled k os → needed n os ≡ false
needed-Settled k n [] l a = refl
needed-Settled k n (o ∷ os) l a =
    ground (arith, among-older k n o.needs l a.0, needed-Settled k n os l a.1)

pub needed-Loose :
    (k n : ℕ) (os rest : List Object)
    → Loose k os
    → needed n rest ≡ false
    → needed n (os ++ rest) ≡ false
needed-Loose k n [] rest a e = e
needed-Loose k n (o ∷ os) rest a e = rw (a.0.1) (needed-Loose k n os rest a.1 e)

-- The object under loose ones is found.
pub without-Loose :
    (k : ℕ) (os : List Object) (o : Object) (rest : List Object)
    → Loose k os
    → o.number ≡ k
    → without k (os ++ o ∷ rest) ≡ some (os ++ rest)
without-Loose k [] o rest a e = ground arith
without-Loose k (x ∷ os) o rest a e = ground (arith, without-Loose k os o rest a.1 e, a.0.0)

pub delete-first :
    (o : Object) (rest : List Object) (next n : ℕ)
    → o.number ≡ n
    → needed n rest ≡ false
    → delete (some n) (record { live = o ∷ rest; next = next })
      ≡ some (record { live = rest; next = next })
unfolding delete
delete-first o rest next n e f = ground arith

pub delete-under :
    (k : ℕ) (os : List Object) (o : Object) (rest : List Object) (next : ℕ)
    → Loose k os
    → o.number ≡ k
    → needed k rest ≡ false
    → delete (some k) (record { live = os ++ o ∷ rest; next = next })
      ≡ some (record { live = os ++ rest; next = next })
unfolding delete
delete-under k os o rest next a e f =
    rw (delete, without-Loose k os o rest a e, needed-Loose k k os rest a f) refl
