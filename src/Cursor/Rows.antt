-- ===== src/Cursor/Rows.antt =====
-- The entries that a cursor has still to pass, in the direction of travel.
use leveldown.Base.{
  Bool, true, false, ◌≡◌, refl, List, [], ◌∷◌, arith, if◌then◌else◌, drop_while, All, rev_append,
  Bool-cases, inl, inr,
}
use leveldown.Bytes.{Bytes, cmp, is_lt}
use leveldown.Cursor.{Entry, Position, nowhere, on, ahead, behind, at_or_past, last_of}

-- `rows true` is for travel towards smaller keys.
abbrev pub rows : Bool → Position → List Entry
rows reverse nowhere = []
rows reverse (on before e after) = e ∷ (if reverse then before else after)

pub rows-ahead : (before after : List Entry) → rows false (ahead before after) ≡ after
rows-ahead before [] = refl
rows-ahead before (e ∷ after) = refl

pub rows-behind : (before after : List Entry) → rows true (behind before after) ≡ before
rows-behind [] after = refl
rows-behind (e ∷ before) after = refl

pub rows-last_of :
    (before after : List Entry) → rows true (last_of before after) ≡ rev_append after before
rows-last_of before [] = rows-behind before []
rows-last_of before (e ∷ after) = rows-last_of (e ∷ before) after

-- Forwards, a seek leaves the entries that are not below the target.
pub rows-at_or_past :
    (target : Bytes) (before after : List Entry)
    → rows false (at_or_past target before after) ≡ drop_while (λ e. is_lt (cmp e.key target)) after
rows-at_or_past target before [] = refl
rows-at_or_past target before (e ∷ after) =
    ground (arith, rows-at_or_past target (e ∷ before) after)

-- A seek that finds no entry has only smaller ones behind it; one that finds an entry stands on one
-- that is not smaller, with all the smaller ones behind it.
abbrev pub Sought : Bytes → List Entry → Position → Type 0
Sought target all nowhere = All (λ e. is_lt (cmp e.key target) ≡ true) all
Sought target all (on skipped e rest) =
    (is_lt (cmp e.key target) ≡ false)
    × All (λ x. is_lt (cmp x.key target) ≡ true) skipped
    × (all ≡ rev_append skipped (e ∷ rest))

pub All-rev_append :
    (P : Entry → Type 0) (xs ys : List Entry) → All P xs → All P ys → All P (rev_append xs ys)
All-rev_append P [] ys h k = k
All-rev_append P (x ∷ xs) ys h k = All-rev_append P xs (x ∷ ys) h.1 (h.0, k)

at_or_past-Sought_from :
    (target : Bytes) (before after : List Entry)
    → All (λ x. is_lt (cmp x.key target) ≡ true) before
    → Sought target (rev_append before after) (at_or_past target before after)
at_or_past-Sought_from target before [] h =
    All-rev_append (λ x. is_lt (cmp x.key target) ≡ true) before [] h tt
at_or_past-Sought_from target before (e ∷ after) h = elim (Bool-cases (is_lt (cmp e.key target))) [
  | inl small ↦ rw small (at_or_past-Sought_from target (e ∷ before) after (small, h))
  | inr large ↦ rw large (large, h, refl)
]

pub at_or_past-Sought :
    (target : Bytes) (all : List Entry) → Sought target all (at_or_past target [] all)
at_or_past-Sought target all = at_or_past-Sought_from target [] all tt
