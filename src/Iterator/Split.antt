-- ===== src/Iterator/Split.antt =====
-- A list of entries in order, split at the position that a seek finds.
use Prim.Native.Nat.{Ordering}
use leveldown.Base.{
  Bool, true, false, ◌≡◌, refl, if◌then◌else◌, List, [], ◌∷◌, All, All-map, filter, filter-none,
  filter-All, filter-split, filter-rev_append, filter-rev_append_split, rev_append, Sorted,
  Sorted-rev_append_right,
}
use leveldown.Bytes.{Bytes, cmp, is_lt}
use leveldown.Bytes.Order.{gt_of_not_lt}
use leveldown.Cursor.{Entry, Position, nowhere, on}
use leveldown.Cursor.Rows.{Sought}
use leveldown.Iterator.Range.{Before}

-- The entries in the direction of travel.
abbrev pub in_order : Bool → List Entry → List Entry
in_order reverse entries = if reverse then rev_append entries [] else entries

-- The entries round a sought position: smaller ones behind it, larger ones ahead.
abbrev pub Split : Bytes → List Entry → Position → Type 0
Split target all nowhere = All (λ e. is_lt (cmp e.key target) ≡ true) all
Split target all (on skipped e rest) =
    (is_lt (cmp e.key target) ≡ false)
    × All (λ x. is_lt (cmp x.key target) ≡ true) skipped
    × All (λ x. cmp x.key target ≡ Ordering.gt) rest
    × (all ≡ rev_append skipped (e ∷ rest))

pub Sought-Split :
    (target : Bytes) (all : List Entry) (p : Position)
    → Sorted Before all
    → Sought target all p
    → Split target all p
Sought-Split target all nowhere s h = h
Sought-Split target all (on skipped e rest) s (large, small, split) =
    let sorted = Sorted-rev_append_right Before skipped (e ∷ rest) (rw split at s) in
    (large, small, All-map rest (λ x b. gt_of_not_lt e.key x.key target large b) sorted.0, split)

module _ (q : Bytes → Bool) (target : Bytes) (all : List Entry) where
  -- What a test that is passed above the target keeps, seen from the sought position.
  abbrev pub above_rows : Position → List Entry
  above_rows nowhere = []
  above_rows (on skipped e rest) = if q e.key then e ∷ rest else rest

  abbrev pub below_rows : Position → List Entry
  below_rows nowhere = rev_append all []
  below_rows (on skipped e rest) = if q e.key then e ∷ skipped else skipped

  pub filter-above :
      (p : Position)
      → Split target all p
      → ((k : Bytes) → is_lt (cmp k target) ≡ true → q k ≡ false)
      → ((k : Bytes) → cmp k target ≡ Ordering.gt → q k ≡ true)
      → filter (λ e. q e.key) all ≡ above_rows p
  filter-above nowhere h below above =
      filter-none (λ e. q e.key) all (All-map all (λ x s. below x.key s) h)
  filter-above (on skipped e rest) (large, small, up, split) below above = rw split (
      filter-rev_append_split (λ x. q x.key) skipped rest e
        (All-map skipped (λ x s. below x.key s) small) (All-map rest (λ x s. above x.key s) up))

  pub filter-below :
      (p : Position)
      → Split target all p
      → ((k : Bytes) → is_lt (cmp k target) ≡ true → q k ≡ true)
      → ((k : Bytes) → cmp k target ≡ Ordering.gt → q k ≡ false)
      → filter (λ e. q e.key) (rev_append all []) ≡ below_rows p
  filter-below nowhere h below above =
      rw
        (
          filter-rev_append (λ x. q x.key) all [],
          filter-All (λ x. q x.key) all (All-map all (λ x s. below x.key s) h),
        )
        refl
  filter-below (on skipped e rest) (large, small, up, split) below above = rw split (
      filter-split (λ x. q x.key) skipped rest e (All-map skipped (λ x s. below x.key s) small)
        (All-map rest (λ x s. above x.key s) up))
