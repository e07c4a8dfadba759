-- ===== src/Iterator/Range.antt =====
-- The range that the options describe, split into the bound that a scan starts from and those that
-- it stops at; `OutOfRange` and the tests of `Read` agree with it.
use Prim.Native.Nat.{Ordering}
use leveldown.Base.{
  Bool, Option-cases, inl, inr, true, false, not, ◌&&◌, ◌≡◌, none, some, arith, if◌then◌else◌,
}
use leveldown.Bytes.{Bytes, cmp}
use leveldown.Bytes.Order.{cmp-flip, gt_of_not_lt, lt_of_not_gt}
use leveldown.Cursor.{Entry}
use leveldown.Iterator.{IteratorOptions, accepts, before_end, below_upper, above_lower}
use leveldown.Iterator.{out_of_range, too_high, too_low, past_end}

-- The options of `Iterator::New` where neither direction has two bounds: the bound in the
-- direction's starting place has become `start`.
pub data Plain (o : IteratorOptions) : Type 0 where
  forward_gt :
      (b : Bytes) → o.reverse ≡ false → o.gt ≡ some b → o.gte ≡ none → o.start ≡ some b → Plain o
  forward_gte :
      (b : Bytes) → o.reverse ≡ false → o.gt ≡ none → o.gte ≡ some b → o.start ≡ some b → Plain o
  forward_start :
      (b : Bytes) → o.reverse ≡ false → o.gt ≡ none → o.gte ≡ none → o.start ≡ some b → Plain o
  forward_all : o.reverse ≡ false → o.gt ≡ none → o.gte ≡ none → o.start ≡ none → Plain o
  reverse_lt :
      (b : Bytes) → o.reverse ≡ true → o.lt ≡ some b → o.lte ≡ none → o.start ≡ some b → Plain o
  reverse_lte :
      (b : Bytes) → o.reverse ≡ true → o.lt ≡ none → o.lte ≡ some b → o.start ≡ some b → Plain o
  reverse_start :
      (b : Bytes) → o.reverse ≡ true → o.lt ≡ none → o.lte ≡ none → o.start ≡ some b → Plain o
  reverse_all : o.reverse ≡ true → o.lt ≡ none → o.lte ≡ none → o.start ≡ none → Plain o

-- The bound that the direction starts from.
unfoldable pub entered : IteratorOptions → Bytes → Bool
entered o k = if o.reverse then not (too_high o k) else not (too_low o k)

-- The bounds that the direction stops at.
unfoldable pub kept : IteratorOptions → Bytes → Bool
kept o k = not (past_end o k) && (if o.reverse then not (too_low o k) else not (too_high o k))

unfoldable pub in_range : IteratorOptions → Bytes → Bool
in_range o k = not (out_of_range o k)

pub in_range-split : (o : IteratorOptions) (k : Bytes) → in_range o k ≡ (entered o k && kept o k)
unfolding in_range out_of_range entered kept
in_range-split o k = ground arith

not_end : (o : IteratorOptions) (k : Bytes) → before_end o k ≡ not (past_end o k)
unfolding before_end past_end
not_end o k = elim (Option-cases o.end) [
  | inl e ↦ ground arith
  | inr (b, e) ↦ ground (arith, e, cmp-flip b k)
]

not_high :
    (o : IteratorOptions) (k : Bytes) → o.reverse ≡ false → below_upper o k ≡ not (too_high o k)
unfolding below_upper too_high
not_high o k r = elim (Option-cases o.lt) [
  | inr (b, e) ↦ ground (arith, e, cmp-flip b k)
  | inl e ↦ elim (Option-cases o.lte) [
    | inr (b, f) ↦ ground (arith, e, f, cmp-flip b k)
    | inl f ↦ ground (arith, e, f)
  ]
]

not_low : (o : IteratorOptions) (k : Bytes) → o.reverse ≡ true → above_lower o k ≡ not (too_low o k)
unfolding above_lower too_low
not_low o k r = elim (Option-cases o.gt) [
  | inr (b, e) ↦ ground (arith, e, cmp-flip b k)
  | inl e ↦ elim (Option-cases o.gte) [
    | inr (b, f) ↦ ground (arith, e, f, cmp-flip b k)
    | inl f ↦ ground (arith, e, f)
  ]
]

entered_upper : (o : IteratorOptions) (k : Bytes) → too_high o k ≡ false → below_upper o k ≡ true
unfolding below_upper too_high
entered_upper o k h = elim (Option-cases o.lt) [
  | inr (b, e) ↦ ground (arith, e, cmp-flip b k)
  | inl e ↦ elim (Option-cases o.lte) [
    | inr (b, f) ↦ ground (arith, e, f, cmp-flip b k)
    | inl f ↦ ground (arith, e, f)
  ]
]

entered_lower : (o : IteratorOptions) (k : Bytes) → too_low o k ≡ false → above_lower o k ≡ true
unfolding above_lower too_low
entered_lower o k h = elim (Option-cases o.gt) [
  | inr (b, e) ↦ ground (arith, e, cmp-flip b k)
  | inl e ↦ elim (Option-cases o.gte) [
    | inr (b, f) ↦ ground (arith, e, f, cmp-flip b k)
    | inl f ↦ ground (arith, e, f)
  ]
]

-- Once the start has been passed, `Read` tests exactly the bounds that a scan stops at.
pub accepts-eq-kept :
    (o : IteratorOptions) (k : Bytes) → entered o k ≡ true → accepts o k ≡ kept o k
unfolding accepts entered kept
accepts-eq-kept o k h =
    ground (arith, not_end o k, not_high o k, not_low o k, entered_upper o k, entered_lower o k)

-- Entries in the order of their keys, and in the opposite order.
abbrev pub Before : Entry → Entry → Type 0
Before x y = cmp x.key y.key ≡ Ordering.lt

abbrev pub After : Entry → Entry → Type 0
After x y = cmp y.key x.key ≡ Ordering.lt

pub low_up :
    (o : IteratorOptions) (a b : Bytes)
    → cmp a b ≡ Ordering.lt
    → too_low o a ≡ false
    → too_low o b ≡ false
unfolding too_low
low_up o a b l h = elim (Option-cases o.gt) [
  | inr (t, e) ↦ ground (arith, e, gt_of_not_lt a b t)
  | inl e ↦ elim (Option-cases o.gte) [
    | inr (t, f) ↦ ground (arith, e, f, gt_of_not_lt a b t)
    | inl f ↦ elim (Option-cases o.start) [
      | inr (t, g) ↦ ground (arith, e, f, g, gt_of_not_lt a b t)
      | inl g ↦ ground (arith, e, f, g)
    ]
  ]
]

pub high_down :
    (o : IteratorOptions) (a b : Bytes)
    → cmp a b ≡ Ordering.lt
    → too_high o b ≡ false
    → too_high o a ≡ false
unfolding too_high
high_down o a b l h = elim (Option-cases o.lt) [
  | inr (t, e) ↦ ground (arith, e, lt_of_not_gt a b t)
  | inl e ↦ elim (Option-cases o.lte) [
    | inr (t, f) ↦ ground (arith, e, f, lt_of_not_gt a b t)
    | inl f ↦ elim (Option-cases o.start) [
      | inr (t, g) ↦ ground (arith, e, f, g, lt_of_not_gt a b t)
      | inl g ↦ ground (arith, e, f, g)
    ]
  ]
]

end_down :
    (o : IteratorOptions) (a b : Bytes)
    → o.reverse ≡ false
    → cmp a b ≡ Ordering.lt
    → past_end o b ≡ false
    → past_end o a ≡ false
unfolding past_end
end_down o a b r l h = elim (Option-cases o.end) [
  | inr (t, e) ↦ ground (arith, e, lt_of_not_gt a b t)
  | inl e ↦ ground (arith, e)
]

end_up :
    (o : IteratorOptions) (a b : Bytes)
    → o.reverse ≡ true
    → cmp a b ≡ Ordering.lt
    → past_end o a ≡ false
    → past_end o b ≡ false
unfolding past_end
end_up o a b r l h = elim (Option-cases o.end) [
  | inr (t, e) ↦ ground (arith, e, gt_of_not_lt a b t)
  | inl e ↦ ground (arith, e)
]

-- Going forwards the range is entered once and left once.
pub entered_up :
    (o : IteratorOptions)
    → o.reverse ≡ false
    → (x y : Entry) → Before x y
    → entered o x.key ≡ true
    → entered o y.key ≡ true
unfolding entered
entered_up o r x y l h = ground (arith, low_up o x.key y.key l)

pub kept_up :
    (o : IteratorOptions)
    → o.reverse ≡ false
    → (x y : Entry) → Before x y
    → kept o x.key ≡ false
    → kept o y.key ≡ false
unfolding kept
kept_up o r x y l h = ground (arith, high_down o x.key y.key l, end_down o x.key y.key r l)

-- Going backwards too.
pub entered_down :
    (o : IteratorOptions)
    → o.reverse ≡ true
    → (x y : Entry) → After x y
    → entered o x.key ≡ true
    → entered o y.key ≡ true
unfolding entered
entered_down o r x y l h = ground (arith, high_down o y.key x.key l)

pub kept_down :
    (o : IteratorOptions)
    → o.reverse ≡ true
    → (x y : Entry) → After x y
    → kept o x.key ≡ false
    → kept o y.key ≡ false
unfolding kept
kept_down o r x y l h = ground (arith, low_up o y.key x.key l, end_up o y.key x.key r l)
