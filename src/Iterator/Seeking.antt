-- ===== src/Iterator/Seeking.antt =====
-- A scan after `Seek`.
use Prim.Native.Nat.{Ordering}
use leveldown.Base.{
  ◌+◌, ◌^◌, ◌≤◌, ℕ, true, false, not, ◌&&◌, ◌≡◌, refl, ◌∙◌, ap, some, arith, List, [], ◌∷◌, length,
  filter, Sorted, ◌<◌, take_while, take_while_cong, All-map, All-filter_self, take_while-eq-filter,
  Sorted-filter, filter-filter, filter_cong, Option-cases, map, inl, inr, length-filter,
}
use leveldown.Bytes.{Bytes, cmp}
use leveldown.Cursor.{Entry, CursorOps, CursorLaws}
use leveldown.Cursor.Rows.{rows}
use leveldown.Iterator.{
  IteratorOptions, Iterator, get_iterator, out_of_range, seek_cursor, seek, accepts, too_high,
  too_low, start_cursor,
}
use leveldown.Iterator.Pending.{Pending, sought, row_of}
use leveldown.Bytes.Order.{eq_of_cmp, cmp-flip}
use leveldown.Iterator.Split.{in_order}
use leveldown.Iterator.Range.{
  Before, entered, kept, in_range, accepts-eq-kept, in_range-split, low_up, high_down,
}
use leveldown.Iterator.Target.{reached, seek_cursor-rows, seek_cursor-out}
use leveldown.Iterator.Full.{
  drain, limited, Towards, kept-Closes, in_order-Sorted, drain-Pending, length-in_order,
  wanted-eq-limited,
}

-- The entries in range from a target on, in the direction of travel and within the limit.
abbrev pub selected_from : IteratorOptions → ℕ → Bytes → List Entry → List Entry
selected_from o count t entries = limited o.limit count (
    filter (λ e. reached o.reverse t e.key && not (out_of_range o e.key))
      (in_order o.reverse entries))

-- What is at or beyond a target in range has passed the start of the range.
reached-entered :
    (o : IteratorOptions) (t k : Bytes)
    → out_of_range o t ≡ false
    → reached o.reverse t k ≡ true
    → entered o k ≡ true
unfolding entered out_of_range
reached-entered o t k inside h = ground (
  arith,
  low_up o t k,
  high_down o k t,
  cmp-flip k t,
  λ (e : cmp k t ≡ Ordering.eq). ap (too_low o) (eq_of_cmp k t e),
  λ (e : cmp k t ≡ Ordering.eq). ap (too_high o) (eq_of_cmp k t e),
)

take_while-reached :
    (o : IteratorOptions) (t : Bytes) (entries : List Entry)
    → Sorted Before entries
    → out_of_range o t ≡ false
    → take_while
        (λ e. accepts o e.key)
        (filter (λ e. reached o.reverse t e.key) (in_order o.reverse entries))
      ≡ filter
          (λ e. reached o.reverse t e.key && not (out_of_range o e.key))
          (in_order o.reverse entries)
unfolding in_range
take_while-reached o t entries s inside =
    let all = in_order o.reverse entries in
    let beyond = filter (λ (e : Entry). reached o.reverse t e.key) all in
    take_while_cong (λ e. accepts o e.key) (λ e. kept o e.key) beyond
      (All-map beyond (λ e h. accepts-eq-kept o e.key (reached-entered o t e.key inside h))
        (All-filter_self (λ e. reached o.reverse t e.key) all))
    ∙ take_while-eq-filter (Towards o.reverse) (λ e. kept o e.key) beyond
        (kept-Closes o o.reverse refl)
        (Sorted-filter (Towards o.reverse) (λ e. reached o.reverse t e.key) all
          (in_order-Sorted o.reverse entries s))
    ∙ filter-filter (λ e. kept o e.key) (λ e. reached o.reverse t e.key) all
    ∙ filter_cong _ _ all
        (λ e. ground (arith, in_range-split o e.key, reached-entered o t e.key inside))

module _ {C : Type 0} (ops : CursorOps C) (entries : List Entry)
    (laws : CursorLaws ops entries) where
  open laws use {position}

  seek-Pending :
      (it : Iterator C) (t : Bytes) (rest : List Entry)
      → ((c : C) → rows it.reverse (position (seek_cursor ops it.options t c)) ≡ rest)
      → Pending ops entries laws (seek ops t it) rest
  unfolding seek get_iterator
  seek-Pending it t rest h = elim (Option-cases it.db_iterator) [
    | inl e ↦
        sought (seek_cursor ops it.options t (start_cursor ops it.options ops.fresh)) (ground arith)
          (ground arith) (ground (arith, h (start_cursor ops it.options ops.fresh)))
    | inr (c, e) ↦
        sought (seek_cursor ops it.options t c) (ground arith) (ground arith) (ground (arith, h c))
  ]

  pub seek_keeps :
      (it : Iterator C) (t : Bytes)
      → ((seek ops t it).options ≡ it.options) × ((seek ops t it).count ≡ it.count)
  unfolding seek get_iterator
  seek_keeps it t = ground arith

  -- Over entries in the order of their keys: the calls that follow a seek to a target in range
  -- return the rows of exactly the entries that are in range and at or beyond the target, in the
  -- direction of travel, within what the counter has left of the limit, wherever the iterator stood
  -- before. The counter and the number of entries together are below 2^31, the range of the counter;
  -- more calls and more loop rounds than there are entries are enough.
  pub drain-seek :
      (it : Iterator C) (t : Bytes) (calls fuel : ℕ)
      → Sorted Before entries
      → out_of_range it.options t ≡ false
      → it.count + length entries < 2 ^ 31
      → length entries < calls
      → length entries < fuel
      → drain ops calls fuel (seek ops t it)
        ≡ some (map (row_of it.keys it.values) (selected_from it.options it.count t entries))
  drain-seek it t calls fuel sorted inside small h k =
      let o = it.options in
      let all = in_order o.reverse entries in
      let rest = filter (λ (e : Entry). reached o.reverse t e.key) all in
      let few : length rest ≤ length entries = omega (
        arith,
        length-filter (λ (e : Entry). reached o.reverse t e.key) all,
        length-in_order o.reverse entries,
      ) in
      drain-Pending ops entries laws calls fuel (seek ops t it) rest
        (seek-Pending it t rest (λ c. seek_cursor-rows ops entries laws o t c sorted inside))
        (omega arith) (omega arith)
      ∙ rw ((seek_keeps it t).0, (seek_keeps it t).1)
          (ap (λ xs. some (map (row_of o.keys o.values) xs))
            (wanted-eq-limited o it.count rest (omega arith)
              ∙ ap (limited o.limit it.count) (take_while-reached o t entries sorted inside)))

  -- A seek to a target out of range ends the iteration, where there are entries at all: the calls
  -- that follow, at least one with at least one loop round, return no rows and report the end.
  pub drain-seek_out :
      (it : Iterator C) (t : Bytes) (calls fuel : ℕ) (e : Entry) (after : List Entry)
      → entries ≡ e ∷ after
      → out_of_range it.options t ≡ true
      → 0 < calls
      → 0 < fuel
      → drain ops calls fuel (seek ops t it) ≡ some []
  drain-seek_out it t calls fuel e after same outside h k =
      drain-Pending ops entries laws calls fuel (seek ops t it) []
        (seek-Pending it t []
          (λ c. seek_cursor-out ops entries laws it.options t c e after same outside))
        h k
