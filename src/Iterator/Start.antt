-- ===== src/Iterator/Start.antt =====
-- Where `GetIterator` places a new cursor: at the first entry of the range, in the direction of
-- travel, or past it if the range is empty.
use Prim.Native.Nat.{Ordering}
use leveldown.Base.{
  true, false, not, ◌≡◌, refl, Option, none, some, arith, List, [], ◌∷◌, All, filter, filter-All,
  rev_append, Sorted, inl, inr, ◌⊎◌, ◌∙◌, sym, All-every, subst,
}
use leveldown.Bytes.{Bytes, cmp, is_lt, is_eq}
use leveldown.Bytes.Order.{cmp-flip}
use leveldown.Cursor.{Entry, Position, nowhere, on, CursorOps, CursorLaws}
use leveldown.Cursor.Rows.{
  rows, rows-ahead, rows-behind, rows-last_of, All-rev_append, at_or_past-Sought,
}
use leveldown.Iterator.{
  IteratorOptions, start_forward, start_reverse, back_off, settle, too_high, start_cursor, too_low,
}
use leveldown.Iterator.Range.{
  entered, Before, Plain, forward_gt, forward_gte, forward_start, forward_all, reverse_lt,
  reverse_lte, reverse_start, reverse_all,
}
use leveldown.Iterator.Split.{
  in_order, Split, Sought-Split, above_rows, below_rows, filter-above, filter-below,
}

module _ {C : Type 0} (ops : CursorOps C) (entries : List Entry)
    (laws : CursorLaws ops entries) where
  open laws use {
    position, valid_lem, key_lem, next_lem, prev_lem, seek_lem, seek_to_first_lem, seek_to_last_lem,
  }

  -- With `gt` the cursor steps over an equal key; with `gte` and `start` it stays.
  start_forward-rows :
      (o : IteratorOptions) (gt : Option Bytes) (b : Bytes) (c : C) (p : Position)
      → position c ≡ p
      → Split b entries p
      → ((k : Bytes)
          → is_lt (cmp k b) ≡ false
          → entered o k ≡ (elim gt [ none ↦ true | some x ↦ not (is_eq (cmp x k)) ]))
      → rows false (position (start_forward ops gt c)) ≡ above_rows (entered o) b entries p
  unfolding start_forward
  start_forward-rows o none b c nowhere e h q = ground (arith, e)
  start_forward-rows o none b c (on s x r) e h q = ground (arith, e, q x.key h.0)
  start_forward-rows o (some t) b c nowhere e h q = ground (arith, e, valid_lem c)
  start_forward-rows o (some t) b c (on s x r) e h q = ground (
    arith,
    e,
    valid_lem c,
    key_lem c s r x e,
    next_lem c s r x e,
    q x.key h.0,
    rows-ahead (x ∷ s) r,
  )

  -- The last check of a reverse start changes nothing where all that is left is below `lt`.
  settle-id :
      (lt : Bytes) (c : C) (p : Position)
      → position c ≡ p
      → All (λ e. is_lt (cmp e.key lt) ≡ true) (rows true p)
      → settle ops (some lt) c ≡ c
  unfolding settle
  settle-id lt c nowhere e h = ground (arith, valid_lem c)
  settle-id lt c (on s x r) e h = ground (arith, valid_lem c, key_lem c s r x e, cmp-flip x.key lt)

  settle-last :
      (b : Bytes) (c : C)
      → All (λ e. is_lt (cmp e.key b) ≡ true) entries
      → settle ops (some b) (ops.seek_to_last c) ≡ ops.seek_to_last c
  settle-last b c h = settle-id b (ops.seek_to_last c) _ (seek_to_last_lem c) (
      rw (rows-last_of [] entries)
        (All-rev_append (λ e. is_lt (cmp e.key b) ≡ true) entries [] h tt))

  pub last-rows : (c : C) → rows true (position (ops.seek_to_last c)) ≡ rev_append entries []
  last-rows c = rw (seek_to_last_lem c) (rows-last_of [] entries)

  pub prev-rows :
      (c : C) (s r : List Entry) (x : Entry)
      → position c ≡ on s x r
      → rows true (position (ops.prev c)) ≡ s
  prev-rows c s r x e = rw (prev_lem c s r x e) (rows-behind s (x ∷ r))

  start_reverse-lt :
      (o : IteratorOptions) (b : Bytes) (c : C) (p : Position)
      → position c ≡ p
      → Split b entries p
      → o.reverse ≡ true
      → o.lt ≡ some b
      → rows true (position (start_reverse ops o b c)) ≡ below_rows (entered o) b entries p
  unfolding start_reverse back_off entered too_high
  start_reverse-lt o b c nowhere e h v l =
      ground (arith, e, valid_lem c, settle-last b c h, last-rows c)
  start_reverse-lt o b c (on s x r) e h v l =
      let rest : rows true (position (ops.prev c)) ≡ s = prev-rows c s r x e in
      let same = settle-id b (ops.prev c) _ refl (rw rest h.1) in
      ground (arith, e, valid_lem c, key_lem c s r x e, same, rest, cmp-flip x.key b)

  start_reverse-other :
      (o : IteratorOptions) (b : Bytes) (c : C) (p : Position)
      → position c ≡ p
      → Split b entries p
      → o.reverse ≡ true
      → o.lt ≡ none
      → (o.lte ≡ some b) ⊎ ((o.lte ≡ none) × (o.start ≡ some b))
      → rows true (position (start_reverse ops o b c)) ≡ below_rows (entered o) b entries p
  unfolding start_reverse back_off settle entered too_high
  start_reverse-other o b c nowhere e h r l t = ground (arith, e, valid_lem c, last-rows c)
  start_reverse-other o b c (on s x after) e h r l (inl t) =
      ground
        (arith, e, valid_lem c, key_lem c s after x e, prev-rows c s after x e, cmp-flip x.key b)
  start_reverse-other o b c (on s x after) e h r l (inr t) =
      ground
        (arith, e, valid_lem c, key_lem c s after x e, prev-rows c s after x e, cmp-flip x.key b)

  pub found :
      (b : Bytes) (c : C) → Sorted Before entries → Split b entries (position (ops.seek b c))
  found b c s = rw (seek_lem b c) (Sought-Split b entries _ s (at_or_past-Sought b entries))

  forward-rows :
      (o : IteratorOptions) (b : Bytes) (c : C)
      → Sorted Before entries
      → o.reverse ≡ false
      → ((k : Bytes) → is_lt (cmp k b) ≡ true → entered o k ≡ false)
      → ((k : Bytes)
          → is_lt (cmp k b) ≡ false
          → entered o k ≡ (elim o.gt [ none ↦ true | some x ↦ not (is_eq (cmp x k)) ]))
      → ((k : Bytes) → cmp k b ≡ Ordering.gt → entered o k ≡ true)
      → rows false (position (start_forward ops o.gt (ops.seek b c)))
        ≡ filter (λ e. entered o e.key) entries
  forward-rows o b c s r below at above =
      start_forward-rows o o.gt b (ops.seek b c) _ refl (found b c s) at
      ∙ sym (filter-above (entered o) b entries _ (found b c s) below above)

  reverse-rows :
      (o : IteratorOptions) (b : Bytes) (c : C)
      → Sorted Before entries
      → ((k : Bytes) → is_lt (cmp k b) ≡ true → entered o k ≡ true)
      → ((k : Bytes) → cmp k b ≡ Ordering.gt → entered o k ≡ false)
      → rows true (position (start_reverse ops o b (ops.seek b c)))
        ≡ below_rows (entered o) b entries (position (ops.seek b c))
      → rows true (position (start_reverse ops o b (ops.seek b c)))
        ≡ filter (λ e. entered o e.key) (rev_append entries [])
  reverse-rows o b c s below above h =
      h ∙ sym (filter-below (entered o) b entries _ (found b c s) below above)

  -- From where the cursor is placed to the statement in the direction of travel.
  placed-forward :
      (o : IteratorOptions) (c c' : C)
      → o.reverse ≡ false
      → start_cursor ops o c ≡ c'
      → rows false (position c') ≡ filter (λ e. entered o e.key) entries
      → rows o.reverse (position (start_cursor ops o c))
        ≡ filter (λ e. entered o e.key) (in_order o.reverse entries)
  placed-forward o c c' r e h = rw e (
      subst (λ x. rows x (position c') ≡ filter (λ y. entered o y.key) (in_order x entries)) (sym r)
        h)

  placed-reverse :
      (o : IteratorOptions) (c c' : C)
      → o.reverse ≡ true
      → start_cursor ops o c ≡ c'
      → rows true (position c') ≡ filter (λ e. entered o e.key) (rev_append entries [])
      → rows o.reverse (position (start_cursor ops o c))
        ≡ filter (λ e. entered o e.key) (in_order o.reverse entries)
  placed-reverse o c c' r e h = rw e (
      subst (λ x. rows x (position c') ≡ filter (λ y. entered o y.key) (in_order x entries)) (sym r)
        h)

  -- Over entries in the order of their keys, and with options that start from at most one kind of
  -- bound, a new cursor has before it, in the direction of travel, the entries that are inside the
  -- bound it starts from.
  pub start_cursor-rows :
      (o : IteratorOptions) (c : C)
      → Plain o
      → Sorted Before entries
      → rows o.reverse (position (start_cursor ops o c))
        ≡ filter (λ e. entered o e.key) (in_order o.reverse entries)
  unfolding start_cursor entered too_low too_high
  start_cursor-rows o c (forward_gt b r x y s) sorted =
      placed-forward o c (start_forward ops o.gt (ops.seek b c)) r (ground arith) (
        forward-rows o b c sorted r (λ k h. ground (arith, cmp-flip k b))
          (λ k h. ground (arith, cmp-flip k b)) (λ k h. ground arith))
  start_cursor-rows o c (forward_gte b r x y s) sorted =
      placed-forward o c (start_forward ops o.gt (ops.seek b c)) r (ground arith) (
        forward-rows o b c sorted r (λ k h. ground arith) (λ k h. ground arith)
          (λ k h. ground arith))
  start_cursor-rows o c (forward_start b r x y s) sorted =
      placed-forward o c (start_forward ops o.gt (ops.seek b c)) r (ground arith) (
        forward-rows o b c sorted r (λ k h. ground arith) (λ k h. ground arith)
          (λ k h. ground arith))
  start_cursor-rows o c (forward_all r x y s) sorted =
      placed-forward o c (ops.seek_to_first c) r (ground arith) (
        rw (seek_to_first_lem c, rows-ahead [] entries)
          (sym (filter-All _ entries (All-every _ entries (λ e. ground arith)))))
  start_cursor-rows o c (reverse_lt b r x y s) sorted =
      placed-reverse o c (start_reverse ops o b (ops.seek b c)) r (ground arith) (
        reverse-rows o b c sorted (λ k h. ground arith) (λ k h. ground arith)
          (start_reverse-lt o b _ _ refl (found b c sorted) r x))
  start_cursor-rows o c (reverse_lte b r x y s) sorted =
      placed-reverse o c (start_reverse ops o b (ops.seek b c)) r (ground arith) (
        reverse-rows o b c sorted (λ k h. ground arith) (λ k h. ground arith)
          (start_reverse-other o b _ _ refl (found b c sorted) r x (inl y)))
  start_cursor-rows o c (reverse_start b r x y s) sorted =
      placed-reverse o c (start_reverse ops o b (ops.seek b c)) r (ground arith) (
        reverse-rows o b c sorted (λ k h. ground arith) (λ k h. ground arith)
          (start_reverse-other o b _ _ refl (found b c sorted) r x (inr (y, s))))
  start_cursor-rows o c (reverse_all r x y s) sorted =
      placed-reverse o c (ops.seek_to_last c) r (ground arith) (
        last-rows c
        ∙ sym (filter-All _ _ (All-every _ (rev_append entries []) (λ e. ground arith))))
