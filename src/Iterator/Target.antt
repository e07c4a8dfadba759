-- ===== src/Iterator/Target.antt =====
-- `Seek`: where it leaves the cursor, and what a scan returns from there.
use leveldown.Base.{
  Bool, true, false, ◌&&◌, ◌≡◌, refl, sym, ◌∙◌, ap, arith, if◌then◌else◌, List, [], ◌∷◌, filter,
  Sorted, All,
}
use leveldown.Bytes.{Bytes, cmp, is_lt, is_le, is_ge, is_gt}
use leveldown.Cursor.{Entry, Position, nowhere, on, last_of, CursorOps, CursorLaws}
use leveldown.Cursor.Rows.{rows, All-rev_append}
use leveldown.Iterator.{IteratorOptions, out_of_range, adjust, seek_cursor}
use leveldown.Iterator.Start.{found, last-rows, prev-rows}
use leveldown.Iterator.Split.{in_order, Split, above_rows, below_rows, filter-above, filter-below}
use leveldown.Iterator.Range.{Before}

-- At or beyond a target, in the direction of travel.
abbrev pub reached : Bool → Bytes → Bytes → Bool
reached reverse target k = if reverse then is_le (cmp k target) else is_ge (cmp k target)

module _ {C : Type 0} (ops : CursorOps C) (entries : List Entry)
    (laws : CursorLaws ops entries) where
  open laws use {
    position, valid_lem, key_lem, next_lem, prev_lem, seek_lem, seek_to_first_lem, seek_to_last_lem,
  }

  last_on :
      (before after : List Entry) (e : Entry)
      → (s : List Entry) × (x : Entry) × (last_of before (e ∷ after) ≡ on s x [])
  last_on before [] e = (before, e, refl)
  last_on before (a ∷ after) e = last_on (e ∷ before) after a

  -- One step beyond either end the cursor is not valid.
  beyond_last :
      (c : C) (e : Entry) (after : List Entry)
      → entries ≡ e ∷ after
      → position (ops.next (ops.seek_to_last c)) ≡ nowhere
  beyond_last c e after h =
      let (s, x, p) = last_on [] after e in
      next_lem (ops.seek_to_last c) s [] x (seek_to_last_lem c ∙ ap (last_of []) h ∙ p)

  beyond_first :
      (c : C) (e : Entry) (after : List Entry)
      → entries ≡ e ∷ after
      → position (ops.prev (ops.seek_to_first c)) ≡ nowhere
  beyond_first c e after h =
      prev_lem (ops.seek_to_first c) [] after e (seek_to_first_lem c ∙ rw h refl)

  adjust-forward :
      (o : IteratorOptions) (t : Bytes) (c : C) (p : Position) (all : List Entry)
      → entries ≡ all
      → o.reverse ≡ false
      → position c ≡ p
      → Split t entries p
      → rows false (position (adjust ops o t c)) ≡ above_rows (λ k. is_ge (cmp k t)) t entries p
  unfolding adjust
  adjust-forward o t c nowhere [] same r e h =
      ground (arith, same, e, valid_lem c, valid_lem (ops.seek_to_first c), seek_to_first_lem c)
  adjust-forward o t c nowhere (x ∷ after) same r e h =
      let first : position (ops.seek_to_first c) ≡ on [] x after =
        seek_to_first_lem c ∙ rw same refl in
      let below = (rw same at h).0 in
      ground (
        arith,
        e,
        below,
        valid_lem c,
        valid_lem (ops.seek_to_first c),
        first,
        key_lem (ops.seek_to_first c) [] after x first,
        beyond_last (ops.seek_to_first c) x after same,
      )
  adjust-forward o t c (on s x after) all same r e h =
      ground (arith, e, valid_lem c, key_lem c s after x e, h.0)

  low_edge :
      (t : Bytes) (c : C) (p : Position)
      → position c ≡ p
      → All (λ e. is_lt (cmp e.key t) ≡ true) (rows true p)
      → (ops.valid c && is_gt (cmp (ops.key c) t)) ≡ false
  low_edge t c nowhere e h = ground (arith, valid_lem c)
  low_edge t c (on s x after) e h = ground (arith, valid_lem c, key_lem c s after x e)

  adjust-reverse :
      (o : IteratorOptions) (t : Bytes) (c : C) (p : Position)
      → o.reverse ≡ true
      → position c ≡ p
      → Split t entries p
      → rows true (position (adjust ops o t c)) ≡ below_rows (λ k. is_le (cmp k t)) t entries p
  unfolding adjust
  adjust-reverse o t c nowhere r e h =
      let last = last-rows ops entries laws c in
      let low =
        low_edge t (ops.seek_to_last c) _ refl
          (rw last (All-rev_append (λ x. is_lt (cmp x.key t) ≡ true) entries [] h tt)) in
      ground (arith, e, valid_lem c, last, low)
  adjust-reverse o t c (on s x after) r e h =
      ground (
        arith,
        e,
        valid_lem c,
        key_lem c s after x e,
        prev-rows ops entries laws c s after x e,
        h.0,
      )

  adjust-rows :
      (o : IteratorOptions) (t : Bytes) (c : C) (b : Bool)
      → Sorted Before entries
      → o.reverse ≡ b
      → rows b (position (adjust ops o t (ops.seek t c)))
        ≡ filter (λ e. reached b t e.key) (in_order b entries)
  adjust-rows o t c false s r =
      adjust-forward o t (ops.seek t c) _ entries refl r refl (found ops entries laws t c s)
      ∙ sym (
          filter-above (λ k. is_ge (cmp k t)) t entries _ (found ops entries laws t c s)
            (λ k h. ground arith) (λ k h. ground arith))
  adjust-rows o t c true s r =
      adjust-reverse o t (ops.seek t c) _ r refl (found ops entries laws t c s)
      ∙ sym (
          filter-below (λ k. is_le (cmp k t)) t entries _ (found ops entries laws t c s)
            (λ k h. ground arith) (λ k h. ground arith))

  -- After a seek to a target in range the entries at or beyond the target are pending.
  pub seek_cursor-rows :
      (o : IteratorOptions) (t : Bytes) (c : C)
      → Sorted Before entries
      → out_of_range o t ≡ false
      → rows o.reverse (position (seek_cursor ops o t c))
        ≡ filter (λ e. reached o.reverse t e.key) (in_order o.reverse entries)
  unfolding seek_cursor
  seek_cursor-rows o t c s inside = rw inside (adjust-rows o t c o.reverse s refl)

  -- After a seek to a target out of range nothing is pending, unless there are no entries at all.
  pub seek_cursor-out :
      (o : IteratorOptions) (t : Bytes) (c : C) (e : Entry) (after : List Entry)
      → entries ≡ e ∷ after
      → out_of_range o t ≡ true
      → rows o.reverse (position (seek_cursor ops o t c)) ≡ []
  unfolding seek_cursor
  seek_cursor-out o t c e after same outside =
      ground
        (arith, beyond_first (ops.seek t c) e after same, beyond_last (ops.seek t c) e after same)
