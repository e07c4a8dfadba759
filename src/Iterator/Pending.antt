-- ===== src/Iterator/Pending.antt =====
-- What an iterator has still to examine, and what one `Read` does to it.
use leveldown.Base.{
  Bool, true, false, ◌&&◌, ◌≡◌, refl, none, some, List, [], ◌∷◌, arith, if◌then◌else◌,
}
use leveldown.Cursor.{Entry, Position, nowhere, on, CursorOps, CursorLaws}
use leveldown.Cursor.Rows.{rows, rows-ahead, rows-behind}
use leveldown.Iterator.{
  Row, Iterator, start_cursor, get_iterator, advance, examine, read, bump, passes_limit, accepts,
  is_stuck,
}

-- The row of an entry: what is not asked for stays the empty string.
abbrev pub row_of : Bool → Bool → Entry → Row
row_of keys values e = (if keys then e.key else [], if values then e.value else [])

module _ {C : Type 0} (ops : CursorOps C) (entries : List Entry)
    (laws : CursorLaws ops entries) where
  open laws use {position, valid_lem, key_lem, value_lem, next_lem, prev_lem}

  -- The entries that the next reads examine: all from the start of the range if there is no cursor
  -- yet, all from the cursor on after a seek, and otherwise those beyond the cursor.
  pub data Pending (it : Iterator C) (rest : List Entry) : Type 0 where
    unstarted :
        it.db_iterator ≡ none
        → rows it.reverse (position (start_cursor ops it.options ops.fresh)) ≡ rest
        → Pending it rest
    sought :
        (c : C)
        → it.db_iterator ≡ some c
        → it.seeking ≡ true
        → rows it.reverse (position c) ≡ rest
        → Pending it rest
    moving :
        (c : C) (e : Entry)
        → it.db_iterator ≡ some c
        → it.seeking ≡ false
        → rows it.reverse (position c) ≡ e ∷ rest
        → Pending it rest

  step_at :
      (reverse : Bool) (c : C) (p : Position) (e : Entry) (rest : List Entry)
      → position c ≡ p
      → rows reverse p ≡ e ∷ rest
      → rows reverse (position (if reverse then ops.prev c else ops.next c)) ≡ rest
  step_at reverse c nowhere e rest h k = cc
  step_at false c (on b x a) e rest h k =
      rw (next_lem c b a x h) (ground (arith, rows-ahead (x ∷ b) a))
  step_at true c (on b x a) e rest h k =
      rw (prev_lem c b a x h) (ground (arith, rows-behind b (x ∷ a)))

  -- Moving the cursor on drops the entry that it stood on.
  pub rows_step :
      (reverse : Bool) (c : C) (e : Entry) (rest : List Entry)
      → rows reverse (position c) ≡ e ∷ rest
      → rows reverse (position (if reverse then ops.prev c else ops.next c)) ≡ rest
  rows_step reverse c e rest = step_at reverse c (position c) e rest refl

  -- After the first half of `Read` the cursor is at the first pending entry.
  pub advance_lem :
      (it : Iterator C) (rest : List Entry)
      → Pending it rest
      → (c : C) × (advance ops it ≡ record it { db_iterator = some c; seeking = false })
        × (rows it.reverse (position c) ≡ rest)
  unfolding advance get_iterator
  advance_lem it rest (unstarted e h) = (start_cursor ops it.options ops.fresh, ground arith, h)
  advance_lem it rest (sought c e s h) = (c, ground arith, h)
  advance_lem it rest (moving c x e s h) =
      (if it.reverse then ops.prev c else ops.next c, ground arith, rows_step it.reverse c x rest h)

  at_entry :
      (reverse : Bool) (c : C) (p : Position) (e : Entry) (rest : List Entry)
      → position c ≡ p
      → rows reverse p ≡ e ∷ rest
      → (ops.valid c ≡ true) × (ops.key c ≡ e.key) × (ops.value c ≡ e.value)
  at_entry reverse c nowhere e rest h k = cc
  at_entry reverse c (on b x a) e rest h k =
      ground (arith, valid_lem c, key_lem c b a x h, value_lem c b a x h)

  at_end :
      (reverse : Bool) (c : C) (p : Position)
      → position c ≡ p
      → rows reverse p ≡ []
      → ops.valid c ≡ false
  at_end reverse c nowhere h k = ground (arith, valid_lem c)
  at_end reverse c (on b x a) h k = cc

  -- The cursor is not stepped where it has run off the end.
  pub Pending-unstuck :
      (it : Iterator C) (rest : List Entry) → Pending it rest → is_stuck ops it ≡ false
  unfolding is_stuck
  Pending-unstuck it rest (unstarted e h) = ground arith
  Pending-unstuck it rest (sought c e s h) = ground arith
  Pending-unstuck it rest (moving c x e s h) =
      ground (arith, at_entry it.reverse c (position c) x rest refl h)

  -- With nothing pending a read fails, and the counter stays.
  pub read-end :
      (it : Iterator C)
      → Pending it []
      → ((read ops it).1 ≡ none) × ((read ops it).0.count ≡ it.count)
  unfolding read examine
  read-end it p =
      let (c, e, h) = advance_lem it [] p in
      ground (arith, e, at_end it.reverse c (position c) refl h)

  -- With an entry pending a read bumps the counter and gives its row, if limit and range allow.
  pub read-entry :
      (it : Iterator C) (e : Entry) (rest : List Entry)
      → Pending it (e ∷ rest)
      → ((read ops it).1 ≡ (
          if passes_limit it.limit it.count && accepts it.options e.key
          then some (row_of it.keys it.values e)
          else none))
        × ((read ops it).0.count ≡ bump it.limit it.count)
        × ((read ops it).0.options ≡ it.options)
        × (c : C) × ((read ops it).0.db_iterator ≡ some c)
        × ((read ops it).0.seeking ≡ false)
        × (rows it.reverse (position c) ≡ e ∷ rest)
  unfolding read examine
  read-entry it e rest p =
      let (c, q, h) = advance_lem it (e ∷ rest) p in
      let (v, k, w) = at_entry it.reverse c (position c) e rest refl h in
      (
        ground (arith, q, v, k, w),
        ground (arith, q, v, k, w),
        ground (arith, q, v, k, w),
        c,
        ground (arith, q, v, k, w),
        ground (arith, q, v, k, w),
        h,
      )
