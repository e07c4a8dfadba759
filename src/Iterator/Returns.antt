-- ===== src/Iterator/Returns.antt =====
-- The loop of `IteratorNext` ends, but for a step of a cursor that has run off the end.
use leveldown.Base.{
  ℕ, zero, suc, ◌+◌, ◌≡◌, refl, Bool, true, false, some, List, length, arith, Option-cases,
  Bool-cases, inl, inr, ltb, ◌%◌, ◌^◌,
}
use leveldown.Cursor.{Entry, Position, nowhere, on, CursorOps, CursorLaws}
use leveldown.Cursor.Rows.{rows}
use leveldown.Iterator.{Row, Iterator, read, collect, iterator_next, start_cursor, is_stuck}
use leveldown.Iterator.Pending.{Pending, unstarted, sought, moving}
use leveldown.Iterator.Scan.{collect-Delivers}

-- That a call of `IteratorNext` returns, wherever the cursor can be stepped.
abbrev pub Returns : {C : Type 0} → CursorOps C → Type 0
Returns {C} ops =
    (it : Iterator C)
    → is_stuck ops it ≡ false
    → (fuel : ℕ) × (r : List Row × Bool × Iterator C) × (iterator_next ops fuel it ≡ some r)

module _ {C : Type 0} (ops : CursorOps C) where
  collect-more :
      (fuel size : ℕ) (it : Iterator C) (r : List Row × Bool × Iterator C)
      → collect ops fuel size it ≡ some r
      → collect ops (suc fuel) size it ≡ some r
  unfolding collect
  collect-more zero size it r e = absurd (cc)
  collect-more (suc fuel) size it r e = elim (Bool-cases (is_stuck ops it)) [
    | inl stuck ↦ absurd (ground (arith, rw (collect, stuck) at e))
    | inr free ↦ elim (Option-cases (read ops it).1) [
      | inl stop ↦ rw (free, collect, stop) (rw (free, collect, stop) at e)
      | inr (row, got) ↦
          let size' = (size + length row.0 + length row.1) % 2 ^ 64 in
          let it' : Iterator C = record (read ops it).0 { landed = true } in
          elim (Bool-cases (ltb it.high_water_mark size')) [
            | inl full ↦ rw (free, collect, got, full) (rw (free, collect, got, full) at e)
            | inr room ↦ elim (Option-cases (collect ops fuel size' it')) [
              | inl n ↦ absurd (ground (arith, rw (free, collect, got, room, n) at e))
              | inr (r', n) ↦
                  rw (free, collect, got, room, collect-more fuel size' it' r' n)
                    (rw (free, collect, got, room, n) at e)
            ]
          ]
    ]
  ]

  -- A call that returns after some number of loop rounds returns the same when it may take more.
  pub iterator_next-more :
      (more fuel rounds : ℕ) (it : Iterator C) (r : List Row × Bool × Iterator C)
      → rounds ≡ fuel + more
      → iterator_next ops fuel it ≡ some r
      → iterator_next ops rounds it ≡ some r
  unfolding iterator_next
  iterator_next-more zero fuel rounds it r n e = let same : rounds ≡ fuel = omega arith in rw same e
  iterator_next-more (suc more) fuel rounds it r n e =
      let same : rounds ≡ suc (fuel + more) = omega arith in
      rw same
        (collect-more (fuel + more) 0 it r (iterator_next-more more fuel (fuel + more) it r refl e))

module _ {C : Type 0} (ops : CursorOps C) (entries : List Entry)
    (laws : CursorLaws ops entries) where
  open laws use {position, valid_lem}

  delivered :
      (it : Iterator C) (rest : List Entry)
      → Pending ops entries laws it rest
      → (r : List Row × Bool × Iterator C) × (iterator_next ops (suc (length rest)) it ≡ some r)
  unfolding iterator_next
  delivered it rest p = elim (Option-cases (collect ops (suc (length rest)) 0 it)) [
    | inl n ↦
        absurd (
          rw n at (collect-Delivers ops entries laws (suc (length rest)) 0 it rest p (omega arith)))
    | inr (r, e) ↦ (r, e)
  ]

  -- At a valid cursor there is an entry, and the pending ones are behind it.
  valid-Pending :
      (it : Iterator C) (c : C) (p : Position)
      → it.db_iterator ≡ some c
      → it.seeking ≡ false
      → ops.valid c ≡ true
      → position c ≡ p
      → (rest : List Entry) × Pending ops entries laws it rest
  valid-Pending it c nowhere held s v e = absurd (ground (arith, valid_lem c))
  valid-Pending it c (on b x a) held s v e = elim (Bool-cases it.reverse) [
    | inl r ↦ (b, moving c x held s (rw (r, e) refl))
    | inr r ↦ (a, moving c x held s (rw (r, e) refl))
  ]

  -- Over any list of entries, and from any state of the iterator but one in which the read would step
  -- a cursor that has run off the end, there is a number of loop rounds after which `IteratorNext`
  -- has returned.
  pub iterator_next-Returns :
      (it : Iterator C)
      → is_stuck ops it ≡ false
      → (fuel : ℕ) × (r : List Row × Bool × Iterator C) × (iterator_next ops fuel it ≡ some r)
  unfolding iterator_next is_stuck
  iterator_next-Returns it free = elim (Option-cases it.db_iterator) [
    | inl none_yet ↦
        let rest = rows it.reverse (position (start_cursor ops it.options ops.fresh)) in
        let (r, e) = delivered it rest (unstarted none_yet refl) in (suc (length rest), r, e)
    | inr (c, held) ↦ elim (Bool-cases it.seeking) [
      | inl s ↦
          let rest = rows it.reverse (position c) in
          let (r, e) = delivered it rest (sought c held s refl) in (suc (length rest), r, e)
      | inr s ↦
          let v : ops.valid c ≡ true = ground arith in
          let (rest, p) = valid-Pending it c (position c) held s v refl in
          let (r, e) = delivered it rest p in (suc (length rest), r, e)
    ]
  ]
