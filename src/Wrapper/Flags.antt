-- ===== src/Wrapper/Flags.antt =====
-- The fields that tell of a read in flight have no part in what a read does.
use mathlib.Core.Option
use leveldown.Base.{
  ℕ, zero, suc, ◌+◌, ◌%◌, ◌^◌, ◌≡◌, refl, ◌∙◌, ap, Bool, true, false, Option, none, some, List, [],
  ◌∷◌, length, arith, Option-cases, Bool-cases, inl, inr, ltb, ◌++◌,
}
use leveldown.Bytes.{Bytes}
use leveldown.Cursor.{CursorOps}
use leveldown.Iterator.{
  Row, Iterator, read, examine, advance, get_iterator, collect, iterator_next, is_stuck,
}
use leveldown.Iterator.Full.{drain, then_rest}

module _ {C : Type 0} where
  abbrev pub flagged : Bool → Option Bytes → Iterator C → Iterator C
  flagged n t it = record it { nexting = n; target = t }

  abbrev pub flagged_result :
      Bool → Option Bytes → List Row × Bool × Iterator C → List Row × Bool × Iterator C
  flagged_result n t r = (r.0, r.1, flagged n t r.2)

module _ {C : Type 0} (ops : CursorOps C) (n : Bool) (t : Option Bytes) where
  map_flagged :
      (row : Row) (r : Option (List Row × Bool × Iterator C))
      → Option.map (λ x. (row ∷ x.0, x.1, x.2)) (Option.map (flagged_result n t) r)
        ≡ Option.map (flagged_result n t) (Option.map (λ x. (row ∷ x.0, x.1, x.2)) r)
  map_flagged row none = refl
  map_flagged row (some r) = refl

  read-flagged :
      (it : Iterator C) → read ops (flagged n t it) ≡ (flagged n t (read ops it).0, (read ops it).1)
  unfolding read advance get_iterator examine
  read-flagged it = ground arith

  is_stuck-flagged : (it : Iterator C) → is_stuck ops (flagged n t it) ≡ is_stuck ops it
  unfolding is_stuck
  is_stuck-flagged it = refl

  collect-flagged :
      (fuel size : ℕ) (it : Iterator C)
      → collect ops fuel size (flagged n t it)
        ≡ Option.map (flagged_result n t) (collect ops fuel size it)
  unfolding collect
  collect-flagged zero size it = refl
  collect-flagged (suc fuel) size it =
      let left : (read ops (flagged n t it)).0 ≡ flagged n t (read ops it).0 =
        ap (λ p. p.0) (read-flagged it) in
      let found : (read ops (flagged n t it)).1 ≡ (read ops it).1 =
        ap (λ p. p.1) (read-flagged it) in
      let alike = is_stuck-flagged it in
      elim (Bool-cases (is_stuck ops it)) [
        | inl stuck ↦ rw (collect, alike, stuck) refl
        | inr free ↦ elim (Option-cases (read ops it).1) [
          | inl stop ↦ rw (collect, alike, free, found, stop, left) refl
          | inr (row, got) ↦
              let size' = (size + length row.0 + length row.1) % 2 ^ 64 in
              let it' : Iterator C = record (read ops it).0 { landed = true } in
              elim (Bool-cases (ltb it.high_water_mark size')) [
                | inl full ↦ rw (collect, alike, free, found, got, full, left) refl
                | inr room ↦
                    rw
                      (collect, alike, free, found, got, room, left, collect-flagged fuel size' it')
                      (map_flagged row (collect ops fuel size' it'))
              ]
        ]
      ]

  pub iterator_next-flagged :
      (fuel : ℕ) (it : Iterator C)
      → iterator_next ops fuel (flagged n t it)
        ≡ Option.map (flagged_result n t) (iterator_next ops fuel it)
  unfolding iterator_next
  iterator_next-flagged fuel it = collect-flagged fuel 0 it

  rest_flagged :
      (next : Iterator C → Option (List Row))
      → ((it : Iterator C) → next (flagged n t it) ≡ next it)
      → (r : Option (List Row × Bool × Iterator C))
      → then_rest ops next (Option.map (flagged_result n t) r) ≡ then_rest ops next r
  unfolding then_rest
  rest_flagged next same none = refl
  rest_flagged next same (some (got, false, it)) = refl
  rest_flagged next same (some (got, true, it)) = ap (Option.map (λ rest. got ++ rest)) (same it)

  -- The rows of a whole iteration do not depend on them.
  pub drain-flagged :
      (calls fuel : ℕ) (it : Iterator C)
      → drain ops calls fuel (flagged n t it) ≡ drain ops calls fuel it
  unfolding drain then_rest
  drain-flagged zero fuel it = refl
  drain-flagged (suc calls) fuel it =
      rw (drain, iterator_next-flagged fuel it)
        (rest_flagged (drain ops calls fuel) (drain-flagged calls fuel) (iterator_next ops fuel it))

module _ {C : Type 0} (ops : CursorOps C) where
  read-options : (it : Iterator C) → (read ops it).0.options ≡ it.options
  unfolding read advance get_iterator examine
  read-options it = ground arith

  -- Reads leave the options as they are, and a call that reports more has a row.
  abbrev pub Fair : Iterator C → Option (List Row × Bool × Iterator C) → Type 0
  Fair it none = Unit
  Fair it (some (got, more, it')) = (it'.options ≡ it.options) × (got ≡ [] → more ≡ false)

  Fair-map :
      (it it' : Iterator C) (row : Row) (r : Option (List Row × Bool × Iterator C))
      → it'.options ≡ it.options
      → Fair it' r
      → Fair it (Option.map (λ x. (row ∷ x.0, x.1, x.2)) r)
  Fair-map it it' row none e f = tt
  Fair-map it it' row (some (got, more, x)) e f = (f.0 ∙ e, λ n. cc)

  collect-Fair : (fuel size : ℕ) (it : Iterator C) → Fair it (collect ops fuel size it)
  unfolding collect
  collect-Fair zero size it = tt
  collect-Fair (suc fuel) size it = elim (Bool-cases (is_stuck ops it)) [
    | inl stuck ↦ rw (stuck, collect) tt
    | inr free ↦ elim (Option-cases (read ops it).1) [
      | inl e ↦ rw (free, e, collect) (read-options it, λ n. refl)
      | inr (row, e) ↦
          let size' = (size + length row.0 + length row.1) % 2 ^ 64 in
          let it' : Iterator C = record (read ops it).0 { landed = true } in
          elim (Bool-cases (ltb it.high_water_mark size')) [
            | inl full ↦ rw (free, e, full, collect) (read-options it, λ n. cc)
            | inr room ↦
                rw (free, e, room, collect)
                  (Fair-map it it' row (collect ops fuel size' it') (read-options it)
                    (collect-Fair fuel size' it'))
          ]
    ]
  ]

  pub iterator_next-Fair : (fuel : ℕ) (it : Iterator C) → Fair it (iterator_next ops fuel it)
  unfolding iterator_next
  iterator_next-Fair fuel it = collect-Fair fuel 0 it
