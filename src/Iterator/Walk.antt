-- ===== src/Iterator/Walk.antt =====
-- `GetIterator`, `Read` and `IteratorNext` of src/iterator.cc. `IteratorNext` loops until a read
-- fails or the rows pass the high water mark; the model's loop takes fuel. LevelDB asks that `Next` and
-- `Prev` are called at a valid cursor only, and `Read` does not test that: there the model has `none`.
use mathlib.Core.Option
use leveldown.Base.{
  ℕ, zero, suc, ◌+◌, ◌%◌, ◌^◌, ℤ, pos, negsuc, Bool, true, false, not, ◌&&◌, ◌||◌, Option, none,
  some, List, [], ◌∷◌, ltb, leb, length, if◌then◌else◌,
}
use leveldown.Bytes.{Bytes, cmp, is_lt, is_le, is_eq, is_ge, is_gt}
use leveldown.Cursor.{CursorOps}
use leveldown.Iterator.Defs.{Row, IteratorOptions, Iterator}

module _ {C : Type 0} (ops : CursorOps C) where
  -- The step back that a reverse start makes from the entry that the seek found.
  unfoldable pub back_off : IteratorOptions → Bytes → C → C
  back_off o start c =
      let key_ = ops.key c in
      elim o.lt [
        | some lt ↦ if is_le (cmp lt key_) then ops.prev c else c
        | none ↦ elim o.lte [
          | some lte ↦ if is_lt (cmp lte key_) then ops.prev c else c
          | none ↦ if not (is_eq (cmp start key_)) then ops.prev c else c
        ]
      ]

  -- The last check of a reverse start: an entry that is not below `lt` is stepped over.
  unfoldable pub settle : Option Bytes → C → C
  settle none c = c
  settle (some lt) c = if ops.valid c && is_le (cmp lt (ops.key c)) then ops.prev c else c

  unfoldable pub start_reverse : IteratorOptions → Bytes → C → C
  start_reverse o start c =
      settle o.lt (if not (ops.valid c) then ops.seek_to_last c else back_off o start c)

  unfoldable pub start_forward : Option Bytes → C → C
  start_forward none c = c
  start_forward (some gt) c = if ops.valid c && is_eq (cmp gt (ops.key c)) then ops.next c else c

  -- Where the new cursor is placed.
  unfoldable pub start_cursor : IteratorOptions → C → C
  start_cursor o c = elim o.start [
    | some start ↦
        let found = ops.seek start c in
        if o.reverse then start_reverse o start found else start_forward o.gt found
    | none ↦ if o.reverse then ops.seek_to_last c else ops.seek_to_first c
  ]

  -- The result is whether a cursor was made.
  unfoldable pub get_iterator : Iterator C → Iterator C × Bool
  get_iterator it = elim it.db_iterator [
    | none ↦ (record it { db_iterator = some (start_cursor it.options ops.fresh) }, true)
    | some c ↦ (it, false)
  ]

  -- The first half of `Read`: if it is not the first call, and no seek was made, move on. The step is
  -- LevelDB's only at a valid cursor: `collect` asks `is_stuck` before each read.
  unfoldable pub advance : Iterator C → Iterator C
  advance it =
      let (placed, made) = get_iterator it in
      let step = λ (c : C). if it.reverse then ops.prev c else ops.next c in
      let moved : Iterator C =
        if not made && not it.seeking
        then record placed { db_iterator = Option.map step placed.db_iterator }
        else placed in
      record moved { seeking = false }

-- `limit < 0 || ++count <= limit`: a negative limit leaves the counter alone. The counter is an `int`:
-- its 32 bits, in two's complement, wrap round, and what has the top bit is negative.
unfoldable pub bump : ℤ → ℕ → ℕ
bump (negsuc n) count = count
bump (pos limit) count = (count + 1) % 2 ^ 32

unfoldable pub passes_limit : ℤ → ℕ → Bool
passes_limit (negsuc n) count = true
passes_limit (pos limit) count =
    let next = (count + 1) % 2 ^ 32 in leb (2 ^ 31) next || leb next limit

-- The two bound tests of `Read`: `lt` hides `lte`, and `gt` hides `gte`.
unfoldable pub below_upper : IteratorOptions → Bytes → Bool
below_upper o key_ = elim o.lt [
  | some lt ↦ is_gt (cmp lt key_)
  | none ↦ elim o.lte [ some lte ↦ is_ge (cmp lte key_) | none ↦ true ]
]

unfoldable pub above_lower : IteratorOptions → Bytes → Bool
above_lower o key_ = elim o.gt [
  | some gt ↦ is_lt (cmp gt key_)
  | none ↦ elim o.gte [ some gte ↦ is_le (cmp gte key_) | none ↦ true ]
]

unfoldable pub before_end : IteratorOptions → Bytes → Bool
before_end o key_ = elim o.end [
  | none ↦ true
  | some end ↦ if o.reverse then is_le (cmp end key_) else is_ge (cmp end key_)
]

-- The test that `Read` makes of a key, but for the limit.
unfoldable pub accepts : IteratorOptions → Bytes → Bool
accepts o key_ = before_end o key_ && below_upper o key_ && above_lower o key_

module _ {C : Type 0} (ops : CursorOps C) where
  -- The second half of `Read`, at the entry under the cursor.
  unfoldable pub examine : Iterator C → C → Iterator C × Option Row
  examine it c =
      if ops.valid c
      then (
        record it { count = bump it.limit it.count },
        if passes_limit it.limit it.count && accepts it.options (ops.key c)
            then some (if it.keys then ops.key c else [], if it.values then ops.value c else [])
            else none,
      )
      else (it, none)

  unfoldable pub read : Iterator C → Iterator C × Option Row
  read it =
      let moved = advance ops it in
      elim moved.db_iterator [ none ↦ (moved, none) | some c ↦ examine moved c ]

  -- Whether the next read would call `Next` or `Prev` at a cursor that has run off the end.
  unfoldable pub is_stuck : Iterator C → Bool
  is_stuck it = elim it.db_iterator [ none ↦ false | some c ↦ not it.seeking && not (ops.valid c) ]

  -- The rows, whether there may be more, and the iterator after the call; `none` is out of fuel, or a
  -- step of an invalid cursor, which LevelDB leaves undefined.
  unfoldable pub collect : ℕ → ℕ → Iterator C → Option (List Row × Bool × Iterator C)
  collect zero size it = none
  collect (suc fuel) size it = elim (is_stuck it) [
    | true ↦ none
    | false ↦ elim (read it).1 [
      | none ↦ some ([], false, (read it).0)
      | some row ↦
          let size' = (size + length row.0 + length row.1) % 2 ^ 64 in
          let it' : Iterator C = record (read it).0 { landed = true } in
          elim (ltb it.high_water_mark size') [
            | true ↦ some (row ∷ [], true, it')
            | false ↦ Option.map (λ r. (row ∷ r.0, r.1, r.2)) (collect fuel size' it')
          ]
    ]
  ]

  unfoldable pub iterator_next : ℕ → Iterator C → Option (List Row × Bool × Iterator C)
  iterator_next fuel it = collect fuel 0 it
