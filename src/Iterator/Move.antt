-- ===== src/Iterator/Move.antt =====
-- `OutOfRange` and `Seek` of src/iterator.cc.
use leveldown.Base.{Bool, true, false, not, ◌&&◌, ◌||◌, none, some, if◌then◌else◌}
use leveldown.Bytes.{Bytes, cmp, is_lt, is_le, is_ge, is_gt}
use leveldown.Cursor.{CursorOps}
use leveldown.Iterator.Defs.{IteratorOptions, Iterator}
use leveldown.Iterator.Walk.{get_iterator}

-- Beyond the upper bound: `lt`, else `lte`, else a reverse `start`.
unfoldable pub too_high : IteratorOptions → Bytes → Bool
too_high o target = elim o.lt [
  | some lt ↦ is_ge (cmp target lt)
  | none ↦ elim o.lte [
    | some lte ↦ is_gt (cmp target lte)
    | none ↦ elim o.start [ some start ↦ o.reverse && is_gt (cmp target start) | none ↦ false ]
  ]
]

-- Beyond `end`, in the direction of travel.
unfoldable pub past_end : IteratorOptions → Bytes → Bool
past_end o target = elim o.end [
  | some end ↦ if o.reverse then is_lt (cmp target end) else is_gt (cmp target end)
  | none ↦ false
]

-- Beyond the lower bound: `gt`, else `gte`, else a forward `start`.
unfoldable pub too_low : IteratorOptions → Bytes → Bool
too_low o target = elim o.gt [
  | some gt ↦ is_le (cmp target gt)
  | none ↦ elim o.gte [
    | some gte ↦ is_lt (cmp target gte)
    | none ↦ elim o.start [ some start ↦ not o.reverse && is_lt (cmp target start) | none ↦ false ]
  ]
]

unfoldable pub out_of_range : IteratorOptions → Bytes → Bool
out_of_range o target = too_high o target || past_end o target || too_low o target

module _ {C : Type 0} (ops : CursorOps C) where
  -- The correction of `Seek` for an in-range target: the cursor comes from `dbIterator->Seek`.
  unfoldable pub adjust : IteratorOptions → Bytes → C → C
  adjust o target c =
      let edge = if o.reverse then ops.seek_to_last c else ops.seek_to_first c in
      if ops.valid c
      then (if is_gt (cmp (ops.key c) target) && o.reverse
          then ops.prev c
          else if is_lt (cmp (ops.key c) target) && not o.reverse
          then ops.next c
          else c)
      else if ops.valid edge
      then (if is_gt (cmp (ops.key edge) target) && o.reverse
          then ops.prev (ops.seek_to_first edge)
          else if is_lt (cmp (ops.key edge) target) && not o.reverse
          then ops.next (ops.seek_to_last edge)
          else edge)
      else edge

  unfoldable pub seek_cursor : IteratorOptions → Bytes → C → C
  seek_cursor o target c =
      let found = ops.seek target c in
      if out_of_range o target
      then (if o.reverse
          then ops.prev (ops.seek_to_first found)
          else ops.next (ops.seek_to_last found))
      else adjust o target found

  -- Whether `Seek` would call `Prev` or `Next` at a cursor that is not valid: the target is out of
  -- range, and there are no entries. LevelDB forbids it; `seek_cursor` does not tell it apart.
  unfoldable pub falls_off : Bytes → Iterator C → Bool
  falls_off target it = elim (get_iterator ops it).0.db_iterator [
    | none ↦ false
    | some c ↦
        let found = ops.seek target c in
        out_of_range it.options target
        && not (ops.valid (if it.reverse then ops.seek_to_first found else ops.seek_to_last found))
  ]

  unfoldable pub seek : Bytes → Iterator C → Iterator C
  seek target it =
      let (placed, made) = get_iterator ops it in
      elim placed.db_iterator [
        | none ↦ placed
        | some c ↦ record placed {
          db_iterator = some (seek_cursor it.options target c);
          target = some target;
          seeking = true;
          landed = false;
        }
      ]
