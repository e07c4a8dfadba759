-- ===== src/Tests/Iteration.antt =====
-- Iterators of src/iterator.cc over three entries.
use leveldown.Base.{
  refl, true, false, some, none, [], ◌∷◌, List, pos, negsuc, arith, map, filter, ◌≡◌, Sorted, ℕ,
  Bool,
}
use leveldown.Iterator.Returns.{iterator_next-Returns}
use leveldown.Bytes.{cmp}
use leveldown.Cursor.{Entry, nowhere, Position}
use leveldown.Cursor.Sample.{list_cursor, list_cursor-CursorLaws}
use leveldown.Iterator.{
  IteratorOptions, Iterator, new_iterator, iterator_next, out_of_range, seek, Row, accepts,
  start_cursor, is_stuck,
}
use leveldown.Iterator.Full.{drain, selected, drain-new_iterator}
use leveldown.Iterator.Seeking.{selected_from, drain-seek, drain-seek_out}
use leveldown.Iterator.Range.{Plain, Before, forward_gt, entered, kept, accepts-eq-kept}
use leveldown.Iterator.Pending.{row_of}
use leveldown.Cursor.Rows.{rows}
use leveldown.Iterator.Start.{start_cursor-rows}
use leveldown.Iterator.Split.{in_order}
use leveldown.Iterator.{Row}

abbrev pub first_entry : Entry
first_entry = record { key = 97 ∷ []; value = 1 ∷ [] }

abbrev pub three_entries : List Entry
three_entries =
    first_entry
    ∷ record { key = 98 ∷ []; value = 2 ∷ 3 ∷ [] }
    ∷ record { key = 98 ∷ 99 ∷ []; value = [] }
    ∷ []

pub three_entries-Sorted : Sorted Before three_entries
unfolding cmp
three_entries-Sorted = ((refl, (refl, tt)), ((refl, tt), (tt, tt)))

-- `{ gt: 'a', limit: 5 }`
abbrev pub above_a : IteratorOptions
above_a = record {
  start = some (97 ∷ []);
  end = none;
  reverse = false;
  keys = true;
  values = true;
  limit = pos 5;
  lt = none;
  lte = none;
  gt = some (97 ∷ []);
  gte = none;
  fill_cache = false;
  key_as_buffer = true;
  value_as_buffer = true;
  high_water_mark = 2;
}

-- `{ reverse: true, lte: 'b' }`
abbrev down_from_b : IteratorOptions
down_from_b = record above_a {
  start = some (98 ∷ []);
  reverse = true;
  lte = some (98 ∷ []);
  gt = none;
  limit = negsuc 0;
}

pub above_a-Plain : Plain above_a
above_a-Plain = forward_gt (97 ∷ []) refl refl refl refl

drain-new_iterator_example :
    drain (list_cursor three_entries) 4 4 (new_iterator above_a)
    ≡ some (map (row_of true true) (selected above_a 0 three_entries))
drain-new_iterator_example =
    drain-new_iterator (list_cursor three_entries) three_entries
      (list_cursor-CursorLaws three_entries) above_a 4 4 above_a-Plain three_entries-Sorted
      (omega arith) (omega arith) (omega arith)

drain-seek_example :
    drain
      (list_cursor three_entries)
      4
      4
      (seek (list_cursor three_entries) (98 ∷ 0 ∷ []) (new_iterator above_a))
    ≡ some (map (row_of true true) (selected_from above_a 0 (98 ∷ 0 ∷ []) three_entries))
unfolding out_of_range leveldown.Iterator.too_high new_iterator leveldown.Iterator.past_end
    leveldown.Iterator.too_low cmp
drain-seek_example =
    drain-seek (list_cursor three_entries) three_entries (list_cursor-CursorLaws three_entries)
      (new_iterator above_a) (98 ∷ 0 ∷ []) 4 4 three_entries-Sorted refl (omega arith) (omega arith)
      (omega arith)

drain-seek_out_example :
    drain
      (list_cursor three_entries)
      4
      4
      (seek (list_cursor three_entries) (98 ∷ 99 ∷ []) (new_iterator down_from_b))
    ≡ some []
unfolding out_of_range leveldown.Iterator.too_high new_iterator cmp
drain-seek_out_example =
    drain-seek_out (list_cursor three_entries) three_entries (list_cursor-CursorLaws three_entries)
      (new_iterator down_from_b) (98 ∷ 99 ∷ []) 4 4 first_entry _ refl refl (omega arith)
      (omega arith)

three_rows :
    drain (list_cursor three_entries) 4 4 (new_iterator above_a)
    ≡ some ((98 ∷ [], 2 ∷ 3 ∷ []) ∷ (98 ∷ 99 ∷ [], []) ∷ [])
unfolding drain iterator_next leveldown.Iterator.collect is_stuck leveldown.Iterator.read
    leveldown.Iterator.advance leveldown.Iterator.get_iterator new_iterator
    leveldown.Iterator.examine leveldown.Iterator.start_cursor leveldown.Iterator.start_forward cmp
    leveldown.Iterator.passes_limit accepts leveldown.Iterator.before_end
    leveldown.Iterator.below_upper leveldown.Iterator.above_lower leveldown.Iterator.bump
three_rows = refl

start_cursor-rows_example :
    rows above_a.reverse (
      (list_cursor-CursorLaws three_entries).position
        (start_cursor (list_cursor three_entries) above_a nowhere))
    ≡ filter (λ e. entered above_a e.key) (in_order above_a.reverse three_entries)
start_cursor-rows_example =
    start_cursor-rows (list_cursor three_entries) three_entries
      (list_cursor-CursorLaws three_entries) above_a nowhere above_a-Plain three_entries-Sorted

accepts-eq-kept_example : accepts above_a (98 ∷ []) ≡ kept above_a (98 ∷ [])
unfolding entered leveldown.Iterator.too_low cmp
accepts-eq-kept_example = accepts-eq-kept above_a (98 ∷ []) refl

abbrev small_rows : List Row
small_rows = (98 ∷ [], 2 ∷ 3 ∷ []) ∷ []

iterator_next-Returns_example :
    (fuel : ℕ) × (r : List Row × Bool × Iterator Position) × (iterator_next
        (list_cursor three_entries)
        fuel
        (new_iterator above_a)
      ≡ some r)
unfolding is_stuck new_iterator
iterator_next-Returns_example =
    iterator_next-Returns (list_cursor three_entries) three_entries
      (list_cursor-CursorLaws three_entries) (new_iterator above_a) refl
