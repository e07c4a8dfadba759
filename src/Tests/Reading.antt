-- ===== src/Tests/Reading.antt =====
-- The reader of iterator.js over three entries, and the checks of leveldown.js.
use leveldown.Base.{refl, true, false, some, none, [], ◌∷◌, arith, map, ◌≡◌}
use leveldown.Bytes.{cmp}
use leveldown.Value.{JsValue, string, text}
use leveldown.Cursor.{Position}
use leveldown.Cursor.Sample.{list_cursor, list_cursor-CursorLaws}
use leveldown.Iterator.{out_of_range, seek, new_iterator}
use leveldown.Iterator.Full.{selected}
use leveldown.Iterator.Seeking.{selected_from}
use leveldown.Iterator.Pending.{row_of}
use leveldown.Iterator.Popped.{pair_of}
use leveldown.Lifecycle.{new_handle}
use leveldown.Wrapper.Reader.{JsIterator, new_reader, js_seek}
use leveldown.Wrapper.Rows.{js_drain}
use leveldown.Wrapper.Given.{js_drain-new_reader, js_drain-js_seek}
use leveldown.Tests.Iteration.{three_entries, three_entries-Sorted, above_a, above_a-Plain}
use leveldown.Tests.Values.{plain_v8}

js_drain-new_reader_example :
    js_drain (list_cursor three_entries) 4 2 4 (new_reader (new_handle above_a 0))
    ≡ some (map (pair_of true true) (map (row_of true true) (selected above_a 0 three_entries)))
js_drain-new_reader_example =
    js_drain-new_reader (list_cursor three_entries) three_entries
      (list_cursor-CursorLaws three_entries) above_a 0 4 0 4 (λ c. refl) above_a-Plain
      three_entries-Sorted (omega arith) (omega arith) (omega arith)

-- A reader that has fetched all rows and popped some of them.
abbrev half_read : JsIterator Position
half_read = record {
  binding = new_handle above_a 0;
  cache = some (string [] ∷ string (98 ∷ []) ∷ []);
  finished = true;
  is_ended = false;
  is_nexting = false;
}

abbrev read_again : JsIterator Position
read_again = record half_read {
  binding = record half_read.binding {
    iterator = seek (list_cursor three_entries) (98 ∷ 0 ∷ []) half_read.binding.iterator;
  };
  cache = none;
  finished = false;
}

js_drain-js_seek_example :
    js_drain (list_cursor three_entries) 4 2 4 read_again
    ≡ some (
        map
          (pair_of true true)
          (map (row_of true true) (selected_from above_a 0 (98 ∷ 0 ∷ []) three_entries)))
unfolding out_of_range leveldown.Iterator.too_high new_iterator leveldown.Iterator.past_end
    leveldown.Iterator.too_low cmp new_handle js_seek text leveldown.Value.is_string
js_drain-js_seek_example =
    js_drain-js_seek (list_cursor three_entries) three_entries
      (list_cursor-CursorLaws three_entries) plain_v8 (string (98 ∷ 0 ∷ [])) half_read read_again 4
      0 4 (λ c. refl) three_entries-Sorted (refl, refl, refl) refl refl (omega arith) (omega arith)
      (omega arith)
