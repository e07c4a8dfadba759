-- ===== src/Wrapper/Given.antt =====
-- What iterator.js gives for a new iterator, and after a seek.
use leveldown.Iterator.Target.{reached}
use leveldown.Base.{
  ◌+◌, ◌^◌, ◌&&◌, ℕ, zero, suc, ◌<◌, ◌≤◌, ◌≡◌, refl, ◌∙◌, ap, subst, ℤ, pos, negsuc, Bool, true,
  false, not, none, some, List, [], ◌∷◌, map, take, filter, length, length-filter, Sorted, arith,
  inr,
}
use leveldown.Bytes.{Bytes}
use leveldown.Value.{JsValue, V8, text}
use leveldown.Cursor.{Entry, CursorOps, CursorLaws}
use leveldown.Iterator.{Row, IteratorOptions, seek, out_of_range, get_iterator}
use leveldown.Iterator.Popped.{pair_of}
use leveldown.Iterator.Pending.{row_of}
use leveldown.Iterator.Range.{Plain, Before}
use leveldown.Iterator.Full.{drain, limited, selected, drain-new_iterator, length-in_order}
use leveldown.Iterator.Split.{in_order}
use leveldown.Iterator.Seeking.{selected_from, seek_keeps, drain-seek}
use leveldown.Lifecycle.{Handle, new_handle}
use leveldown.Wrapper.Reader.{JsIterator, new_reader, sought, js_seek}
use leveldown.Wrapper.Fetch.{IsResting}
use leveldown.Wrapper.Rows.{js_drain}
use leveldown.Wrapper.Whole.{Stands, js_drain-Stands}

length-take : {A : Type 0} (n : ℕ) (xs : List A) → length (take n xs) ≤ length xs
length-take zero xs = omega arith
length-take (suc n) [] = omega arith
length-take (suc n) (x ∷ xs) = omega (arith, length-take n xs)

length-limited :
    {A : Type 0} (limit : ℤ) (count : ℕ) (xs : List A) → length (limited limit count xs) ≤ length xs
length-limited (negsuc n) count xs = omega arith
length-limited (pos n) count xs = length-take _ xs

length-map : {A B : Type 0} (f : A → B) (xs : List A) → length (map f xs) ≡ length xs
length-map f [] = refl
length-map f (x ∷ xs) = ap suc (length-map f xs)

-- A selection is no longer than what it is made from.
length-chosen :
    (o : IteratorOptions) (count : ℕ) (p : Entry → Bool) (entries : List Entry)
    → length (limited o.limit count (filter p (in_order o.reverse entries))) ≤ length entries
length-chosen o count p entries = omega (
  arith,
  length-limited o.limit count (filter p (in_order o.reverse entries)),
  length-filter p (in_order o.reverse entries),
  length-in_order o.reverse entries,
)

module _ {C : Type 0} (ops : CursorOps C) where
  -- A reader with nothing cached whose binding is at rest.
  Stands-empty :
      (fuel calls : ℕ) (js : JsIterator C) (rest : List Row)
      → IsResting js.binding
      → js.cache ≡ none
      → js.finished ≡ false
      → drain ops calls fuel js.binding.iterator ≡ some rest
      → Stands ops fuel js.binding.iterator.key_as_buffer js.binding.iterator.value_as_buffer js []
          rest
  Stands-empty fuel calls js rest r c f e = record {
    resting = r;
    keys_as = refl;
    values_as = refl;
    rows_held = rw c refl;
    ahead = inr (f, (calls, e));
  }

  js_drain-empty :
      (fuel calls depth : ℕ) (js : JsIterator C) (keys values : Bool) (es : List Entry)
      → ((c : C) → ops.status_ok c ≡ true)
      → IsResting js.binding
      → js.cache ≡ none
      → js.finished ≡ false
      → drain ops calls fuel js.binding.iterator ≡ some (map (row_of keys values) es)
      → length es < calls
      → js_drain ops calls (suc (suc depth)) fuel js
        ≡ some (
            map
              (pair_of js.binding.iterator.key_as_buffer js.binding.iterator.value_as_buffer)
              (map (row_of keys values) es))
  js_drain-empty fuel calls depth js keys values es fine r c f e l =
      js_drain-Stands ops fuel calls depth js.binding.iterator.key_as_buffer
        js.binding.iterator.value_as_buffer js [] (map (row_of keys values) es) fine
        (Stands-empty fuel calls js (map (row_of keys values) es) r c f e)
        (omega (arith, length-map (row_of keys values) es))

  -- A reader that was sought.
  abbrev placed : Bytes → JsIterator C → JsIterator C
  placed t js = record js {
    cache = none;
    finished = false;
    binding = record js.binding { iterator = seek ops t js.binding.iterator };
  }

  sought_placed :
      (v8 : V8) (target : JsValue) (js js' : JsIterator C)
      → js_seek ops v8 target js ≡ sought js'
      → placed (text v8 target) js ≡ js'
  unfolding js_seek
  sought_placed v8 target js js' e = ground arith

module _ {C : Type 0} (ops : CursorOps C) (entries : List Entry)
    (laws : CursorLaws ops entries) where
  -- Over entries in the order of their keys and with cursors that report no error: `_next` is called on
  -- a new reader, whose options start from at most one kind of bound, until it reports the end, each
  -- read of the binding being executed and completed. The keys and values that its callbacks get, one
  -- of each at a call, are those of exactly the entries that `OutOfRange` does not refuse, in the
  -- direction of travel and within the limit, as buffers or strings as the options ask; with `keys` or
  -- `values` off, an empty buffer or string stands in place of every key or value. There are fewer than
  -- 2^31 entries, the range of the counter. More calls and loop rounds than there are entries are
  -- enough, and one call of `_next` by itself within each.
  pub js_drain-new_reader :
      (o : IteratorOptions) (id calls depth fuel : ℕ)
      → ((c : C) → ops.status_ok c ≡ true)
      → Plain o
      → Sorted Before entries
      → length entries < 2 ^ 31
      → length entries < calls
      → length entries < fuel
      → js_drain ops calls (suc (suc depth)) fuel (new_reader (new_handle o id))
        ≡ some (
            map
              (pair_of o.key_as_buffer o.value_as_buffer)
              (map (row_of o.keys o.values) (selected o 0 entries)))
  unfolding new_reader new_handle
  js_drain-new_reader o id calls depth fuel fine plain sorted small l k =
      js_drain-empty ops fuel calls depth (new_reader (new_handle o id)) o.keys o.values
        (selected o 0 entries) fine (refl, refl, refl) refl refl
        (drain-new_iterator ops entries laws o calls fuel plain sorted small l k)
        (omega (arith, l, length-chosen o 0 (λ e. not (out_of_range o e.key)) entries))

  seek-IsResting :
      (h : Handle C) (t : Bytes)
      → IsResting h
      → IsResting (record h { iterator = seek ops t h.iterator })
  unfolding seek get_iterator
  seek-IsResting h t r = ground arith

  -- Over entries in the order of their keys and with cursors that report no error: a reader whose
  -- binding has not ended and has no read in flight is sought, and the checks of `seek` let the target
  -- through, which is in range. Whatever rows were cached, fetched or finished before, the calls of
  -- `_next` that follow until one reports the end give the keys and values of exactly the entries in
  -- range that are at or beyond the target, in the direction of travel and within what the counter has
  -- left of the limit, as buffers or strings as the options ask; with `keys` or `values` off, an empty
  -- buffer or string stands in place of every key or value. The counter and the number of entries
  -- together are below 2^31, the range of the counter. More calls and loop rounds than there are
  -- entries are enough.
  pub js_drain-js_seek :
      (v8 : V8) (target : JsValue) (js js' : JsIterator C) (calls depth fuel : ℕ)
      → ((c : C) → ops.status_ok c ≡ true)
      → Sorted Before entries
      → IsResting js.binding
      → js_seek ops v8 target js ≡ sought js'
      → out_of_range js.binding.iterator.options (text v8 target) ≡ false
      → js.binding.iterator.count + length entries < 2 ^ 31
      → length entries < calls
      → length entries < fuel
      → js_drain ops calls (suc (suc depth)) fuel js'
        ≡ some (
            map (pair_of js.binding.iterator.key_as_buffer js.binding.iterator.value_as_buffer) (
              map (row_of js.binding.iterator.keys js.binding.iterator.values) (
                selected_from js.binding.iterator.options js.binding.iterator.count
                  (text v8 target)
                  entries)))
  js_drain-js_seek v8 target js js' calls depth fuel fine sorted r e inside small l k =
      let it = js.binding.iterator in
      let t = text v8 target in
      let o = it.options in
      let same = (seek_keeps ops entries laws it t).0 in
      let found = selected_from o it.count t entries in
      subst
        (λ x.
          js_drain ops calls (suc (suc depth)) fuel x
          ≡ some (
              map (pair_of it.key_as_buffer it.value_as_buffer)
                (map (row_of it.keys it.values) found)))
        (sought_placed ops v8 target js js' e)
        (js_drain-empty ops fuel calls depth (placed ops t js) it.keys it.values found fine
            (seek-IsResting js.binding t r) refl refl
            (drain-seek ops entries laws it t calls fuel sorted inside small l k)
            (omega (
              arith,
              l,
              length-chosen o it.count
                  (λ e. reached o.reverse t e.key && not (out_of_range o e.key)) entries,
            ))
          ∙ ap
              (λ (p : IteratorOptions). some (
                map (pair_of p.key_as_buffer p.value_as_buffer)
                  (map (row_of it.keys it.values) found)))
              same)
