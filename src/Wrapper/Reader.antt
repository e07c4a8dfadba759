-- ===== src/Wrapper/Reader.antt =====
-- `Iterator` of iterator.js: rows are fetched in arrays, and popped from a cache one at a time.
use leveldown.Base.{
  ℕ, zero, suc, Bool, true, false, ◌||◌, Option, none, some, List, [], ◌∷◌, if◌then◌else◌,
}
use leveldown.Bytes.{Bytes}
use leveldown.Value.{JsValue, undefined, V8, is_string, is_buffer, text}
use leveldown.Cursor.{CursorOps}
use leveldown.Iterator.{seek}
use leveldown.Iterator.Result.{result_array}
use leveldown.Iterator.{Row}
use leveldown.Lifecycle.{executed, Handle, next, next_execute, next_complete, end}

-- `binding` is the native object. `is_ended` and `is_nexting` are the fields `_ended` and `_nexting`
-- that the base class keeps.
pub record JsIterator (C : Type 0) : Type 0 where
  pub binding : Handle C
  pub cache : Option (List JsValue)
  pub finished : Bool
  pub is_ended : Bool
  pub is_nexting : Bool

-- `Array.prototype.pop`: the last element, and the array without it.
unfoldable pub pop : List JsValue → JsValue × List JsValue
pop [] = (undefined, [])
pop (x ∷ []) = (x, [])
pop (x ∷ y ∷ rest) = let (last, front) = pop (y ∷ rest) in (last, x ∷ front)

-- `this.cache && this.cache.length`
unfoldable pub has_rows : Option (List JsValue) → Bool
has_rows none = false
has_rows (some []) = false
has_rows (some (x ∷ rest)) = true

-- The elements of the cache.
abbrev pub held : Option (List JsValue) → List JsValue
held none = []
held (some array) = array

-- What the callback of `binding.next` gets: an error, or an array and whether it is the last one.
pub data Answer : Type 0 where
  refused : Answer
  answered : List JsValue → Bool → Answer

-- What the callback of `_next` gets.
pub data Reading : Type 0 where
  failed : Reading
  row : JsValue → JsValue → Reading
  at_end : Reading

module _ {C : Type 0} where
  unfoldable pub new_reader : Handle C → JsIterator C
  new_reader h = record {
    binding = h;
    cache = none;
    finished = false;
    is_ended = false;
    is_nexting = false;
  }

  -- The completion of a read that was executed, with whether its status is ok.
  unfoldable pub completed : Handle C → Bool × Handle C
  completed h = elim h.next_work [ executed ok ↦ (ok, next_complete ok h) | other ↦ (false, h) ]

  unfoldable pub pop_row : JsIterator C → List JsValue → Reading × JsIterator C
  pop_row js array =
      let (key, rest) = pop array in
      let (value, rest') = pop rest in (row key value, record js { cache = some rest' })

  -- `Iterator.prototype._end`.
  unfoldable pub js_end : JsIterator C → JsIterator C
  js_end js = record js { cache = none; binding = end js.binding }

-- `LD_STRING_OR_BUFFER_TO_COPY` and the checks of `Iterator.prototype.seek`.
pub data SeekOutcome (C : Type 0) : Type 0 where
  after_end while_nexting no_key empty_key : SeekOutcome C
  sought : JsIterator C → SeekOutcome C

abbrev is_empty : Bytes → Bool
is_empty [] = true
is_empty (b ∷ rest) = false

module _ {C : Type 0} where
  -- The arguments of the callback, once the worker has been executed.
  unfoldable pub fetched : Option (Handle C × List Row × Bool) → Option (Answer × Handle C)
  unfolding completed
  fetched none = none
  fetched (some (read, got, done)) =
      let (ok, h) = completed read in
      some (
        if ok
            then answered (result_array h.iterator.key_as_buffer h.iterator.value_as_buffer got)
                done
            else refused,
        h,
      )

module _ {C : Type 0} where
  -- The callback that `_next` hands to the binding.
  unfoldable pub then_next :
      (JsIterator C → Option (Reading × JsIterator C))
      → JsIterator C
      → Option (Answer × Handle C)
      → Option (Reading × JsIterator C)
  then_next again js none = none
  then_next again js (some (refused, h)) = some (failed, record js { binding = h })
  then_next again js (some (answered array done, h)) =
      again (record js { binding = h; cache = some array; finished = done })

module _ {C : Type 0} (ops : CursorOps C) where
  -- `binding.next` with its worker executed and completed.
  unfoldable pub binding_next : ℕ → Handle C → Option (Answer × Handle C)
  unfolding fetched
  binding_next fuel h =
      let (begun, accepted) = next h in
      if accepted then fetched (next_execute ops fuel begun) else some (refused, begun)

  -- `Iterator.prototype._next`, with a bound on how often it calls itself.
  unfoldable pub js_next : ℕ → ℕ → JsIterator C → Option (Reading × JsIterator C)
  unfolding has_rows pop_row then_next
  js_next zero fuel js = none
  js_next (suc depth) fuel js = elim (has_rows js.cache) [
    | true ↦ some (pop_row js (held js.cache))
    | false ↦ elim js.finished [
      | true ↦ some (at_end, js)
      | false ↦ then_next (js_next depth fuel) js (binding_next fuel js.binding)
    ]
  ]

  -- `Iterator.prototype.seek`.
  unfoldable pub js_seek : V8 → JsValue → JsIterator C → SeekOutcome C
  js_seek v8 target js =
      if js.is_ended
      then after_end
      else if js.is_nexting
      then while_nexting
      else elim (is_string target || is_buffer target) [
        | false ↦ no_key
        | true ↦
            if is_empty (text v8 target)
            then empty_key
            else sought (record js {
              cache = none;
              finished = false;
              binding = record js.binding {
                iterator = seek ops (text v8 target) js.binding.iterator;
              };
            })
      ]
