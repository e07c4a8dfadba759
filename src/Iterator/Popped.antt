-- ===== src/Iterator/Popped.antt =====
-- What JavaScript gets for a row: the key and the value as src/iterator_async.cc puts them into the
-- array of a call, which iterator.js pops.
use leveldown.Base.{Bool}
use leveldown.Value.{JsValue}
use leveldown.Iterator.{Row}
use leveldown.Iterator.Result.{to_value}

abbrev pub Pair : Type 0
Pair = JsValue × JsValue

-- A row in the form that the options ask for.
abbrev pub pair_of : Bool → Bool → Row → Pair
pair_of kb vb row = (to_value kb row.0, to_value vb row.1)
