-- ===== src/Iterator/Result.antt =====
-- The array that `NextSync` and `NextWorker::HandleOKCallback` build from the rows, and how
-- iterator.js takes it apart.
use leveldown.Base.{
  ℕ, suc, ◌+◌, ◌-◌, ◌*◌, ◌≡◌, refl, sym, ◌∙◌, ap, Bool, List, [], ◌∷◌, ◌++◌, map, arith, length,
  append-nil, append_assoc, if◌then◌else◌, rev_append, set, replicate, replicate-suc,
  length-replicate, rev_append-append,
}
use leveldown.Bytes.{Bytes}
use leveldown.Value.{JsValue, undefined, string, buffer}
use leveldown.Iterator.{Row}

-- `CopyBuffer` or `New<v8::String>`.
unfoldable pub to_value : Bool → Bytes → JsValue
to_value as_buffer bytes = if as_buffer then buffer bytes else string bytes

-- The loop over the rows, from `idx` on: the row's key and value go to the end of what is left.
unfoldable pub fill : Bool → Bool → ℕ → ℕ → List Row → List JsValue → List JsValue
unfolding to_value
fill kb vb array_size idx [] out = out
fill kb vb array_size idx ((key, value) ∷ rows) out = fill kb vb array_size (idx + 1) rows (
    set (set out (array_size - idx * 2 - 1) (to_value kb key)) (array_size - idx * 2 - 2)
      (to_value vb value))

unfoldable pub result_array : Bool → Bool → List Row → List JsValue
unfolding fill
result_array kb vb rows =
    let array_size = length rows * 2 in
    fill kb vb array_size 0 rows (replicate array_size undefined)

-- `_next` pops a key and then a value, until the cache is empty.
unfoldable pub pairs : List JsValue → List (JsValue × JsValue)
pairs [] = []
pairs (key ∷ []) = []
pairs (key ∷ value ∷ rest) = (key, value) ∷ pairs rest

unfoldable pub popped : List JsValue → List (JsValue × JsValue)
unfolding pairs
popped cache = pairs (rev_append cache [])

-- The rows from the last to the first, each with its value before its key.
abbrev pub flipped : Bool → Bool → List Row → List JsValue
flipped kb vb [] = []
flipped kb vb ((key, value) ∷ rows) = flipped kb vb rows ++ to_value vb value ∷ to_value kb key ∷ []

set_two :
    (xs ys : List JsValue) (i j : ℕ) (a b k v : JsValue)
    → i ≡ suc (length xs)
    → j ≡ length xs
    → set (set (xs ++ a ∷ b ∷ ys) i k) j v ≡ xs ++ v ∷ k ∷ ys
set_two [] ys i j a b k v e f = rw (e, f) refl
set_two (x ∷ xs) ys i j a b k v e f =
    rw (e, f) (ap (◌∷◌ x) (set_two xs ys (suc (length xs)) (length xs) a b k v refl refl))

replicate_two :
    (n : ℕ) (u : JsValue) (done : List JsValue)
    → replicate (suc n * 2) u ++ done ≡ replicate (n * 2) u ++ u ∷ u ∷ done
replicate_two n u done =
    let e : suc n * 2 ≡ suc (suc (n * 2)) = omega arith in
    rw e (replicate-suc (suc (n * 2)) u done ∙ replicate-suc (n * 2) u (u ∷ done))

fill_lem :
    (kb vb : Bool) (size idx : ℕ) (rows : List Row) (done : List JsValue)
    → size ≡ (idx + length rows) * 2
    → fill kb vb size idx rows (replicate (length rows * 2) undefined ++ done)
      ≡ flipped kb vb rows ++ done
unfolding fill
fill_lem kb vb size idx [] done h = refl
fill_lem kb vb size idx ((key, value) ∷ rows) done h =
    let n = length rows in
    let empty = replicate (n * 2) undefined in
    let len : length empty ≡ n * 2 = length-replicate (n * 2) undefined in
    let k = to_value kb key in
    let v = to_value vb value in
    rw (replicate_two n undefined done) (
      rw
        (set_two empty done (size - idx * 2 - 1) (size - idx * 2 - 2) undefined undefined k v
          (omega (arith, len)) (omega (arith, len)))
        (fill_lem kb vb size (idx + 1) rows (v ∷ k ∷ done) (omega arith)
          ∙ sym (append_assoc (flipped kb vb rows) (v ∷ k ∷ []) done)))

popped_flipped :
    (kb vb : Bool) (rows : List Row)
    → pairs (rev_append (flipped kb vb rows) [])
      ≡ map (λ row. (to_value kb row.0, to_value vb row.1)) rows
unfolding pairs
popped_flipped kb vb [] = refl
popped_flipped kb vb ((key, value) ∷ rows) =
    rw (rev_append-append (flipped kb vb rows) (to_value vb value ∷ to_value kb key ∷ []) [])
      (ap (◌∷◌ (to_value kb key, to_value vb value)) (popped_flipped kb vb rows))

pub result_array-flipped :
    (kb vb : Bool) (rows : List Row) → result_array kb vb rows ≡ flipped kb vb rows
unfolding result_array
result_array-flipped kb vb rows =
    let filled = fill_lem kb vb (length rows * 2) 0 rows [] (omega arith) in
    rw (append-nil (replicate (length rows * 2) undefined), append-nil (flipped kb vb rows)) at
      filled

-- What the caller pops from the array is the rows in their order, each key and value in the form
-- that the options ask for.
pub popped-result_array :
    (kb vb : Bool) (rows : List Row)
    → popped (result_array kb vb rows) ≡ map (λ row. (to_value kb row.0, to_value vb row.1)) rows
unfolding popped
popped-result_array kb vb rows = rw (result_array-flipped kb vb rows) (popped_flipped kb vb rows)
