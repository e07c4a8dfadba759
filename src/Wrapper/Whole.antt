-- ===== src/Wrapper/Whole.antt =====
-- What the calls of `_next` of iterator.js bring together, from any state between two calls.
use mathlib.Core.Option
use leveldown.Base.{
  append-nil, ℕ, zero, suc, ◌<◌, ◌≡◌, refl, sym, ◌∙◌, ap, Bool, true, false, not, Option, none,
  some, some_inj, List, [], ◌∷◌, ◌++◌, map, length, arith, inl, inr, ◌⊎◌, Option-cases,
}
use leveldown.Cursor.{CursorOps}
use leveldown.Iterator.{Row, Iterator, iterator_next}
use leveldown.Iterator.Result.{to_value, flipped, result_array, result_array-flipped}
use leveldown.Iterator.Popped.{pair_of}
use leveldown.Iterator.Full.{drain, then_rest}
use leveldown.Wrapper.Reader.{JsIterator, held, Reading, row, at_end, js_next, then_next}
use leveldown.Wrapper.Flags.{drain-flagged, iterator_next-Fair}
use leveldown.Wrapper.Fetch.{IsResting, rested, binding_next-runs, rested-IsResting}
use leveldown.Wrapper.Rows.{js_drain, js_next-cached, js_next-over, js_next-fetched}

module _ {C : Type 0} (ops : CursorOps C) (fuel : ℕ) where
  -- The rows that the binding has yet to give.
  abbrev pub Ahead : JsIterator C → List Row → Type 0
  Ahead js rest =
      (js.finished ≡ true) × (rest ≡ [])
      ⊎ (js.finished ≡ false)
        × ((calls : ℕ) × (drain ops calls fuel js.binding.iterator ≡ some rest))

  -- Between two calls, with the rows `cached` fetched and the rows `rest` to be fetched.
  pub record Stands (kb vb : Bool) (js : JsIterator C) (cached rest : List Row) : Type 0 where
    pub resting : IsResting js.binding
    pub keys_as : js.binding.iterator.key_as_buffer ≡ kb
    pub values_as : js.binding.iterator.value_as_buffer ≡ vb
    pub rows_held : held js.cache ≡ flipped kb vb cached
    pub ahead : Ahead js rest

  Stands-popped :
      (kb vb : Bool) (js : JsIterator C) (r : Row) (cached rest : List Row)
      → Stands kb vb js (r ∷ cached) rest
      → Stands kb vb (record js { cache = some (flipped kb vb cached) }) cached rest
  Stands-popped kb vb js r cached rest s = record {
    resting = s.resting;
    keys_as = s.keys_as;
    values_as = s.values_as;
    rows_held = refl;
    ahead = s.ahead;
  }

  -- What one call of the binding leaves.
  abbrev after_fetch : JsIterator C → List Row → Bool → Iterator C → JsIterator C
  after_fetch js got more it = record js {
    binding = rested js.binding it;
    cache =
        some
          (result_array js.binding.iterator.key_as_buffer js.binding.iterator.value_as_buffer got);
    finished = not more;
  }

  fetched_ahead :
      (js : JsIterator C) (got rest : List Row) (more : Bool) (it : Iterator C) (calls : ℕ)
      → then_rest ops (drain ops calls fuel) (some (got, more, it)) ≡ some rest
      → (rest' : List Row) × (rest ≡ got ++ rest') × Ahead (after_fetch js got more it) rest'
  unfolding then_rest
  fetched_ahead js got rest false it calls e =
      ([], sym (some_inj e) ∙ sym (append-nil got), inl (refl, refl))
  fetched_ahead js got rest true it calls e = elim (Option-cases (drain ops calls fuel it)) [
    | inl n ↦ absurd (ground arith)
    | inr (rest', n) ↦ (
      rest',
      sym (some_inj (rw n at e)),
      inr (refl, (calls, drain-flagged ops false none calls fuel it ∙ n)),
    )
  ]

  -- A call gives the next row, or reports the end where there is none.
  abbrev Gives : Bool → Bool → List Row → Option (Reading × JsIterator C) → Type 0
  Gives kb vb all outcome =
      (all ≡ []) × ((js' : JsIterator C) × (outcome ≡ some (at_end, js')))
      ⊎ (r : Row) × (cached : List Row) × (rest : List Row) × (js' : JsIterator C) × (all
          ≡ r ∷ (cached ++ rest))
        × (outcome ≡ some (row (to_value kb r.0) (to_value vb r.1), js'))
        × Stands kb vb js' cached rest

  call_cached :
      (depth : ℕ) (kb vb : Bool) (js : JsIterator C) (r : Row) (cached rest : List Row)
      → Stands kb vb js (r ∷ cached) rest
      → Gives kb vb (r ∷ (cached ++ rest)) (js_next ops (suc depth) fuel js)
  call_cached depth kb vb js r cached rest s = inr (
    r,
    cached,
    rest,
    record js { cache = some (flipped kb vb cached) },
    refl,
    js_next-cached ops depth fuel js (flipped kb vb cached) (to_value vb r.1) (to_value kb r.0)
        s.rows_held,
    Stands-popped kb vb js r cached rest s,
  )

  call_over :
      (depth : ℕ) (kb vb : Bool) (js : JsIterator C) (rest : List Row)
      → Stands kb vb js [] rest
      → js.finished ≡ true
      → rest ≡ []
      → Gives kb vb rest (js_next ops (suc depth) fuel js)
  call_over depth kb vb js rest s f e = inl (e, (js, js_next-over ops depth fuel js s.rows_held f))

  Stands-fetched :
      (kb vb : Bool) (js : JsIterator C) (cached rest got rest' : List Row) (more : Bool)
      (it : Iterator C)
      → Stands kb vb js cached rest
      → iterator_next ops fuel js.binding.iterator ≡ some (got, more, it)
      → Ahead (after_fetch js got more it) rest'
      → Stands kb vb (after_fetch js got more it) got rest'
  Stands-fetched kb vb js cached rest got rest' more it s e ahead =
      let kept : it.options ≡ js.binding.iterator.options =
        (rw e at (iterator_next-Fair ops fuel js.binding.iterator)).0 in
      record {
        resting = rested-IsResting ops fuel js.binding got more it s.resting e;
        keys_as = ap (λ o. o.key_as_buffer) kept ∙ s.keys_as;
        values_as = ap (λ o. o.value_as_buffer) kept ∙ s.values_as;
        rows_held = rw (s.keys_as, s.values_as) (result_array-flipped kb vb got);
        ahead = ahead;
      }

  -- What an array that was fetched leads to.
  call_after :
      (depth : ℕ) (kb vb : Bool) (js : JsIterator C) (cached rest : List Row)
      → Stands kb vb js cached rest
      → (cached ≡ [] → js.finished ≡ true)
      → Gives kb vb (cached ++ rest) (js_next ops (suc depth) fuel js)
  call_after depth kb vb js [] rest s f = call_over depth kb vb js rest s (f refl) (elim s.ahead [
    | inl (e, none_left) ↦ none_left
    | inr (e, more) ↦ absurd (ground (arith, f refl))
  ])
  call_after depth kb vb js (r ∷ cached) rest s f = call_cached depth kb vb js r cached rest s

  then_fetch :
      (depth : ℕ) (js : JsIterator C) (got : List Row) (more : Bool) (it : Iterator C)
      → ((c : C) → ops.status_ok c ≡ true)
      → IsResting js.binding
      → held js.cache ≡ []
      → js.finished ≡ false
      → iterator_next ops fuel js.binding.iterator ≡ some (got, more, it)
      → js_next ops (suc depth) fuel js ≡ js_next ops depth fuel (after_fetch js got more it)
  unfolding then_next
  then_fetch depth js got more it fine r h f e =
      js_next-fetched ops depth fuel js h f
      ∙ ap (then_next (js_next ops depth fuel) js)
          (binding_next-runs ops fuel js.binding got more it fine r e)

  call_fetched :
      (depth calls : ℕ) (kb vb : Bool) (js : JsIterator C) (rest got : List Row) (more : Bool)
      (it : Iterator C)
      → ((c : C) → ops.status_ok c ≡ true)
      → Stands kb vb js [] rest
      → js.finished ≡ false
      → iterator_next ops fuel js.binding.iterator ≡ some (got, more, it)
      → then_rest ops (drain ops calls fuel) (some (got, more, it)) ≡ some rest
      → Gives kb vb rest (js_next ops (suc (suc depth)) fuel js)
  call_fetched depth calls kb vb js rest got more it fine s f e d =
      let (rest', same, ahead) = fetched_ahead js got rest more it calls d in
      let s' = Stands-fetched kb vb js [] rest got rest' more it s e ahead in
      let last : got ≡ [] → more ≡ false =
        (rw e at (iterator_next-Fair ops fuel js.binding.iterator)).1 in
      rw (same, then_fetch (suc depth) js got more it fine s.resting s.rows_held f e)
        (call_after depth kb vb (after_fetch js got more it) got rest' s' (λ n. ap not (last n)))

  call_ahead :
      (depth calls : ℕ) (kb vb : Bool) (js : JsIterator C) (rest : List Row)
      → ((c : C) → ops.status_ok c ≡ true)
      → Stands kb vb js [] rest
      → js.finished ≡ false
      → drain ops calls fuel js.binding.iterator ≡ some rest
      → Gives kb vb rest (js_next ops (suc (suc depth)) fuel js)
  unfolding drain then_rest
  call_ahead depth zero kb vb js rest fine s f d = absurd (cc)
  call_ahead depth (suc calls) kb vb js rest fine s f d =
      elim (Option-cases (iterator_next ops fuel js.binding.iterator)) [
        | inl n ↦ absurd (ground (arith, rw (drain, n) at d))
        | inr ((got, more, it), n) ↦
            call_fetched depth calls kb vb js rest got more it fine s f n (rw (drain, n) at d)
      ]

  one_call :
      (depth : ℕ) (kb vb : Bool) (js : JsIterator C) (cached rest : List Row)
      → ((c : C) → ops.status_ok c ≡ true)
      → Stands kb vb js cached rest
      → Gives kb vb (cached ++ rest) (js_next ops (suc (suc depth)) fuel js)
  one_call depth kb vb js [] rest fine s = elim s.ahead [
    | inl (f, e) ↦ call_over (suc depth) kb vb js rest s f e
    | inr (f, (calls, e)) ↦ call_ahead depth calls kb vb js rest fine s f e
  ]
  one_call depth kb vb js (r ∷ cached) rest fine s =
      call_cached (suc depth) kb vb js r cached rest s

  -- From between two calls, more calls than there are rows left bring all of them.
  pub js_drain-Stands :
      (calls depth : ℕ) (kb vb : Bool) (js : JsIterator C) (cached rest : List Row)
      → ((c : C) → ops.status_ok c ≡ true)
      → Stands kb vb js cached rest
      → length (cached ++ rest) < calls
      → js_drain ops calls (suc (suc depth)) fuel js ≡ some (map (pair_of kb vb) (cached ++ rest))
  unfolding js_drain
  js_drain-Stands zero depth kb vb js cached rest fine s l = absurd (omega arith)
  js_drain-Stands (suc calls) depth kb vb js cached rest fine s l =
      elim (one_call depth kb vb js cached rest fine s) [
        | inl (e, (js', n)) ↦ rw (js_drain, n, e) refl
        | inr (r, cached', rest', js', e, n, s') ↦
            let fewer : length (cached' ++ rest') < calls = omega (arith, ap length e) in
            rw (js_drain, n, e)
              (ap (Option.map (λ xs. (to_value kb r.0, to_value vb r.1) ∷ xs))
                (js_drain-Stands calls depth kb vb js' cached' rest' fine s' fewer))
      ]
