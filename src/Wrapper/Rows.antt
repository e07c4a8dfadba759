-- ===== src/Wrapper/Rows.antt =====
-- The calls of `_next` of iterator.js, one after the other until one reports the end.
use mathlib.Core.Option
use leveldown.Base.{
  ℕ, zero, suc, ◌≡◌, refl, sym, ◌∙◌, ap, true, false, Option, none, some, List, [], ◌∷◌, ◌++◌,
  append_assoc,
}
use leveldown.Value.{JsValue}
use leveldown.Cursor.{CursorOps}
use leveldown.Iterator.Popped.{Pair}
use leveldown.Wrapper.Reader.{
  held, JsIterator, pop, has_rows, Reading, failed, row, at_end, pop_row, js_next, then_next,
  binding_next,
}

pop-snoc : (xs : List JsValue) (x : JsValue) → pop (xs ++ x ∷ []) ≡ (x, xs)
unfolding pop
pop-snoc [] x = refl
pop-snoc (y ∷ []) x = refl
pop-snoc (y ∷ z ∷ xs) x = ap (λ (p : JsValue × List JsValue). (p.0, y ∷ p.1)) (pop-snoc (z ∷ xs) x)

has_rows-nil : (cache : Option (List JsValue)) → held cache ≡ [] → has_rows cache ≡ false
unfolding has_rows
has_rows-nil none e = refl
has_rows-nil (some []) e = refl
has_rows-nil (some (x ∷ xs)) e = absurd (cc)

has_rows-snoc :
    (cache : Option (List JsValue)) (xs : List JsValue) (x : JsValue)
    → held cache ≡ xs ++ x ∷ []
    → has_rows cache ≡ true
unfolding has_rows
has_rows-snoc none [] x e = absurd (cc)
has_rows-snoc none (y ∷ xs) x e = absurd (cc)
has_rows-snoc (some []) [] x e = absurd (cc)
has_rows-snoc (some []) (y ∷ xs) x e = absurd (cc)
has_rows-snoc (some (z ∷ zs)) xs x e = refl

module _ {C : Type 0} (ops : CursorOps C) where
  abbrev pub then_row :
      (JsIterator C → Option (List Pair)) → Option (Reading × JsIterator C) → Option (List Pair)
  then_row next none = none
  then_row next (some (failed, js)) = none
  then_row next (some (at_end, js)) = some []
  then_row next (some (row key value, js)) = Option.map (λ rest. (key, value) ∷ rest) (next js)

  -- The calls until one reports the end, and their keys and values.
  unfoldable pub js_drain : ℕ → ℕ → ℕ → JsIterator C → Option (List Pair)
  js_drain zero depth fuel js = none
  js_drain (suc calls) depth fuel js =
      then_row (js_drain calls depth fuel) (js_next ops depth fuel js)

  -- A row that is cached is popped.
  pub js_next-cached :
      (depth fuel : ℕ) (js : JsIterator C) (xs : List JsValue) (value key : JsValue)
      → held js.cache ≡ xs ++ value ∷ key ∷ []
      → js_next ops (suc depth) fuel js ≡ some (row key value, record js { cache = some xs })
  unfolding js_next pop_row
  js_next-cached depth fuel js xs value key e =
      let e' = e ∙ sym (append_assoc xs (value ∷ []) (key ∷ [])) in
      rw (js_next, has_rows-snoc js.cache (xs ++ value ∷ []) key e', e')
        (rw (pop-snoc (xs ++ value ∷ []) key) (rw (pop-snoc xs value) refl))

  -- With nothing cached and the last array fetched, the end is reported.
  pub js_next-over :
      (depth fuel : ℕ) (js : JsIterator C)
      → held js.cache ≡ []
      → js.finished ≡ true
      → js_next ops (suc depth) fuel js ≡ some (at_end, js)
  unfolding js_next
  js_next-over depth fuel js e f = simp (js_next, has_rows-nil js.cache e, f)

  -- Otherwise another array is fetched.
  pub js_next-fetched :
      (depth fuel : ℕ) (js : JsIterator C)
      → held js.cache ≡ []
      → js.finished ≡ false
      → js_next ops (suc depth) fuel js
        ≡ then_next (js_next ops depth fuel) js (binding_next ops fuel js.binding)
  unfolding js_next
  js_next-fetched depth fuel js e f = simp (js_next, has_rows-nil js.cache e, f)
