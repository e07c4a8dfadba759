-- ===== src/Iterator/New.antt =====
-- `Iterator::New` of src/iterator.cc: the constructor's arguments from the options object.
use leveldown.Base.{
  ℕ, ◌-◌, ◌%◌, ◌^◌, ◌≡◌, refl, ℤ, pos, negsuc, Bool, true, false, not, ◌&&◌, ◌||◌, Option, none,
  some, arith, ltb, if◌then◌else◌, or_else, Option-cases, Bool-cases, inl, inr, ◌⊎◌, ◌==◌,
}
use Prim.Native.String.{String}
use leveldown.Bytes.{Bytes}
use leveldown.Value.{
  JsValue, V8, get, is_buffer, is_string, is_object, text, string_or_buffer_length,
  boolean_option_value,
}
use leveldown.Iterator.{IteratorOptions}
use leveldown.Iterator.Range.{
  Plain, forward_gt, forward_gte, forward_start, forward_all, reverse_lt, reverse_lte,
  reverse_start, reverse_all,
}

-- A 64-bit integer as an `int` and as a `size_t`.
unfoldable pub to_int : ℤ → ℤ
to_int n =
    let r : ℕ = elim n [ pos a ↦ a % 2 ^ 32 | negsuc a ↦ 2 ^ 32 - 1 - a % 2 ^ 32 ] in
    if ltb r (2 ^ 31) then pos r else negsuc (2 ^ 32 - 1 - r)

unfoldable pub to_size : ℤ → ℕ
to_size (pos a) = a % 2 ^ 64
to_size (negsuc a) = 2 ^ 64 - 1 - a % 2 ^ 64

module _ (v8 : V8) where
  -- A bound is a string or a buffer that is not empty; any other value is ignored.
  bound_value : JsValue → Option Bytes
  bound_value v =
      if (is_buffer v || is_string v) && not (string_or_buffer_length v8 v == 0)
      then some (text v8 v)
      else none

  unfoldable pub bound_option : Option JsValue → String → Option Bytes
  unfolding bound_value
  bound_option none key = none
  bound_option (some options) key = elim (get key options) [ none ↦ none | some v ↦ bound_value v ]

  unfoldable pub limit_option : Option JsValue → ℤ
  limit_option none = negsuc 0
  limit_option (some options) = elim (get "limit" options) [
    | none ↦ negsuc 0
    | some v ↦ to_int (v8.integer_value v)
  ]

  unfoldable pub high_water_mark_option : Option JsValue → ℕ
  high_water_mark_option none = 16384
  high_water_mark_option (some options) = elim (get "highWaterMark" options) [
    | none ↦ 16384
    | some v ↦ to_size (v8.integer_value v)
  ]

-- Each bound of the starting end replaces `start`, the later one winning.
unfoldable pub start_of :
    Bool → Option Bytes → Option Bytes → Option Bytes → Option Bytes → Option Bytes → Option Bytes
start_of reverse start lt lte gt gte =
    if reverse then or_else lte (or_else lt start) else or_else gte (or_else gt start)

unfoldable pub new_options : V8 → JsValue → IteratorOptions
new_options v8 argument =
    let options : Option JsValue = if is_object argument then some argument else none in
    let reverse = boolean_option_value v8 options "reverse" false in
    let lt = bound_option v8 options "lt" in
    let lte = bound_option v8 options "lte" in
    let gt = bound_option v8 options "gt" in
    let gte = bound_option v8 options "gte" in
    record {
      start = start_of reverse (bound_option v8 options "start") lt lte gt gte;
      end = bound_option v8 options "end";
      reverse = reverse;
      keys = boolean_option_value v8 options "keys" true;
      values = boolean_option_value v8 options "values" true;
      limit = limit_option v8 options;
      lt = lt;
      lte = lte;
      gt = gt;
      gte = gte;
      fill_cache = boolean_option_value v8 options "fillCache" false;
      key_as_buffer = boolean_option_value v8 options "keyAsBuffer" true;
      value_as_buffer = boolean_option_value v8 options "valueAsBuffer" true;
      high_water_mark = high_water_mark_option v8 options;
    }

-- The two bounds of the end that a scan starts from are not both given.
abbrev pub OneBound : IteratorOptions → Type 0
OneBound o = if o.reverse then (o.lt ≡ none) ⊎ (o.lte ≡ none) else (o.gt ≡ none) ⊎ (o.gte ≡ none)

Plain-start_of :
    (o : IteratorOptions) (s : Option Bytes)
    → o.start ≡ start_of o.reverse s o.lt o.lte o.gt o.gte
    → OneBound o
    → Plain o
unfolding start_of
Plain-start_of o s h u = elim (Bool-cases o.reverse) [
  | inl r ↦ reverse_cases r (rw r at u)
  | inr r ↦ forward_cases r (rw r at u)
]
  where
    forward_cases : o.reverse ≡ false → (o.gt ≡ none) ⊎ (o.gte ≡ none) → Plain o
    forward_cases r w = elim (Option-cases o.gte) [
      | inr (b, e) ↦ forward_gte b r (ground arith) e (ground arith)
      | inl e ↦ elim (Option-cases o.gt) [
        | inr (b, f) ↦ forward_gt b r f e (ground arith)
        | inl f ↦ elim (Option-cases s) [
          | inr (b, g) ↦ forward_start b r f e (ground arith)
          | inl g ↦ forward_all r f e (ground arith)
        ]
      ]
    ]

    reverse_cases : o.reverse ≡ true → (o.lt ≡ none) ⊎ (o.lte ≡ none) → Plain o
    reverse_cases r w = elim (Option-cases o.lte) [
      | inr (b, e) ↦ reverse_lte b r (ground arith) e (ground arith)
      | inl e ↦ elim (Option-cases o.lt) [
        | inr (b, f) ↦ reverse_lt b r f e (ground arith)
        | inl f ↦ elim (Option-cases s) [
          | inr (b, g) ↦ reverse_start b r f e (ground arith)
          | inl g ↦ reverse_all r f e (ground arith)
        ]
      ]
    ]

-- The options of any value, where the two bounds of the starting end are not both given, have
-- `start` in agreement with the bounds in one of the ways of `Plain`.
pub new_options-Plain :
    (v8 : V8) (argument : JsValue)
    → OneBound (new_options v8 argument)
    → Plain (new_options v8 argument)
unfolding new_options
new_options-Plain v8 argument u = Plain-start_of _ _ refl u
