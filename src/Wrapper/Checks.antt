-- ===== src/Wrapper/Checks.antt =====
-- The checks that leveldown.js makes before `binding.destroy` and `binding.repair`, and before
-- `binding.getProperty`.
use Prim.Native.String.{String}
use leveldown.Base.{
  ap, sym, ◌+◌, ◌≡◌, refl, true, not, Option, none, some, List, ◌∷◌, if◌then◌else◌, arith, ltb,
  length, inl, inr, ◌⊎◌, Bool-cases,
}
use leveldown.Bytes.{Bytes}
use leveldown.Value.{
  JsValue, string, V8, V8Laws, is_string, is_function, text, is_null_or_undefined, is_buffer,
}
use leveldown.Value.Memory.{Heap, string_or_buffer_to_slice, delete_array, remove, block}
use leveldown.Store.LevelDb.{LevelDb}
use leveldown.Store.Calls.{State, argument, ◌>>=◌}
use leveldown.Store.Workers.{get_property}
use leveldown.Store.Locations.{
  LocationMethod, destroy_method, repair_method, LocationWorker, call_of, call_of_lem,
}

-- An exception, a queued worker, or the cast of a value that is no function.
pub data Checked : Type 0 where
  thrown : String → Checked
  queued : LocationWorker → Heap → Checked
  undefined_cast : Checked

no_arguments : LocationMethod → String
no_arguments destroy_method = "destroy() requires `location` and `callback` arguments"
no_arguments repair_method = "repair() requires `location` and `callback` arguments"

no_location : LocationMethod → String
no_location destroy_method = "destroy() requires a location string argument"
no_location repair_method = "repair() requires a location string argument"

no_callback : LocationMethod → String
no_callback destroy_method = "destroy() requires a callback function argument"
no_callback repair_method = "repair() requires a callback function argument"

unfoldable pub given : Option (LocationWorker × Heap) → Checked
given none = undefined_cast
given (some (w, h)) = queued w h

-- `LevelDOWN.destroy` and `LevelDOWN.repair`.
unfoldable pub js_location : LocationMethod → V8 → List JsValue → Heap → Checked
unfolding no_arguments no_location no_callback given
js_location m v8 args h =
    if ltb (length args) 2
    then thrown (no_arguments m)
    else if not (is_string (argument args 0))
    then thrown (no_location m)
    else if not (is_function (argument args 1))
    then thrown (no_callback m)
    else given (call_of m v8 args h)

module _ {D B : Type 0} (v8 : V8) (leveldb : LevelDb D B) where
  -- `LevelDOWN.prototype.getProperty`: no result for the exception.
  unfoldable pub js_get_property : List JsValue → State D → Option (Option (JsValue × State D))
  js_get_property args s =
      if not (is_string (argument args 0)) then none else some (get_property v8 leveldb args s)

string_of : (v : JsValue) → is_string v ≡ true → (s : Bytes) × (v ≡ string s)
unfolding is_string
string_of (string s) e = (s, refl)
string_of v e = absurd (cc)

utf8_of_string :
    (v8 : V8) → V8Laws v8 → (v : JsValue) → is_string v ≡ true → v ≡ string (v8.to_utf8 v)
utf8_of_string v8 laws v e =
    let (s, same) = string_of v e in rw same (ap string (sym (laws.to_utf8_lem s)))

-- What the checks of destroy and repair let through: a worker for the text of the location that was
-- given.
abbrev Passes : LocationMethod → List JsValue → Checked → Type 0
Passes m args (thrown text) = Unit
Passes m args (queued w h) = (argument args 0 ≡ string w.location) × (w.method ≡ m)
Passes m args undefined_cast = ⊥

-- Whatever the arguments of `LevelDOWN.destroy` and `LevelDOWN.repair`: they throw, or they queue a
-- worker of the method for exactly the string that is the first argument; the binding's cast of the
-- callback is never reached with a value that is no function.
pub js_location-Passes :
    (m : LocationMethod) (v8 : V8) (args : List JsValue) (h : Heap)
    → V8Laws v8
    → Passes m args (js_location m v8 args h)
unfolding js_location given
js_location-Passes m v8 args h laws = elim (Bool-cases (ltb (length args) 2)) [
  | inl few ↦ rw (js_location, few) tt
  | inr enough ↦ elim (Bool-cases (is_string (argument args 0))) [
    | inr other ↦ rw (js_location, enough, other) tt
    | inl text ↦ elim (Bool-cases (is_function (argument args 1))) [
      | inr other ↦ rw (js_location, enough, text, other) tt
      | inl callback ↦
          rw (js_location, enough, text, callback, call_of_lem v8 m args h callback)
            (utf8_of_string v8 laws (argument args 0) text, refl)
    ]
  ]
]

slice_of_string :
    (v8 : V8) (v : JsValue) (h : Heap)
    → is_string v ≡ true
    → string_or_buffer_to_slice v8 v h ≡ (
      record { bytes = text v8 v; storage = block h.next },
      record { live = h.next ∷ h.live; next = h.next + 1 },
    )
unfolding string_or_buffer_to_slice text is_null_or_undefined is_buffer
slice_of_string v8 v h e = let (s, same) = string_of v e in rw same refl

module _ {D B : Type 0} (v8 : V8) (leveldb : LevelDb D B) where
  property_freed :
      (args : List JsValue) (s : State D) (d : D)
      → s.db ≡ some d
      → is_string (argument args 0) ≡ true
      → get_property v8 leveldb args s
        ≡ some (
          string (leveldb.get_property (text v8 (argument args 0)) d),
          record s { heap = record { live = s.heap.live; next = s.heap.next + 1 } },
        )
  unfolding get_property delete_array
  property_freed args s d e quoted =
      let found : remove s.heap.next (s.heap.next ∷ s.heap.live) ≡ some s.heap.live =
        ground arith in
      rw
        (
          get_property,
          slice_of_string v8 (argument args 0) s.heap quoted,
          e,
          ◌>>=◌,
          delete_array,
          found,
        )
        refl

  -- Whatever the argument of `LevelDOWN.prototype.getProperty`, on a database that is open: it throws,
  -- or it gives the property of LevelDB under that name, and the heap's live blocks and the database
  -- are as they were.
  pub js_get_property-cases :
      (args : List JsValue) (s : State D) (d : D)
      → s.db ≡ some d
      → (js_get_property v8 leveldb args s ≡ none)
        ⊎ (s' : State D) × (js_get_property v8 leveldb args s
            ≡ some (some (string (leveldb.get_property (text v8 (argument args 0)) d), s')))
          × (s'.heap.live ≡ s.heap.live)
          × (s'.db ≡ s.db)
  unfolding js_get_property
  js_get_property-cases args s d e = elim (Bool-cases (is_string (argument args 0))) [
    | inr other ↦ inl (rw (js_get_property, other) refl)
    | inl quoted ↦ inr (
      record s { heap = record { live = s.heap.live; next = s.heap.next + 1 } },
      rw (js_get_property, quoted) (ap some (property_freed args s d e quoted)),
      refl,
      refl,
    )
  ]
