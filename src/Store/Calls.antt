-- ===== src/Store/Calls.antt =====
-- How a method of src/database.cc takes its arguments: `info[i]`, an options object, and
-- `LD_METHOD_SETUP_COMMON` of src/leveldown.h; and what it answers.
use Prim.Native.String.{String}
use leveldown.Base.{
  ℕ, ◌-◌, Bool, true, false, ◌&&◌, Option, none, some, List, [], ◌∷◌, get_elem?, if◌then◌else◌,
}
use leveldown.Bytes.{Bytes}
use leveldown.Value.{JsValue, undefined, is_object, is_function}
use leveldown.Value.Memory.{Heap}

-- An exception that was thrown, with a text of the binding or that of a status; or a result.
pub data Reply : Type 0 where
  usage : String → Reply
  failed : Bytes → Reply
  returned : JsValue → Reply

pub record State (D : Type 0) : Type 0 where
  pub db : Option D
  pub heap : Heap

abbrev pub argument : List JsValue → ℕ → JsValue
argument args i = elim (get_elem? args i) [ none ↦ undefined | some v ↦ v ]

-- The options object stays empty for a value that is no object.
abbrev pub object_option : JsValue → Option JsValue
object_option v = if is_object v then some v else none

abbrev pub no_arguments : List JsValue → Bool
no_arguments [] = true
no_arguments (v ∷ args) = false

-- A usage error is thrown without a return, so that the rest of the method is run; a later throw
-- takes its place.
abbrev pub after_usage : Bool → String → Reply → Reply
after_usage true text (returned v) = usage text
after_usage b text r = r

-- The options object if the call has a callback, else nothing: the macro throws and returns. No
-- option position is -1 in the source.
unfoldable pub setup_common : Option ℕ → ℕ → List JsValue → Option (Option JsValue)
setup_common option_pos callback_pos args = if no_arguments args then none else elim option_pos [
  | none ↦ if is_function (argument args callback_pos) then some none else none
  | some p ↦
      if is_function (argument args (callback_pos - 1))
      then some none
      else if is_object (argument args p) && is_function (argument args callback_pos)
      then some (some (argument args p))
      else none
]

infixl 5 ◌>>=◌
abbrev pub ◌>>=◌ {ℓ ℓ'} : {A : Type ℓ} {B : Type ℓ'} → Option A → (A → Option B) → Option B
none >>= f = none
some x >>= f = f x
