-- ===== src/Value/Options.antt =====
-- `BooleanOptionValue` and `UInt32OptionValue` of src/common.h, and the bytes and length of a string
-- or buffer (src/leveldown.h). An empty handle for the options object is `none`.
use Prim.Native.String.{String}
use leveldown.Base.{ℕ, Bool, Option, none, some, length, if◌then◌else◌}
use leveldown.Bytes.{Bytes}
use leveldown.Value.Defs.{JsValue, buffer, V8, get, is_number}

unfoldable pub boolean_option_value : V8 → Option JsValue → String → Bool → Bool
boolean_option_value v8 none key def = def
boolean_option_value v8 (some options) key def = elim (get key options) [
  | none ↦ def
  | some v ↦ v8.boolean_value v
]

unfoldable pub uint32_option_value : V8 → Option JsValue → String → ℕ → ℕ
uint32_option_value v8 none key def = def
uint32_option_value v8 (some options) key def = elim (get key options) [
  | none ↦ def
  | some v ↦ if is_number v then v8.uint32_value v else def
]

-- The bytes that the conversion macros read: a buffer's own, else those of `ToString`.
unfoldable pub text : V8 → JsValue → Bytes
text v8 (buffer b) = b
text v8 v = v8.to_utf8 v

unfoldable pub string_or_buffer_length : V8 → JsValue → ℕ
unfolding text
string_or_buffer_length v8 v = length (text v8 v)
