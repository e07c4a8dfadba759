-- ===== src/Value/Defs.antt =====
-- JavaScript values and V8's coercions.
use Prim.Native.String.{String}
use text.Mathlib.Text.{◌==◌}
use leveldown.Base.{ℕ, suc, ◌^◌, ◌<◌, ◌≡◌, ℤ, Bool, true, false, Option, none, some, if◌then◌else◌}
use leveldown.Bytes.{Bytes}

-- A string is its UTF-8 bytes, and a number is an integer: no other is told apart here. An object
-- has its fields, and functions, arrays and buffers have none of the names that src/ asks for.
mutual
  pub data JsValue : Type 0 where
    undefined null function : JsValue
    boolean : Bool → JsValue
    number : ℤ → JsValue
    string : Bytes → JsValue
    buffer : Bytes → JsValue
    array : Elements → JsValue
    object : Fields → JsValue

  pub data Elements : Type 0 where
    nil : Elements
    cons : JsValue → Elements → Elements

  pub data Fields : Type 0 where
    end : Fields
    field : String → JsValue → Fields → Fields

unfoldable pub is_null_or_undefined : JsValue → Bool
is_null_or_undefined undefined = true
is_null_or_undefined null = true
is_null_or_undefined _ = false

unfoldable pub is_buffer : JsValue → Bool
is_buffer (buffer b) = true
is_buffer _ = false

unfoldable pub is_string : JsValue → Bool
is_string (string s) = true
is_string _ = false

unfoldable pub is_number : JsValue → Bool
is_number (number n) = true
is_number _ = false

unfoldable pub is_function : JsValue → Bool
is_function function = true
is_function _ = false

unfoldable pub is_array : JsValue → Bool
is_array (array a) = true
is_array _ = false

unfoldable pub is_object : JsValue → Bool
is_object (object o) = true
is_object (array a) = true
is_object (buffer b) = true
is_object function = true
is_object _ = false

lookup : String → Fields → Option JsValue
lookup k end = none
lookup k (field j v rest) = if j == k then some v else lookup k rest

-- `Has` and `Get` in one: no result if the object has no such field.
unfoldable pub get : String → JsValue → Option JsValue
unfolding lookup
get k (object fields) = lookup k fields
get k _ = none

unfoldable pub length : Elements → ℕ
length nil = 0
length (cons v rest) = suc (length rest)

-- `ToString` with `WriteUtf8`, `BooleanValue`, `Uint32Value`, and the value of an `Integer`.
pub record V8 : Type 0 where
  pub to_utf8 : JsValue → Bytes
  pub boolean_value : JsValue → Bool
  pub uint32_value : JsValue → ℕ
  pub integer_value : JsValue → ℤ

-- What the language standard says of these coercions at a value of the type asked for.
pub record V8Laws (v8 : V8) : Type 0 where
  pub to_utf8_lem : (s : Bytes) → v8.to_utf8 (string s) ≡ s
  pub boolean_value_lem : (b : Bool) → v8.boolean_value (boolean b) ≡ b
  pub uint32_value_lem : (v : JsValue) → v8.uint32_value v < 2 ^ 32
  pub integer_value_lem : (n : ℤ) → v8.integer_value (number n) ≡ n
