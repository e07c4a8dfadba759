-- ===== src/Value.antt =====
-- The JavaScript values that the binding is called with, as far as src/ tells them apart, and the
-- conversions of src/common.h and src/leveldown.h. V8's own coercions are the parameter `V8`.
mod Defs
mod Options
pub mod Memory
pub mod Double
pub mod Ownership
pub use Defs.{
  JsValue, undefined, null, boolean, number, string, buffer, function, array, object, Elements, nil,
  cons, Fields, end, field, V8, V8Laws,
}
unfoldable pub use Defs.{
  is_null_or_undefined, is_buffer, is_string, is_number, is_function, is_array, is_object, get,
  length,
}
unfoldable pub use Options.{
  boolean_option_value, uint32_option_value, string_or_buffer_length, text,
}
