-- ===== src/Value/Memory.antt =====
-- Who owns the bytes of a slice: `LD_STRING_OR_BUFFER_TO_SLICE` and
-- `DisposeStringOrBufferFromSlice` of src/leveldown.h, over a heap of numbered blocks.
use leveldown.Base.{
  ℕ, ◌+◌, ◌≡◌, refl, Bool, true, false, not, ◌&&◌, Option, none, some, List, [], ◌∷◌, arith, ◌==◌,
  if◌then◌else◌,
}
use leveldown.Bytes.{Bytes}
use leveldown.Value.Defs.{undefined, JsValue, V8, is_buffer, is_null_or_undefined}
use leveldown.Value.Options.{text}

-- The blocks from `new char[]` that are live, newest first; `next` numbers the next one.
pub record Heap : Type 0 where
  pub live : List ℕ
  pub next : ℕ

-- A null pointer, memory that Node's buffer owns, or a block of the heap.
pub data Storage : Type 0 where
  nowhere node_owned : Storage
  block : ℕ → Storage

pub record Slice : Type 0 where
  pub bytes : Bytes
  pub storage : Storage

abbrev pub empty : Slice → Bool
empty s = elim s.bytes [ [] ↦ true | _ ∷ _ ↦ false ]

unfoldable pub remove : ℕ → List ℕ → Option (List ℕ)
remove b [] = none
remove b (c ∷ rest) =
    let others = remove b rest in
    if b == c then some rest else elim others [ none ↦ none | some r ↦ some (c ∷ r) ]

-- `delete[]`; a block that is not live, or memory of another owner, is a fault.
unfoldable pub delete_array : Storage → Heap → Option Heap
unfolding remove
delete_array (block b) h = elim (remove b h.live) [
  | none ↦ none
  | some rest ↦ some (record h { live = rest })
]
delete_array nowhere h = some h
delete_array node_owned h = none

unfoldable pub string_or_buffer_to_slice : V8 → JsValue → Heap → Slice × Heap
string_or_buffer_to_slice v8 from h =
    if is_null_or_undefined from
    then (record { bytes = []; storage = nowhere }, h)
    else if is_buffer from
    then (record { bytes = text v8 from; storage = node_owned }, h)
    else (
      record { bytes = text v8 from; storage = block h.next },
      record { live = h.next ∷ h.live; next = h.next + 1 },
    )

unfoldable pub dispose_string_or_buffer_from_slice : JsValue → Slice → Heap → Option Heap
dispose_string_or_buffer_from_slice handle slice h =
    if not (empty slice) && not (is_buffer handle) then delete_array slice.storage h else some h

-- The conversion allocates a block that the disposal does not free: that of an empty text.
unfoldable pub leaks : V8 → JsValue → Bool
leaks v8 v =
    not (is_null_or_undefined v)
    && not (is_buffer v)
    && elim (text v8 v) [ [] ↦ true | _ ∷ _ ↦ false ]

-- What is left of a block: it stays live if it leaks.
abbrev pub left : Bool → ℕ → List ℕ → List ℕ
left leak b live = if leak then b ∷ live else live

-- One value after another is converted, and the slices are disposed of in the same order.
unfoldable pub dispose_two : V8 → JsValue → JsValue → Heap → Option Heap
dispose_two v8 k v h =
    let (key, taken) = string_or_buffer_to_slice v8 k h in
    let (value, both) = string_or_buffer_to_slice v8 v taken in
    elim (dispose_string_or_buffer_from_slice k key both) [
      | none ↦ none
      | some h' ↦ dispose_string_or_buffer_from_slice v value h'
    ]

pub dispose_only :
    (v8 : V8) (v : JsValue) (h : Heap)
    → let (slice, taken) = string_or_buffer_to_slice v8 v h in
      dispose_string_or_buffer_from_slice v slice taken
      ≡ some (record taken { live = left (leaks v8 v) h.next h.live })
unfolding string_or_buffer_to_slice dispose_string_or_buffer_from_slice delete_array leaks
    is_null_or_undefined is_buffer text
dispose_only v8 undefined h = ground arith
dispose_only v8 v h = ground arith

-- Converting two values and disposing of both slices, as `PutSync` does, never faults, and gives
-- back all that the conversions took, but for the blocks of empty texts, which stay live.
pub dispose_two_lem :
    (v8 : V8) (k v : JsValue) (h : Heap)
    → (h' : Heap) × (dispose_two v8 k v h ≡ some h')
      × (h'.live
          ≡ left
              (leaks v8 v)
              (string_or_buffer_to_slice v8 k h).1.next
              (left (leaks v8 k) h.next h.live))
unfolding string_or_buffer_to_slice dispose_string_or_buffer_from_slice delete_array leaks
    is_null_or_undefined is_buffer text dispose_two
dispose_two_lem v8 k v h = (
  record (string_or_buffer_to_slice v8 v (string_or_buffer_to_slice v8 k h).1).1 {
    live =
        left (leaks v8 v) (string_or_buffer_to_slice v8 k h).1.next
          (left (leaks v8 k) h.next h.live);
  },
  go k v,
  refl,
)
  where
    go :
        (k v : JsValue)
        → dispose_two v8 k v h
          ≡ some (record (string_or_buffer_to_slice v8 v (string_or_buffer_to_slice v8 k h).1).1 {
            live =
                left
                  (leaks v8 v)
                  (string_or_buffer_to_slice v8 k h).1.next
                  (left (leaks v8 k) h.next h.live);
          })
    go undefined undefined = ground arith
    go k v = ground arith
