-- ===== src/Cursor.antt =====
-- The `leveldb::Iterator` that src/iterator.cc drives is code of LevelDB, so it is a parameter: the
-- operations that the binding calls (`CursorOps`), and what
-- deps/leveldb/leveldb-1.20/include/leveldb/iterator.h documents of them (`CursorLaws`): a cursor
-- over a snapshot with the given entries stands on an entry or is not valid, and `Next` and `Prev`
-- are specified on a valid cursor only.
pub mod Rows
pub mod Sample
use leveldown.Base.{Bool, true, false, ◌≡◌, List, [], ◌∷◌, if◌then◌else◌}
use leveldown.Bytes.{Bytes, cmp, is_lt}

pub record Entry : Type 0 where
  pub key : Bytes
  pub value : Bytes

-- `fresh` is the cursor that `Database::NewIterator` makes; `status_ok` is `status().ok()`.
pub record CursorOps (C : Type 0) : Type 0 where
  pub fresh : C
  pub seek : Bytes → C → C
  pub seek_to_first : C → C
  pub seek_to_last : C → C
  pub next : C → C
  pub prev : C → C
  pub valid : C → Bool
  pub key : C → Bytes
  pub value : C → Bytes
  pub status_ok : C → Bool

-- Where a cursor stands: the entries before it, the nearest first; its entry; the entries after it.
pub data Position : Type 0 where
  nowhere : Position
  on : List Entry → Entry → List Entry → Position

abbrev pub is_on : Position → Bool
is_on nowhere = false
is_on (on before e after) = true

-- The first of the entries that follow, and the nearest of those that go before.
abbrev pub ahead : List Entry → List Entry → Position
ahead before [] = nowhere
ahead before (e ∷ after) = on before e after

abbrev pub behind : List Entry → List Entry → Position
behind [] after = nowhere
behind (e ∷ before) after = on before e after

-- The first entry at or past a target.
abbrev pub at_or_past : Bytes → List Entry → List Entry → Position
at_or_past target before [] = nowhere
at_or_past target before (e ∷ after) =
    if is_lt (cmp e.key target) then at_or_past target (e ∷ before) after else on before e after

-- The last entry.
abbrev pub last_of : List Entry → List Entry → Position
last_of before [] = behind before []
last_of before (e ∷ after) = last_of (e ∷ before) after

pub record CursorLaws {C : Type 0} (ops : CursorOps C) (entries : List Entry) : Type 0 where
  pub position : C → Position
  pub valid_lem : (c : C) → ops.valid c ≡ is_on (position c)
  pub key_lem :
      (c : C) (before after : List Entry) (e : Entry)
      → position c ≡ on before e after
      → ops.key c ≡ e.key
  pub value_lem :
      (c : C) (before after : List Entry) (e : Entry)
      → position c ≡ on before e after
      → ops.value c ≡ e.value
  pub seek_lem :
      (target : Bytes) (c : C) → position (ops.seek target c) ≡ at_or_past target [] entries
  pub seek_to_first_lem : (c : C) → position (ops.seek_to_first c) ≡ ahead [] entries
  pub seek_to_last_lem : (c : C) → position (ops.seek_to_last c) ≡ last_of [] entries
  pub next_lem :
      (c : C) (before after : List Entry) (e : Entry)
      → position c ≡ on before e after
      → position (ops.next c) ≡ ahead (e ∷ before) after
  pub prev_lem :
      (c : C) (before after : List Entry) (e : Entry)
      → position c ≡ on before e after
      → position (ops.prev c) ≡ behind before (e ∷ after)
