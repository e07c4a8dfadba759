-- ===== src/Cursor/Sample.antt =====
-- A cursor that is a position: it shows that `CursorLaws` can hold of every list of entries.
use leveldown.Base.{true, refl, List, [], ◌∷◌, arith}
use leveldown.Bytes.{Bytes}
use leveldown.Cursor.{
  Entry, Position, nowhere, on, is_on, ahead, behind, at_or_past, last_of, CursorOps, CursorLaws,
}

abbrev key_at : Position → Bytes
key_at nowhere = []
key_at (on before e after) = e.key

abbrev value_at : Position → Bytes
value_at nowhere = []
value_at (on before e after) = e.value

abbrev forth : Position → Position
forth nowhere = nowhere
forth (on before e after) = ahead (e ∷ before) after

abbrev back : Position → Position
back nowhere = nowhere
back (on before e after) = behind before (e ∷ after)

abbrev pub list_cursor : List Entry → CursorOps Position
list_cursor entries = record {
  fresh = nowhere;
  seek = λ target c. at_or_past target [] entries;
  seek_to_first = λ c. ahead [] entries;
  seek_to_last = λ c. last_of [] entries;
  next = forth;
  prev = back;
  valid = is_on;
  key = key_at;
  value = value_at;
  status_ok = λ c. true;
}

pub list_cursor-CursorLaws : (entries : List Entry) → CursorLaws (list_cursor entries) entries
list_cursor-CursorLaws entries = record {
  position = λ c. c;
  valid_lem = λ c. refl;
  key_lem = λ c before after e h. ground arith;
  value_lem = λ c before after e h. ground arith;
  seek_lem = λ target c. refl;
  seek_to_first_lem = λ c. refl;
  seek_to_last_lem = λ c. refl;
  next_lem = λ c before after e h. ground arith;
  prev_lem = λ c before after e h. ground arith;
}
