-- ===== src/Iterator/Defs.antt =====
-- The state of an iterator: the constructor's arguments, and the fields that its methods change
-- (src/iterator.h). `start` is the slice's bytes: src/iterator.cc lets it point into another bound.
use leveldown.Base.{ℕ, ℤ, Bool, false, Option, none}
use leveldown.Bytes.{Bytes}

-- A row handed to the caller: `std::pair<std::string, std::string>`.
abbrev pub Row : Type 0
Row = Bytes × Bytes

pub record IteratorOptions : Type 0 where
  pub start : Option Bytes
  pub end : Option Bytes
  pub reverse : Bool
  pub keys : Bool
  pub values : Bool
  pub limit : ℤ
  pub lt : Option Bytes
  pub lte : Option Bytes
  pub gt : Option Bytes
  pub gte : Option Bytes
  pub fill_cache : Bool
  pub key_as_buffer : Bool
  pub value_as_buffer : Bool
  pub high_water_mark : ℕ

-- `end_worker` says whether an `EndWorker` is stored to be queued later.
pub record Iterator (C : Type 0) : Type 0 where
  pub options : IteratorOptions
  pub open options use *
  pub db_iterator : Option C
  pub count : ℕ
  pub target : Option Bytes
  pub seeking : Bool
  pub landed : Bool
  pub nexting : Bool
  pub ended : Bool
  pub end_worker : Bool

unfoldable pub new_iterator : {C : Type 0} → IteratorOptions → Iterator C
new_iterator options = record {
  options = options;
  db_iterator = none;
  count = 0;
  target = none;
  seeking = false;
  landed = false;
  nexting = false;
  ended = false;
  end_worker = false;
}
