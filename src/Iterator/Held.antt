-- ===== src/Iterator/Held.antt =====
-- The blocks that an iterator of src/iterator.cc holds, which of them are live, and the members that
-- decide what is freed. A block is named by the variable that holds it.
use leveldown.Base.{Bool, true, false, Option, none, some, if◌then◌else◌}

-- `start_chars` is what `startStr` holds, `start_slice` the slice object, `copy` the array that a
-- bound is first copied to, `end` to `gte` are the bounds' strings with their contents,
-- `target_chars` and `target` are the text and the slice of a seek's target, and `cursor` and
-- `snapshot` are LevelDB's objects.
pub data Block : Type 0 where
  start_chars start_slice copy end lt lte gt gte options snapshot target_chars target cursor : Block

-- Which blocks are live.
pub record Blocks : Type 0 where
  pub start_chars : Bool
  pub start_slice : Bool
  pub copy : Bool
  pub end : Bool
  pub lt : Bool
  pub lte : Bool
  pub gt : Bool
  pub gte : Bool
  pub options : Bool
  pub snapshot : Bool
  pub target_chars : Bool
  pub target : Bool
  pub cursor : Bool

abbrev pub all_free : Blocks
all_free = record {
  start_chars = false;
  start_slice = false;
  copy = false;
  end = false;
  lt = false;
  lte = false;
  gt = false;
  gte = false;
  options = false;
  snapshot = false;
  target_chars = false;
  target = false;
  cursor = false;
}

abbrev pub live : Block → Blocks → Bool
live start_chars h = h.start_chars
live start_slice h = h.start_slice
live copy h = h.copy
live end h = h.end
live lt h = h.lt
live lte h = h.lte
live gt h = h.gt
live gte h = h.gte
live options h = h.options
live snapshot h = h.snapshot
live target_chars h = h.target_chars
live target h = h.target
live cursor h = h.cursor

abbrev pub mark : Bool → Block → Blocks → Blocks
mark b start_chars h = record h { start_chars = b }
mark b start_slice h = record h { start_slice = b }
mark b copy h = record h { copy = b }
mark b end h = record h { end = b }
mark b lt h = record h { lt = b }
mark b lte h = record h { lte = b }
mark b gt h = record h { gt = b }
mark b gte h = record h { gte = b }
mark b options h = record h { options = b }
mark b snapshot h = record h { snapshot = b }
mark b target_chars h = record h { target_chars = b }
mark b target h = record h { target = b }
mark b cursor h = record h { cursor = b }

-- What decides what is freed: whether `startStr` and `start` are set, the block that `start` points
-- into, and whether the members `target` and `dbIterator` are set.
pub record Locals : Type 0 where
  pub blocks : Blocks
  pub start_str : Bool
  pub start : Bool
  pub start_data : Block
  pub has_target : Bool
  pub has_cursor : Bool

infixl 5 ◌>>=◌
abbrev pub ◌>>=◌ : Option Locals → (Locals → Option Locals) → Option Locals
none >>= f = none
some l >>= f = f l

-- `new` into a variable whose block is still live would lose that block; both faults are `none`.
abbrev pub allocate : Block → Locals → Option Locals
allocate b l = if live b l.blocks then none else some (record l { blocks = mark true b l.blocks })

-- `delete` of a block that is not live is a double free.
abbrev pub free : Block → Locals → Option Locals
free b l = if live b l.blocks then some (record l { blocks = mark false b l.blocks }) else none

abbrev pub outcome : Option Locals → Option Blocks
outcome none = none
outcome (some l) = some l.blocks
