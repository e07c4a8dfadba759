-- ===== src/Iterator/Chunks.antt =====
-- How `IteratorNext` cuts the rows into chunks by the high water mark.
use mathlib.Core.Option
use leveldown.Base.{
  ℕ, ◌+◌, ◌^◌, ◌≤◌, ◌<◌, ◌≡◌, Bool, true, false, Option, none, some, List, [], ◌∷◌, arith, length,
  All,
}
use leveldown.Cursor.{CursorOps}
use leveldown.Iterator.{Row, Iterator, advance, get_iterator, examine, read}

abbrev pub row_size : Row → ℕ
row_size row = length row.0 + length row.1

abbrev pub total : List Row → ℕ
total [] = 0
total (row ∷ rows) = row_size row + total rows

-- The size of all rows but the last.
abbrev pub total_front : List Row → ℕ
total_front [] = 0
total_front (row ∷ []) = 0
total_front (row ∷ r ∷ rows) = row_size row + total_front (r ∷ rows)

-- No row is so large that the running size, a `size_t`, could wrap round.
abbrev pub Fits : ℕ → List Row → Type 0
Fits mark rows = All (λ row. mark + row_size row < 2 ^ 64) rows

-- A chunk after `size` bytes: it passes the mark with its last row, if at all.
abbrev pub IsChunk : ℕ → ℕ → List Row → Bool → Type 0
IsChunk mark size rows true = (mark < size + total rows) × (size + total_front rows ≤ mark)
IsChunk mark size rows false = size + total rows ≤ mark

module _ {C : Type 0} (ops : CursorOps C) where
  pub read_keeps : (it : Iterator C) → (read ops it).0.options ≡ it.options
  unfolding read examine advance get_iterator
  read_keeps it = ground arith

  Outcome : ℕ → ℕ → Option (List Row × Bool × Iterator C) → Type 0
  Outcome mark size none = Unit
  Outcome mark size (some (rows, more, it')) = Fits mark rows → IsChunk mark size rows more
