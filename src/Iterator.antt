-- ===== src/Iterator.antt =====
-- src/iterator.cc and src/iterator.h: the state of an iterator, its construction, how it places its
-- cursor (`GetIterator`), reads a row (`Read`) and collects rows (`IteratorNext`), its range test
-- (`OutOfRange`) and `Seek`. The LevelDB cursor is the parameter `ops`.
pub mod Pending
pub mod Scan
pub mod Returns
pub mod Popped
mod Defs
mod Walk
mod Move
pub mod Range
pub mod Split
pub mod Start
pub mod Full
pub mod Target
pub mod Seeking
pub mod New
pub mod Chunks
pub mod Result
pub mod Held
pub mod Blocks
pub mod Freed
pub use Defs.{Row, IteratorOptions, Iterator}
unfoldable pub use Defs.{new_iterator}
unfoldable pub use Walk.{
  settle, back_off, start_reverse, start_forward, start_cursor, get_iterator, passes_limit, bump,
  below_upper, above_lower, before_end, accepts, advance, examine, read, is_stuck, collect,
  iterator_next,
}
unfoldable pub use Move.{
  too_high, past_end, too_low, out_of_range, adjust, seek_cursor, falls_off, seek,
}
