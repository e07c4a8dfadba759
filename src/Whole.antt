-- ===== src/Whole.antt =====
-- A database with its iterators and with its reads and writes, from the open to the close: the steps
-- of `Lifecycle` and of `Store.Traffic` (src/database.cc, src/iterator.cc and their workers), in any
-- order, over one LevelDB object.
pub mod Joint
pub mod Keeps
pub mod Jobs
pub mod Fit
pub mod Safety
pub mod Overtaken
