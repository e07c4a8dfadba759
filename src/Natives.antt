-- ===== src/Natives.antt =====
-- The objects that src/ makes with `new` and frees with `delete`: those of a database
-- (src/database.cc), of its workers (src/database_async.cc) and of batches (src/batch.cc).
pub mod Objects
pub mod Connection
pub mod View
pub mod Fate
pub mod Workers
pub mod Fleet
pub mod Exact
pub mod Accounts
