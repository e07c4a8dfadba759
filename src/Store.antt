-- ===== src/Store.antt =====
-- Reads, writes and batches: the methods of src/database.cc and src/batch.cc with the workers of
-- src/database_async.cc and src/batch_async.cc, over LevelDB as a parameter.
pub mod LevelDb
pub mod Calls
pub mod Database
pub mod Writes
pub mod Batches
pub mod Contents
pub mod Workers
pub mod Applied
pub mod Removed
pub mod Chained
pub mod Queued
pub mod Agrees
pub mod Traffic
pub mod Locations
