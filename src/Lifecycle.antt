-- ===== src/Lifecycle.antt =====
-- The life of a database and its iterators across asynchronous calls: `Iterator::Next`, `End`,
-- `EndSync`, `NextSync` (src/iterator.cc), their workers (src/iterator_async.cc),
-- `Database::Iterator`, `Close`, `CloseDatabase` and `ReleaseIterator` (src/database.cc), and
-- `CloseWorker` (src/database_async.cc).
mod Objects
mod Owner
pub mod Steps
pub mod Invariant
pub mod Registry
pub mod Closing
pub mod Safety
pub mod Stuck
pub mod Blocked
pub mod Released
pub mod Ending
pub mod Drain
pub mod Finishes
pub mod Closed
pub mod Undisturbed
pub mod Afterwards
pub mod Synchronous
pub use Objects.{
  Work, absent, queued, executed, Handle, SyncOutcome, ended_error, status_error, rows,
}
unfoldable pub use Objects.{
  status_ok, finished, new_handle, release_target, check_end_callback, next, next_execute,
  next_complete, next_sync, iterator_end, end, end_execute, handle_seek,
}
pub use Owner.{Database}
unfoldable pub use Owner.{
  new_database, any_registered, erase, release_iterator, modify_handle, release, end_complete,
  end_sync, end_all, close, close_database, close_sync, close_execute, close_complete, iterator,
}
