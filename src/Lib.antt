-- ===== src/Lib.antt =====
-- The native binding of leveldown: src/*.cc and src/*.h, which give JavaScript a LevelDB database,
-- its iterators and its batches, with the JavaScript around it. Paths are from the repository's root.
--
-- The program. `Database` (src/database.cc) owns the LevelDB object, numbers its iterators and keeps
-- them in a map, and starts a close when the last of them has gone. `Iterator` (src/iterator.cc)
-- drives a LevelDB cursor in either direction between bounds and hands the rows over in chunks.
-- `Batch` (src/batch.cc) collects updates. The workers (src/database_async.cc,
-- src/iterator_async.cc, src/batch_async.cc) are executed by threads and completed by the event
-- loop. src/leveldown.h converts arguments to slices and frees them; src/common.h reads options.
-- iterator.js pops the rows of a chunk one at a time; leveldown.js checks some arguments.
--
-- The model, file by file.
-- - Base, Bytes: lists, numbers and tests; byte strings with the comparison of slices and strings.
-- - Cursor: `leveldb::Iterator` as a parameter (`CursorOps`), with what its header documents
--   (`CursorLaws`); Cursor/Sample is a cursor that satisfies it.
-- - Iterator/Defs, Walk, Move: the iterator object, `GetIterator`, `Read`, `IteratorNext`,
--   `OutOfRange` and `Seek`. Iterator/New: the options that `Iterator::New` reads. Iterator/Held,
--   Blocks, Freed: what an iterator allocates and what is freed of it. Iterator/Result: the array
--   that `NextSync` and `NextWorker` build, with the loop of iterator.js that takes it apart.
-- - Iterator/Range, Split, Start, Pending, Scan, Full, Target, Seeking, Chunks, Returns: lemmas and
--   theorems on the rows that an iterator delivers, and on the end of its loop. Iterator/Popped: the
--   key and value of a row as JavaScript gets them.
-- - Value: JavaScript values, the coercions of V8 as a parameter, option values, and the heap blocks
--   behind slices (src/leveldown.h, src/common.h). Value/Ownership: which slice frees which block.
--   Value/Double: the cast of an approximate size to a `double`.
-- - Lifecycle/Objects, Owner: iterator objects with their workers in flight, and the database object
--   that owns them. Lifecycle/Steps: every interleaving of calls, worker executions and completions
--   as a step relation. Lifecycle/Invariant, Registry, Closing, Safety: what all of them keep.
--   Lifecycle/Stuck, Blocked: what a failed read leaves behind. Lifecycle/Released, Ending, Drain,
--   Finishes, Closed, Undisturbed, Afterwards: how a close comes to its end, by the number of worker
--   steps that are left. Lifecycle/Synchronous: `NextSync` against `Next`.
-- - Store/LevelDb: the LevelDB database and `WriteBatch` as a parameter. Store/Calls: arguments and
--   `LD_METHOD_SETUP_COMMON`. Store/Database: what the threads call of `Database`. Store/Writes: the
--   synchronous methods. Store/Batches: arrays of operations and the batch object. Store/Workers: the
--   asynchronous methods with their workers. Store/Contents, Applied, Removed, Chained, Queued,
--   Agrees: what they do to the contents and to the heap, and where the synchronous and the
--   asynchronous methods agree. Store/Locations: `destroy` and `repair` of
--   src/leveldown.cc, src/leveldown_async.cc.
-- - Store/Traffic: the database with all that is under way, and every interleaving of calls,
--   executions and completions as a step relation. Store/Traffic/Heaps, Sync, Owners, Safety: who owns
--   which block in between. Store/Traffic/Effects, History: the contents after any interleaving.
--   Store/Traffic/Objects, Settles: how all that is under way comes to its end.
-- - Whole: the iterators of Lifecycle and the reads and writes of Store/Traffic as joint steps over one
--   LevelDB object. Whole/Joint: the steps, and what a caller keeps to. Whole/Keeps, Jobs, Fit, Safety:
--   what they keep. Whole/Overtaken: a close that is called with jobs under way.
-- - Natives: what is made with `new` and freed with `delete`. Natives/Objects, Connection, View, Fate:
--   the objects of a `Database` over opens and closes. Natives/Workers, Fleet, Exact, Accounts: those of
--   any number of workers and batch objects at once.
-- - Wrapper: the JavaScript around the binding. Wrapper/Reader, Flags, Fetch, Rows, Whole, Given:
--   iterator.js. Wrapper/Checks: the argument checks of leveldown.js.
-- - Binding: the tables of methods that `Init` registers, and how `NewInstance` and `New` of batches
--   and iterators pass their arguments on.
-- - Tests: runs on small inputs, and the theorems at concrete inputs.
--
-- Conventions. A byte string is a list of numbers. `size_t` and `uint32_t` wrap round where they
-- are added to (`% 2 ^ w`), and so does the `int count` of an iterator, in 32 bits, where C++
-- leaves the overflow undefined: the theorems on whole iterations ask for fewer entries than that.
-- The loop of `IteratorNext` takes fuel, and so does the caller's loop around it: a number above
-- the number of entries is enough for both, and is a hypothesis of the theorems on whole
-- iterations. A method's result is `none` where the C++ code would be undefined: a heap fault, a
-- method on a database that is not open, or a read that steps a LevelDB cursor which has run off
-- the end; the last is `is_stuck`, and the loop of `IteratorNext` gives `none` there as it does
-- when it is out of fuel. A seek that would step such a cursor is told by `falls_off`, and is no
-- step of Lifecycle.
--
-- Not modelled. Opening again after a close is no step of Lifecycle, Store/Traffic or Whole, where
-- a database is followed from one open to its close; Natives has it. Nor are `getProperty`,
-- `openSync` and `closeSync`, which are definitions only, nor a seek of an iterator whose end was
-- asked for, while a read of it is in flight, or out of range where there are no entries. LevelDB
-- and snappy (deps/) are other projects and parameters here. The base classes of
-- abstract-leveldown, Nan and V8 are not part of the repository: function templates, persistent
-- handles and garbage collection are left out, and a worker's callback is Nan's to free. Numbers
-- that are not integers, getters on options objects, and the exceptions of `toString` are not told
-- apart. The size of a row is taken to fit the address space where a theorem says so.
pub mod Base
pub mod Bytes
pub mod Cursor
pub mod Iterator
pub mod Value
pub mod Lifecycle
pub mod Store
pub mod Tests
pub mod Wrapper
pub mod Natives
pub mod Whole
pub mod Binding
