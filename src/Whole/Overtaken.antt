-- ===== src/Whole/Overtaken.antt =====
-- A close that is called while reads or writes are under way: nothing in `Database::Close` of
-- src/database.cc waits for them.
use leveldown.Store.LevelDb.{LevelDb}
use leveldown.Whole.Joint.{Whole}
