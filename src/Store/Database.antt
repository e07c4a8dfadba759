-- ===== src/Store/Database.antt =====
-- The methods of src/database.cc that the worker threads call: each passes its arguments on to the
-- LevelDB object, and is undefined where there is none.
use leveldown.Base.{Bool, Option, some, ℕ}
use leveldown.Bytes.{Bytes}
use leveldown.Store.LevelDb.{Status, LevelDb, OpenOptions}
use leveldown.Store.Calls.{◌>>=◌}

module _ {D B : Type 0} (leveldb : LevelDb D B) where
  -- A failed open leaves no LevelDB object.
  abbrev pub open_database : OpenOptions → Status × Option D
  open_database options = leveldb.open_database options

  abbrev pub put_to_database : Bool → Bytes → Bytes → Option D → Option (Status × Option D)
  put_to_database sync key value db = do
    d ← db
    let (status, d') = leveldb.put sync key value d
    some (status, some d')

  abbrev pub get_from_database : Bool → Bytes → Option D → Option (Status × Bytes)
  get_from_database fill_cache key db = do d ← db; some (leveldb.get fill_cache key d)

  abbrev pub delete_from_database : Bool → Bytes → Option D → Option (Status × Option D)
  delete_from_database sync key db = do
    d ← db
    let (status, d') = leveldb.delete sync key d
    some (status, some d')

  abbrev pub write_batch_to_database : Bool → B → Option D → Option (Status × Option D)
  write_batch_to_database sync batch db = do
    d ← db
    let (status, d') = leveldb.write sync batch d
    some (status, some d')

  abbrev pub approximate_size_from_database : Bytes → Bytes → Option D → Option ℕ
  approximate_size_from_database start end db = do
    d ← db
    some (leveldb.approximate_size start end d)

  abbrev pub compact_range_from_database : Bytes → Bytes → Option D → Option (Option D)
  compact_range_from_database start end db = do
    d ← db
    some (some (leveldb.compact_range start end d))

  abbrev pub get_property_from_database : Bytes → Option D → Option Bytes
  get_property_from_database property db = do d ← db; some (leveldb.get_property property d)
