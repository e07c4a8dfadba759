-- ===== src/Store/LevelDb.antt =====
-- LevelDB as src/database.cc and src/batch.cc call it: a database of type `D` and a `WriteBatch` of
-- type `B`. The laws are what deps/leveldb/leveldb-1.20/include/leveldb/db.h and write_batch.h
-- document.
use leveldown.Base.{ℕ, ℤ, ◌≡◌, Bool, true, Option, none, some, List, [], ◌∷◌, ◌++◌, if◌then◌else◌}
use leveldown.Bytes.{Bytes, cmp, is_eq}

-- What the binding asks of a status: `ok()`, `IsNotFound()` and `ToString()`.
pub record Status : Type 0 where
  pub ok : Bool
  pub is_not_found : Bool
  pub to_string : Bytes

-- The options that `OpenSync` and `OpenWorker` set; a cache by its capacity, a filter by its bits.
pub record OpenOptions : Type 0 where
  pub create_if_missing : Bool
  pub error_if_exists : Bool
  pub compression : Bool
  pub write_buffer_size : ℕ
  pub block_size : ℕ
  pub max_open_files : ℤ
  pub block_restart_interval : ℕ
  pub max_file_size : ℕ
  pub block_cache : Option ℕ
  pub filter_policy : Option ℕ

pub record LevelDb (D B : Type 0) : Type 0 where
  pub open_database : OpenOptions → Status × Option D
  pub put : Bool → Bytes → Bytes → D → Status × D
  pub get : Bool → Bytes → D → Status × Bytes
  pub delete : Bool → Bytes → D → Status × D
  pub write : Bool → B → D → Status × D
  pub approximate_size : Bytes → Bytes → D → ℕ
  pub compact_range : Bytes → Bytes → D → D
  pub get_property : Bytes → D → Bytes
  pub new_batch : B
  pub batch_put : Bytes → Bytes → B → B
  pub batch_delete : Bytes → B → B
  pub batch_clear : B → B

pub data Update : Type 0 where
  put : Bytes → Bytes → Update
  del : Bytes → Update

-- A database's contents: what each key is mapped to.
abbrev pub Contents : Type 0
Contents = Bytes → Option Bytes

abbrev pub update : Update → Contents → Contents
update (put k v) m x = if is_eq (cmp k x) then some v else m x
update (del k) m x = if is_eq (cmp k x) then none else m x

abbrev pub update_all : List Update → Contents → Contents
update_all [] m = m
update_all (u ∷ us) m = update_all us (update u m)

pub record LevelDbLaws {D B : Type 0} (leveldb : LevelDb D B) : Type 0 where
  pub contents : D → Contents
  pub updates : B → List Update
  pub put_lem :
      (sync : Bool) (k v : Bytes) (d : D)
      → (leveldb.put sync k v d).0.ok ≡ true
      → contents (leveldb.put sync k v d).1 ≡ update (put k v) (contents d)
  pub get_lem :
      (fill : Bool) (k : Bytes) (d : D)
      → (leveldb.get fill k d).0.ok ≡ true
      → contents d k ≡ some (leveldb.get fill k d).1
  pub not_found_lem :
      (fill : Bool) (k : Bytes) (d : D)
      → (leveldb.get fill k d).0.is_not_found ≡ true
      → contents d k ≡ none
  pub delete_lem :
      (sync : Bool) (k : Bytes) (d : D)
      → (leveldb.delete sync k d).0.ok ≡ true
      → contents (leveldb.delete sync k d).1 ≡ update (del k) (contents d)
  pub write_lem :
      (sync : Bool) (b : B) (d : D)
      → (leveldb.write sync b d).0.ok ≡ true
      → contents (leveldb.write sync b d).1 ≡ update_all (updates b) (contents d)
  pub compact_range_lem :
      (start end : Bytes) (d : D) → contents (leveldb.compact_range start end d) ≡ contents d
  pub new_batch_lem : updates leveldb.new_batch ≡ []
  pub batch_put_lem :
      (k v : Bytes) (b : B) → updates (leveldb.batch_put k v b) ≡ updates b ++ put k v ∷ []
  pub batch_delete_lem :
      (k : Bytes) (b : B) → updates (leveldb.batch_delete k b) ≡ updates b ++ del k ∷ []
  pub batch_clear_lem : (b : B) → updates (leveldb.batch_clear b) ≡ []
