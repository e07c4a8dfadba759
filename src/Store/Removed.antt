-- ===== src/Store/Removed.antt =====
-- `DeleteSync` of src/database.cc and the contents of the database.
use leveldown.Base.{sym, ap, ◌≡◌, true, false, some, List, some_inj}
use leveldown.Value.{JsValue, boolean, V8, boolean_option_value}
use leveldown.Value.Memory.{dispose_only}
use leveldown.Store.LevelDb.{LevelDb, LevelDbLaws, update, del}
use leveldown.Store.Calls.{returned, State, argument, object_option}
use leveldown.Store.Writes.{delete_sync}
use leveldown.Store.Contents.{bytes_of, bytes_of_lem}
use leveldown.Store.Applied.{reply_ok}

module _ {D B : Type 0} (v8 : V8) (leveldb : LevelDb D B) (laws : LevelDbLaws leveldb) where
  open laws use {contents}

  -- When `DeleteSync` on an open database returns true, the database afterwards has nothing under
  -- the key's bytes, and every other key is mapped to what it was mapped to.
  pub delete_sync-contents :
      (args : List JsValue) (s s' : State D) (d : D)
      → s.db ≡ some d
      → delete_sync v8 leveldb args s ≡ some (returned (boolean true), s')
      → (d' : D) × (s'.db ≡ some d')
        × (contents d' ≡ update (del (bytes_of v8 (argument args 0))) (contents d))
  unfolding delete_sync
  delete_sync-contents args s s' d open_ e =
      let k = argument args 0 in
      let sync = boolean_option_value v8 (object_option (argument args 1)) "sync" false in
      let r = leveldb.delete sync (bytes_of v8 k) d in
      let same =
        some_inj
          (rw (delete_sync, open_, dispose_only v8 k s.heap, bytes_of_lem v8 k s.heap) at e) in
      (
        r.1,
        sym (ap (λ p. p.1.db) same),
        laws.delete_lem sync (bytes_of v8 k) d (reply_ok r.0 (ap (λ p. p.0) same)),
      )
