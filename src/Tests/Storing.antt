-- ===== src/Tests/Storing.antt =====
-- Puts, reads and batches on a database that is its contents.
use leveldown.Base.{refl, true, false, some, none, [], ◌∷◌, ◌++◌, List, ◌≡◌, arith}
use leveldown.Bytes.{Bytes}
use leveldown.Value.{
  JsValue, string, object, array, field, end, nil, cons, boolean, buffer, function, Elements,
}
use leveldown.Store.LevelDb.{
  Status, LevelDb, LevelDbLaws, Update, put, del, update, update_all, Contents,
}
use leveldown.Store.Calls.{State, returned}
use leveldown.Store.Writes.{put_sync, get_sync}
use leveldown.Store.Batches.{batch_sync}
use leveldown.Store.Contents.{bytes_of, updates_of}
use leveldown.Store.Applied.{put_sync-contents, get_sync-put_sync, batch_sync-contents}
use leveldown.Tests.Values.{plain_v8, no_blocks}

abbrev pub fine : Status
fine = record { ok = true; is_not_found = false; to_string = [] }

abbrev pub lost : Status
lost = record { ok = false; is_not_found = true; to_string = [] }

abbrev pub no_contents : Contents
no_contents x = none

abbrev pub simple_leveldb : LevelDb Contents (List Update)
simple_leveldb = record {
  open_database = λ o. (fine, some no_contents);
  put = λ sync k v d. (fine, update (put k v) d);
  get = λ fill k d. elim (d k) [ none ↦ (lost, []) | some v ↦ (fine, v) ];
  delete = λ sync k d. (fine, update (del k) d);
  write = λ sync b d. (fine, update_all b d);
  approximate_size = λ a b d. 0;
  compact_range = λ a b d. d;
  get_property = λ p d. [];
  new_batch = [];
  batch_put = λ k v b. b ++ put k v ∷ [];
  batch_delete = λ k b. b ++ del k ∷ [];
  batch_clear = λ b. [];
}

pub simple_leveldb-LevelDbLaws : LevelDbLaws simple_leveldb
simple_leveldb-LevelDbLaws = record {
  contents = λ d. d;
  updates = λ b. b;
  put_lem = λ sync k v d e. refl;
  get_lem = λ fill k d e. ground arith;
  not_found_lem = λ fill k d e. ground arith;
  delete_lem = λ sync k d e. refl;
  write_lem = λ sync b d e. refl;
  compact_range_lem = λ a b d. refl;
  new_batch_lem = refl;
  batch_put_lem = λ k v b. refl;
  batch_delete_lem = λ k b. refl;
  batch_clear_lem = λ b. refl;
}

abbrev pub empty_state : State Contents
empty_state = record { db = some no_contents; heap = no_blocks }

abbrev after_put : State Contents
after_put = record {
  db = some (update (put (97 ∷ []) (98 ∷ [])) no_contents);
  heap = record { live = []; next = 2 };
}

abbrev pub put_args : List JsValue
put_args = string (97 ∷ []) ∷ string (98 ∷ []) ∷ []

put_runs :
    put_sync plain_v8 simple_leveldb put_args empty_state
    ≡ some (returned (boolean true), after_put)
unfolding put_sync leveldown.Value.Memory.dispose_string_or_buffer_from_slice
    leveldown.Value.Memory.string_or_buffer_to_slice leveldown.Value.is_null_or_undefined
    leveldown.Value.is_buffer leveldown.Value.text leveldown.Value.Memory.delete_array
put_runs = refl

put_sync-contents_example :
    (d' : Contents) × (after_put.db ≡ some d')
    × (simple_leveldb-LevelDbLaws.contents d'
        ≡ update (put (97 ∷ []) (98 ∷ [])) (simple_leveldb-LevelDbLaws.contents no_contents))
unfolding leveldown.Value.is_null_or_undefined leveldown.Value.text
put_sync-contents_example =
    put_sync-contents plain_v8 simple_leveldb simple_leveldb-LevelDbLaws put_args empty_state
      after_put no_contents refl put_runs

abbrev after_get : State Contents
after_get = record after_put { heap = record { live = []; next = 3 } }

get_runs :
    get_sync plain_v8 simple_leveldb (string (97 ∷ []) ∷ []) after_put
    ≡ some (returned (buffer (98 ∷ [])), after_get)
unfolding get_sync leveldown.Value.Memory.dispose_string_or_buffer_from_slice
    leveldown.Value.Memory.string_or_buffer_to_slice leveldown.Value.is_null_or_undefined
    leveldown.Value.is_buffer leveldown.Value.text leveldown.Value.Memory.delete_array
    leveldown.Bytes.cmp leveldown.Iterator.Result.to_value leveldown.Value.boolean_option_value
    leveldown.Value.is_object
get_runs = refl

get_sync-put_sync_example : buffer (98 ∷ []) ≡ buffer (bytes_of plain_v8 (string (98 ∷ [])))
get_sync-put_sync_example =
    get_sync-put_sync plain_v8 simple_leveldb simple_leveldb-LevelDbLaws (string (97 ∷ []))
      (string (98 ∷ [])) (buffer (98 ∷ [])) empty_state after_put after_get no_contents refl
      put_runs get_runs

-- `[{ type: 'del', key: 'a' }, { type: 'put', key: 'b', value: 'c' }]`
abbrev pub two_items : Elements
two_items =
    cons
      (object (field "type" (string (100 ∷ 101 ∷ 108 ∷ [])) (field "key" (string (97 ∷ [])) end)))
      (cons
        (object (
          field "type" (string (112 ∷ 117 ∷ 116 ∷ []))
            (field "key" (string (98 ∷ [])) (field "value" (string (99 ∷ [])) end))))
        nil)

abbrev after_batch : State Contents
after_batch = record {
  db = some (update_all (del (97 ∷ []) ∷ put (98 ∷ []) (99 ∷ []) ∷ []) no_contents);
  heap = record { live = []; next = 3 };
}

batch_runs :
    batch_sync plain_v8 simple_leveldb (array two_items ∷ []) empty_state
    ≡ some (returned (boolean true), after_batch)
unfolding batch_sync leveldown.Store.Batches.batch_elements leveldown.Store.Batches.batch_element
    leveldown.Store.Batches.batch_put leveldown.Store.Batches.batch_delete
    leveldown.Store.Batches.strict_equals leveldown.Store.Batches.write_filled leveldown.Value.get
    leveldown.Bytes.cmp leveldown.Value.boolean_option_value leveldown.Value.is_object
    leveldown.Value.Memory.dispose_string_or_buffer_from_slice
    leveldown.Value.Memory.string_or_buffer_to_slice leveldown.Value.is_null_or_undefined
    leveldown.Value.is_buffer leveldown.Value.text leveldown.Value.Memory.delete_array
batch_runs = refl

batch_sync-contents_example :
    (d' : Contents) × (after_batch.db ≡ some d')
    × (simple_leveldb-LevelDbLaws.contents d'
        ≡ update_all
            (updates_of plain_v8 two_items)
            (simple_leveldb-LevelDbLaws.contents no_contents))
batch_sync-contents_example =
    batch_sync-contents plain_v8 simple_leveldb simple_leveldb-LevelDbLaws two_items [] empty_state
      after_batch no_contents refl batch_runs
