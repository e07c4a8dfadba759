-- ===== src/Tests/Chains.antt =====
-- A chain of calls on a batch object, a queued write, and a put without arguments.
use leveldown.Base.{refl, false, some, none, [], ◌∷◌, List, ◌≡◌, if◌then◌else◌, true, Bool}
use leveldown.Value.{boolean, JsValue, string, function, boolean_option_value}
use leveldown.Value.Memory.{Heap, left, leaks, string_or_buffer_to_slice}
use leveldown.Store.LevelDb.{del, Update, put, update, Contents}
use leveldown.Store.Calls.{returned, State, usage}
use leveldown.Store.Writes.{delete_sync, put_sync}
use leveldown.Store.Batches.{Batch, write_queued, write_called_back, write}
use leveldown.Store.Batches as Batches
use leveldown.Store.Workers as Workers
use leveldown.Store.Contents.{any, bytes_of}
use leveldown.Store.Chained.{
  ChainedCall, put_call, del_call, clear_call, asked, chained_calls, write-chained_calls,
}
use leveldown.Store.Removed.{delete_sync-contents}
use leveldown.Store.Queued.{put-work_complete}
use leveldown.Store.Applied.{put_sync-no_arguments}
use leveldown.Store.Locations.{
  FileOps, LocationWorker, repair_method, asked_of, call_of, c_string, execute_at, complete_at,
  complete_at-execute_at,
}
use leveldown.Tests.Values.{plain_v8, no_blocks}
use leveldown.Tests.Storing.{
  fine, lost, simple_leveldb, simple_leveldb-LevelDbLaws, empty_state, no_contents, put_args,
}

abbrev some_calls : List ChainedCall
some_calls = put_call put_args ∷ clear_call ∷ del_call put_args ∷ []

write-chained_calls_example :
    (b : Batch (List Update)) × (h' : Heap) × (chained_calls plain_v8 simple_leveldb some_calls
        (Batches.new_batch plain_v8 simple_leveldb none, no_blocks)
      ≡ some (b, h'))
    × (simple_leveldb-LevelDbLaws.updates b.batch ≡ asked plain_v8 some_calls [])
    × (b.sync ≡ (Batches.new_batch plain_v8 simple_leveldb none).sync)
    × (write plain_v8 simple_leveldb b
        ≡ (if any (asked plain_v8 some_calls []) then write_queued else write_called_back))
write-chained_calls_example =
    write-chained_calls plain_v8 simple_leveldb simple_leveldb-LevelDbLaws some_calls none no_blocks

abbrev callback_args : List JsValue
callback_args = string (97 ∷ []) ∷ string (98 ∷ []) ∷ function ∷ []

put-work_complete_example :
    let k = string (97 ∷ []) in
    let v = string (98 ∷ []) in
    let r =
      simple_leveldb.put
        (boolean_option_value plain_v8 none "sync" false)
        (bytes_of plain_v8 k)
        (bytes_of plain_v8 v)
        no_contents in
    let taken = (string_or_buffer_to_slice plain_v8 k no_blocks).1 in
    (w : Workers.Worker (List Update)) × (h₁ : Heap) × (h₂ : Heap) × (Workers.put plain_v8
        callback_args no_blocks
      ≡ (Workers.queued w, h₁))
    × (Workers.execute simple_leveldb [] w (some no_contents)
        ≡ some (r.0, Workers.no_output, some r.1))
    × (Workers.work_complete w r.0 Workers.no_output h₁
        ≡ some (if r.0.ok then Workers.called [] else Workers.error r.0.to_string, h₂))
    × (h₂.live ≡ left (leaks plain_v8 v) taken.next (left (leaks plain_v8 k) 0 []))
unfolding leveldown.Store.Calls.setup_common leveldown.Value.is_function
put-work_complete_example =
    put-work_complete plain_v8 simple_leveldb [] callback_args none no_blocks no_contents refl

put_sync-no_arguments_example :
    (s' : State Contents) × (d' : Contents) × (put_sync plain_v8 simple_leveldb [] empty_state
      ≡ some (usage "PutSync requires the key argument.", s'))
    × (s'.db ≡ some d')
    × (simple_leveldb-LevelDbLaws.contents d'
        ≡ update (put [] []) (simple_leveldb-LevelDbLaws.contents no_contents))
put_sync-no_arguments_example =
    put_sync-no_arguments plain_v8 simple_leveldb simple_leveldb-LevelDbLaws empty_state no_contents
      refl refl

abbrev deleted_state : State Contents
deleted_state = record {
  db = some (update (del (97 ∷ [])) no_contents);
  heap = record { live = []; next = 1 };
}

delete_runs :
    delete_sync plain_v8 simple_leveldb (string (97 ∷ []) ∷ []) empty_state
    ≡ some (returned (boolean true), deleted_state)
unfolding delete_sync leveldown.Value.boolean_option_value leveldown.Value.is_object
    leveldown.Value.Memory.dispose_string_or_buffer_from_slice
    leveldown.Value.Memory.string_or_buffer_to_slice leveldown.Value.is_null_or_undefined
    leveldown.Value.is_buffer leveldown.Value.text leveldown.Value.Memory.delete_array
delete_runs = refl

delete_sync-contents_example :
    (d' : Contents) × (deleted_state.db ≡ some d')
    × (simple_leveldb-LevelDbLaws.contents d'
        ≡ update
            (del (bytes_of plain_v8 (string (97 ∷ []))))
            (simple_leveldb-LevelDbLaws.contents no_contents))
delete_sync-contents_example =
    delete_sync-contents plain_v8 simple_leveldb simple_leveldb-LevelDbLaws (string (97 ∷ []) ∷ [])
      empty_state deleted_state no_contents refl delete_runs

-- A location whose files are there or not.
abbrev one_location : FileOps Bool
one_location = record {
  destroy_db = λ location files. (fine, false);
  repair_db = λ location files. (if files then fine else lost, files);
}

complete_at-execute_at_example :
    let r =
      asked_of repair_method one_location
        (c_string (plain_v8.to_utf8 (string (97 ∷ 0 ∷ 98 ∷ []))))
        false in
    (w : LocationWorker) × (h₁ : Heap) × (h₂ : Heap) × (call_of repair_method plain_v8
        (string (97 ∷ 0 ∷ 98 ∷ []) ∷ function ∷ [])
        no_blocks
      ≡ some (w, h₁))
    × (execute_at one_location w false ≡ r)
    × (complete_at w r.0 h₁
        ≡ some (if r.0.ok then Workers.called [] else Workers.error r.0.to_string, h₂))
    × (h₂.live ≡ no_blocks.live)
unfolding leveldown.Value.is_function
complete_at-execute_at_example =
    complete_at-execute_at one_location plain_v8 repair_method
      (string (97 ∷ 0 ∷ 98 ∷ []) ∷ function ∷ []) no_blocks false refl

c_string_runs : c_string (97 ∷ 0 ∷ 98 ∷ []) ≡ 97 ∷ []
unfolding c_string
c_string_runs = refl
