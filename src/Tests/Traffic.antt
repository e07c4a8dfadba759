-- ===== src/Tests/Traffic.antt =====
-- Two puts of one key that are executed in the other order, a read, and their completions.
use leveldown.Value.Ownership.{Holds}
use leveldown.Base.{refl, List, ◌≡◌, count, ℕ, ◌∷◌, suc, ◌≤◌, [], some, true, false, arith}
use leveldown.Value.{JsValue, string, function, buffer, null}
use leveldown.Value.Memory.{Heap, Slice, block}
use leveldown.Store.LevelDb.{Update, Contents, put, update, update_all}
use leveldown.Store.Workers.{
  Worker, write_worker, read_worker, no_output, read_value, work_complete, execute, called,
}
use leveldown.Store.Traffic.{
  Job, waiting, done, Traffic, Reach, here, then_step, calls, executes, put_call,
}
use leveldown.Store.Traffic.Safety.{block_owned_once, work_complete_runs}
use leveldown.Store.Traffic.Owners.{jobs_owned}
use leveldown.Store.Traffic.History.{contents-history, read-history}
use leveldown.Store.Traffic.Settles.{can_settle}
use leveldown.Tests.Values.{plain_v8, no_blocks}
use leveldown.Tests.Storing.{simple_leveldb, simple_leveldb-LevelDbLaws, no_contents, fine}

abbrev pub put_of : ℕ → List JsValue
put_of v = string (97 ∷ []) ∷ string (v ∷ []) ∷ function ∷ []

abbrev pub slice_of : ℕ → ℕ → Slice
slice_of x i = record { bytes = x ∷ []; storage = block i }

-- The worker of a put of `v`, with its key in block `i` and its value in the next one.
abbrev pub worker_of : ℕ → ℕ → Worker (List Update)
worker_of v i =
    write_worker (slice_of 97 i) (slice_of v (suc i)) false (string (97 ∷ [])) (string (v ∷ []))

abbrev pub traffic_of :
    Contents → List ℕ → ℕ → List (Job (List Update)) → Traffic Contents (List Update)
traffic_of d live next jobs = record {
  db = some d;
  heap = record { live = live; next = next };
  batches = [];
  jobs = jobs;
}

abbrev pub quiet : Traffic Contents (List Update)
quiet = traffic_of no_contents [] 0 []

abbrev both_called : Traffic Contents (List Update)
both_called =
    traffic_of no_contents (3 ∷ 2 ∷ 1 ∷ 0 ∷ []) 4
      (waiting (worker_of 98 0) ∷ waiting (worker_of 99 2) ∷ [])

abbrev both_executed : Traffic Contents (List Update)
both_executed =
    traffic_of (update (put (97 ∷ []) (98 ∷ [])) (update (put (97 ∷ []) (99 ∷ [])) no_contents))
      (3 ∷ 2 ∷ 1 ∷ 0 ∷ []) 4
      (done (worker_of 98 0) fine no_output ∷ done (worker_of 99 2) fine no_output ∷ [])

call_both : Reach plain_v8 simple_leveldb quiet both_called
unfolding leveldown.Store.Workers.put leveldown.Store.Calls.setup_common leveldown.Value.is_function
    leveldown.Value.Memory.string_or_buffer_to_slice leveldown.Value.is_null_or_undefined
    leveldown.Value.is_buffer leveldown.Value.text leveldown.Value.boolean_option_value
    leveldown.Value.is_object
call_both =
    then_step (then_step here (calls put_call (put_of 98) (worker_of 98 0) _ refl))
      (calls put_call (put_of 99) (worker_of 99 2) _ refl)

execute_both : Reach plain_v8 simple_leveldb quiet both_executed
unfolding execute
execute_both =
    then_step (then_step call_both (executes 1 (worker_of 99 2) fine no_output _ refl refl))
      (executes 0 (worker_of 98 0) fine no_output _ refl refl)

no_blocks-Holds : Holds [] no_blocks
no_blocks-Holds = record { enough = λ b. omega arith; once = λ b. omega arith; fresh = λ b f. refl }

block_owned_once_example :
    (count 2 (jobs_owned both_executed.jobs) ≤ count 2 both_executed.heap.live)
    × (count 2 both_executed.heap.live ≤ 1)
block_owned_once_example =
    block_owned_once plain_v8 simple_leveldb quiet both_executed 2 (refl, no_blocks-Holds)
      execute_both

work_complete_runs_example :
    (h : Heap) × (work_complete (worker_of 98 0) fine no_output both_executed.heap
      ≡ some (called [], h))
unfolding leveldown.Store.Workers.handle_ok_callback
work_complete_runs_example =
    work_complete_runs plain_v8 simple_leveldb quiet both_executed 0 (worker_of 98 0) fine no_output
      (refl, no_blocks-Holds) execute_both refl

contents-history_example :
    (d' : Contents) × (both_executed.db ≡ some d')
    × (simple_leveldb-LevelDbLaws.contents d'
        ≡ update_all
            (put (97 ∷ []) (99 ∷ []) ∷ put (97 ∷ []) (98 ∷ []) ∷ [])
            (simple_leveldb-LevelDbLaws.contents no_contents))
unfolding execute_both call_both
contents-history_example =
    contents-history plain_v8 simple_leveldb simple_leveldb-LevelDbLaws quiet both_executed
      execute_both no_contents refl ((((tt, tt), tt), refl), refl)

read-history_example :
    update_all
      (put (97 ∷ []) (99 ∷ []) ∷ put (97 ∷ []) (98 ∷ []) ∷ [])
      (simple_leveldb-LevelDbLaws.contents no_contents)
      (97 ∷ [])
    ≡ some (98 ∷ [])
unfolding execute leveldown.Bytes.cmp execute_both call_both
read-history_example =
    read-history plain_v8 simple_leveldb simple_leveldb-LevelDbLaws quiet both_executed execute_both
      no_contents (slice_of 97 4) true true (string (97 ∷ [])) fine (98 ∷ []) both_executed.db refl
      ((((tt, tt), tt), refl), refl) refl refl

can_settle_example :
    (v : Traffic Contents (List Update)) × (d' : Contents) × Reach plain_v8 simple_leveldb
      both_called v
    × (v.jobs ≡ [])
    × (v.db ≡ some d')
can_settle_example =
    can_settle plain_v8 simple_leveldb quiet both_called no_contents (refl, no_blocks-Holds)
      call_both refl (tt, (tt, tt))
