-- ===== src/Store/Traffic/Settles.antt =====
-- All that is under way can be brought to its end.
use leveldown.Base.{◌≡◌, refl, sym, ap, subst, some, List, [], ◌∷◌, All}
use leveldown.Value.{V8}
use leveldown.Value.Memory.{Heap}
use leveldown.Store.LevelDb.{Status, LevelDb}
use leveldown.Store.Calls.{◌>>=◌}
use leveldown.Store.Batches.{Batch}
use leveldown.Store.Workers.{
  Worker, open_worker, write_worker, read_worker, delete_worker, compact_range_worker,
  approximate_size_worker, batch_worker, batch_write_worker, Output, no_output, execute,
}
use leveldown.Store.Traffic.{
  Job, waiting, done, Traffic, Step, executes, completes, Reach, here, then_step,
}
use leveldown.Store.Traffic.Objects.{IndexValid, Reach-IndexValid}
use leveldown.Store.Traffic.Owners.{worker}
use leveldown.Store.Traffic.Safety.{
  IsOwned, completes_safely, Quiet, Quiet-IsOwned, Reach-IsOwned, Step-IsOwned,
}

module _ {B : Type 0} where
  abbrev pub NotOpening : Worker B → Type 0
  NotOpening (open_worker o) = ⊥
  NotOpening w = Unit

  module _ {D : Type 0} (leveldb : LevelDb D B) where
    -- A worker on an open database can be executed, and leaves it open.
    pub execute_runs :
        (objects : List (Batch B)) (w : Worker B) (d : D)
        → IndexValid objects w
        → NotOpening w
        → (status : Status) × (out : Output) × (d' : D) × (execute leveldb objects w (some d)
            ≡ some (status, out, some d'))
    unfolding execute
    execute_runs objects (open_worker o) d v n = absurd n
    execute_runs objects (write_worker key value sync kh vh) d v n = (_, _, _, refl)
    execute_runs objects (read_worker key as_buffer fill_cache kh) d v n = (_, _, _, refl)
    execute_runs objects (delete_worker key sync kh) d v n = (_, _, _, refl)
    execute_runs objects (compact_range_worker start end sh eh) d v n = (_, _, _, refl)
    execute_runs objects (approximate_size_worker start end sh eh) d v n = (_, _, _, refl)
    execute_runs objects (batch_worker b sync) d v n = (_, _, _, refl)
    execute_runs objects (batch_write_worker i) d (b, e) n =
        let r = leveldb.write b.sync b.batch d in (r.0, no_output, r.1, rw (execute, e, ◌>>=◌) refl)

module _ {D B : Type 0} (v8 : V8) (leveldb : LevelDb D B) where
  Reach-trans :
      (t u v : Traffic D B) → Reach v8 leveldb t u → Reach v8 leveldb u v → Reach v8 leveldb t v
  Reach-trans t u v r here = r
  Reach-trans t u v r (then_step {t = m} s last) = then_step (Reach-trans t u m r s) last

  abbrev traffic_of : D → Heap → List (Batch B) → List (Job B) → Traffic D B
  traffic_of d h objects jobs = record { db = some d; heap = h; batches = objects; jobs = jobs }

  -- Where nothing is under way, and the database is open.
  abbrev Settles : Traffic D B → Type 0
  Settles t = (u : Traffic D B) × (d : D) × Reach v8 leveldb t u × (u.jobs ≡ []) × (u.db ≡ some d)

  All-Settles :
      (jobs : List (Job B)) (d : D) (h : Heap) (objects : List (Batch B))
      → IsOwned (traffic_of d h objects jobs)
      → All (λ (j : Job B). IndexValid objects (worker j)) jobs
      → All (λ (j : Job B). NotOpening (worker j)) jobs
      → Settles (traffic_of d h objects jobs)
  All-Settles [] d h objects o v n = (traffic_of d h objects [], d, here, refl, refl)
  All-Settles (waiting w ∷ jobs) d h objects o v n =
      let t = traffic_of d h objects (waiting w ∷ jobs) in
      let (status, out, d', runs) = execute_runs leveldb objects w d v.0 n.0 in
      let t₁ = traffic_of d' h objects (done w status out ∷ jobs) in
      let first : Step v8 leveldb t t₁ = executes 0 w status out (some d') refl runs in
      let o₁ = Step-IsOwned v8 leveldb t t₁ first o in
      let (h₂, ends, o₂) = completes_safely v8 leveldb t₁ 0 w status out o₁ refl in
      let (u, d₃, reach, empty, opened) = All-Settles jobs d' h₂ objects o₂ v.1 n.1 in
      (
        u,
        d₃,
        Reach-trans t (traffic_of d' h₂ objects jobs) u
            (then_step (then_step here first) (completes 0 w status out _ h₂ refl ends)) reach,
        empty,
        opened,
      )
  All-Settles (done w status out ∷ jobs) d h objects o v n =
      let t = traffic_of d h objects (done w status out ∷ jobs) in
      let (h₂, ends, o₂) = completes_safely v8 leveldb t 0 w status out o refl in
      let (u, d₃, reach, empty, opened) = All-Settles jobs d h₂ objects o₂ v.1 n.1 in
      (
        u,
        d₃,
        Reach-trans t (traffic_of d h₂ objects jobs) u
            (then_step here (completes 0 w status out _ h₂ refl ends)) reach,
        empty,
        opened,
      )

  -- Start from a state with nothing under way, and take any calls (but of getProperty, openSync or
  -- a close), executions and completions in any order. When the database is then open, and no open
  -- is under way, all workers that are can be executed and completed, after which nothing is under
  -- way and the database is open.
  pub can_settle :
      (t u : Traffic D B) (d : D)
      → Quiet v8 leveldb t
      → Reach v8 leveldb t u
      → u.db ≡ some d
      → All (λ (j : Job B). NotOpening (worker j)) u.jobs
      → (v : Traffic D B) × (d' : D) × Reach v8 leveldb u v × (v.jobs ≡ []) × (v.db ≡ some d')
  can_settle t u d q r o n =
      let valid =
        Reach-IndexValid v8 leveldb t u r
          (subst (λ js. All (λ (j : Job B). IndexValid t.batches (worker j)) js) (sym q.0) tt) in
      let same : traffic_of d u.heap u.batches u.jobs ≡ u =
        ap (λ db. record u { db = db }) (sym o) in
      subst (λ x. Settles x) same
        (All-Settles u.jobs d u.heap u.batches
          (subst (λ x. IsOwned x) (sym same)
            (Reach-IsOwned v8 leveldb t u r (Quiet-IsOwned v8 leveldb t q)))
          valid n)
