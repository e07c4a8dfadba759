-- ===== src/Store/Traffic/Safety.antt =====
-- Who owns the heap's blocks while any number of workers are under way.
use leveldown.Base.{
  ℕ, zero, suc, ◌+◌, ◌≤◌, ◌≡◌, refl, sym, ◌∙◌, ap, subst, some, List, [], ◌∷◌, ◌++◌, count,
  count-append, All, All-append, All-modify, All-get, get_elem?, modify, arith, some_inj,
  if◌then◌else◌,
}
use leveldown.Value.{V8}
use leveldown.Value.Memory.{Heap}
use leveldown.Value.Ownership.{Holds, Holds-cong}
use leveldown.Store.LevelDb.{Status, LevelDb}
use leveldown.Store.Calls.{◌>>=◌}
use leveldown.Store.Workers.{
  handle_ok_callback, error, Worker, batch_worker, batch_write_worker, Output, Callback, queued,
  work_complete,
}
use leveldown.Store.Traffic.{
  Job, waiting, done, Traffic, remove_at, Step, calls, sync_calls, batches, new_batches,
  chained_calls, writes, executes, completes, Reach, here, then_step, state,
}
use leveldown.Store.Traffic.Sync.{sync_call-Leaves, chained_call-Leaves, batch-Leaves}
use leveldown.Store.Traffic.Owners.{
  worker_owned, WorkerConverted, worker, jobs_owned, dispose_slices-Holds, Takes, call-Takes,
}

module _ {B : Type 0} where
  -- Every slice of a worker under way comes from a conversion, and its block is live.
  pub record IsOwned {D : Type 0} (t : Traffic D B) : Type 0 where
    pub converted : All (λ (j : Job B). WorkerConverted (worker j)) t.jobs
    pub held : Holds (jobs_owned t.jobs) t.heap

  count-jobs_owned_append :
      (b : ℕ) (xs ys : List (Job B))
      → count b (jobs_owned (xs ++ ys)) ≡ count b (jobs_owned xs) + count b (jobs_owned ys)
  count-jobs_owned_append b [] ys = omega arith
  count-jobs_owned_append b (x ∷ xs) ys = omega (
    arith,
    count-jobs_owned_append b xs ys,
    count-append b (worker_owned (worker x)) (jobs_owned xs),
    count-append b (worker_owned (worker x)) (jobs_owned (xs ++ ys)),
  )

  -- A new worker joins those that are under way.
  joins :
      (w : Worker B) (jobs : List (Job B)) (h : Heap)
      → Holds (worker_owned w ++ jobs_owned jobs) h
      → Holds (jobs_owned (jobs ++ waiting w ∷ [])) h
  joins w jobs h =
      Holds-cong (worker_owned w ++ jobs_owned jobs) (jobs_owned (jobs ++ waiting w ∷ [])) h λ b.
        omega (
          arith,
          count-append b (worker_owned w) (jobs_owned jobs),
          count-jobs_owned_append b jobs (waiting w ∷ []),
          count-append b (worker_owned w) [],
        )

  count-remove_at :
      (b i : ℕ) (jobs : List (Job B)) (j : Job B)
      → get_elem? jobs i ≡ some j
      → count b (jobs_owned jobs)
        ≡ count b (worker_owned (worker j)) + count b (jobs_owned (remove_at i jobs))
  count-remove_at b i [] j e = absurd (cc)
  count-remove_at b zero (x ∷ jobs) j e =
      let same : x ≡ j = some_inj e in
      rw same (count-append b (worker_owned (worker j)) (jobs_owned jobs))
  count-remove_at b (suc i) (x ∷ jobs) j e = omega (
    arith,
    count-remove_at b i jobs j e,
    count-append b (worker_owned (worker x)) (jobs_owned jobs),
    count-append b (worker_owned (worker x)) (jobs_owned (remove_at i jobs)),
  )

  jobs_owned-modify :
      (i : ℕ) (jobs : List (Job B)) (j j' : Job B)
      → get_elem? jobs i ≡ some j
      → worker j' ≡ worker j
      → jobs_owned (modify i (λ x. j') jobs) ≡ jobs_owned jobs
  jobs_owned-modify i [] j j' e w = refl
  jobs_owned-modify zero (x ∷ jobs) j j' e w =
      ap (λ y. worker_owned y ++ jobs_owned jobs) (w ∙ ap worker (sym (some_inj e)))
  jobs_owned-modify (suc i) (x ∷ jobs) j j' e w =
      ap (λ ys. worker_owned (worker x) ++ ys) (jobs_owned-modify i jobs j j' e w)

  pub All-remove_at {κ} :
      (P : Job B → Type κ) (i : ℕ) (jobs : List (Job B)) → All P jobs → All P (remove_at i jobs)
  All-remove_at P i [] a = tt
  All-remove_at P zero (x ∷ jobs) a = a.1
  All-remove_at P (suc i) (x ∷ jobs) a = (a.0, All-remove_at P i jobs a.1)

-- What the callback gets.
abbrev pub reported : {B : Type 0} → Worker B → Status → Output → Callback
reported w status out = if status.ok then handle_ok_callback w out else error status.to_string

module _ {D B : Type 0} (v8 : V8) (leveldb : LevelDb D B) where
  joined :
      (t : Traffic D B) (w : Worker B) (h : Heap)
      → IsOwned t
      → Takes (jobs_owned t.jobs) (queued w, h)
      → IsOwned (record t { heap = h; jobs = t.jobs ++ waiting w ∷ [] })
  joined t w h o (c, s) = record {
    converted =
        All-append (λ (j : Job B). WorkerConverted (worker j)) t.jobs (waiting w ∷ []) o.converted
          (c, tt);
    held = joins w t.jobs h s;
  }

  -- The completion of a worker that is done, and what it leaves.
  pub completes_safely :
      (t : Traffic D B) (i : ℕ) (w : Worker B) (status : Status) (out : Output)
      → IsOwned t
      → get_elem? t.jobs i ≡ some (done w status out)
      → (h : Heap) × (work_complete w status out t.heap ≡ some (reported w status out, h))
        × IsOwned (record t { heap = h; jobs = remove_at i t.jobs })
  unfolding work_complete
  completes_safely t i w status out o e =
      let c =
        All-get (λ (j : Job B). WorkerConverted (worker j)) t.jobs i (done w status out) o.converted
          e in
      let mine = jobs_owned (remove_at i t.jobs) in
      let s =
        Holds-cong (jobs_owned t.jobs) (worker_owned w ++ mine) t.heap
          (λ b. omega (
            arith,
            count-remove_at b i t.jobs (done w status out) e,
            count-append b (worker_owned w) mine,
          ))
          o.held in
      let (h, runs, left_) = dispose_slices-Holds w mine t.heap c s in
      (
        h,
        rw (work_complete, runs, ◌>>=◌) refl,
        record { converted = All-remove_at _ i t.jobs o.converted; held = left_ },
      )

  pub Step-IsOwned : (t u : Traffic D B) → Step v8 leveldb t u → IsOwned t → IsOwned u
  Step-IsOwned t u (calls m args w h e) o =
      joined t w h o (rw e at (call-Takes B v8 m args (jobs_owned t.jobs) t.heap o.held))
  Step-IsOwned t u (sync_calls m args r s e) o = record {
    converted = o.converted;
    held =
        rw e at
          (sync_call-Leaves v8 leveldb (jobs_owned t.jobs) m args (state v8 leveldb t) o.held);
  }
  Step-IsOwned t u (batches args b sync h e) o =
      joined t (batch_worker b sync) h o
        (tt, rw e at (batch-Leaves v8 leveldb (jobs_owned t.jobs) args t.heap o.held))
  Step-IsOwned t u (new_batches args b h e) o = record {
    converted = o.converted;
    held = rw e at (batch-Leaves v8 leveldb (jobs_owned t.jobs) args t.heap o.held);
  }
  Step-IsOwned t u (chained_calls i c b b' h g e) o = record {
    converted = o.converted;
    held = rw e at (chained_call-Leaves v8 leveldb (jobs_owned t.jobs) c b t.heap o.held);
  }
  Step-IsOwned t u (writes i b g e) o = joined t (batch_write_worker i) t.heap o (tt, o.held)
  Step-IsOwned t u (executes i w status out db e x) o = record {
    converted =
        All-modify (λ (j : Job B). WorkerConverted (worker j)) (λ j. done w status out) t.jobs i
          (waiting w) o.converted e
          (All-get (λ (j : Job B). WorkerConverted (worker j)) t.jobs i (waiting w) o.converted e);
    held =
        subst (λ ys. Holds ys t.heap)
          (sym (jobs_owned-modify i t.jobs (waiting w) (done w status out) e refl)) o.held;
  }
  Step-IsOwned t u (completes i w status out cb h e x) o =
      let (h', x', o') = completes_safely t i w status out o e in
      let same : h' ≡ h = ap (λ p. p.1) (some_inj (sym x' ∙ x)) in
      subst (λ y. IsOwned (record t { heap = y; jobs = remove_at i t.jobs })) same o'

  pub Reach-IsOwned : (t u : Traffic D B) → Reach v8 leveldb t u → IsOwned t → IsOwned u
  Reach-IsOwned t u here o = o
  Reach-IsOwned t u (then_step {t = m} r s) o = Step-IsOwned m u s (Reach-IsOwned t m r o)

  -- Nothing is under way, and no block is live twice or was not yet handed out.
  abbrev pub Quiet : Traffic D B → Type 0
  Quiet t = (t.jobs ≡ []) × Holds [] t.heap

  pub Quiet-IsOwned : (t : Traffic D B) → Quiet t → IsOwned t
  Quiet-IsOwned t (e, s) = record {
    converted = subst (λ js. All (λ (j : Job B). WorkerConverted (worker j)) js) (sym e) tt;
    held = subst (λ js. Holds (jobs_owned js) t.heap) (sym e) s;
  }

  -- From a state with nothing under way, after any calls (but of getProperty, openSync or a close),
  -- executions and completions in any order: each block that a worker under way will free is live,
  -- it is so only once, and no two slices of workers under way own the same block.
  pub block_owned_once :
      (t u : Traffic D B) (b : ℕ)
      → Quiet t
      → Reach v8 leveldb t u
      → (count b (jobs_owned u.jobs) ≤ count b u.heap.live) × (count b u.heap.live ≤ 1)
  block_owned_once t u b q r =
      let o = Reach-IsOwned t u r (Quiet-IsOwned t q) in (o.held.enough b, o.held.once b)

  -- From a state with nothing under way, after any calls (but of getProperty, openSync or a close),
  -- executions and completions in any order, a worker that was executed can be completed: none of
  -- its disposals frees a block that is not live, or memory that Node owns, and the callback gets
  -- the error's text or the result.
  pub work_complete_runs :
      (t u : Traffic D B) (i : ℕ) (w : Worker B) (status : Status) (out : Output)
      → Quiet t
      → Reach v8 leveldb t u
      → get_elem? u.jobs i ≡ some (done w status out)
      → (h : Heap) × (work_complete w status out u.heap ≡ some (reported w status out, h))
  work_complete_runs t u i w status out q r e =
      let (h, runs, o) =
        completes_safely u i w status out (Reach-IsOwned t u r (Quiet-IsOwned t q)) e in
      (h, runs)
