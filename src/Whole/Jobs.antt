-- ===== src/Whole/Jobs.antt =====
-- What the jobs under way need, and that they can be executed while the LevelDB object is there.
use leveldown.Base.{
  ℕ, ◌≡◌, refl, sym, ◌∙◌, subst, true, Option, none, some, List, [], ◌∷◌, ◌++◌, All, All-append,
  All-modify, All-get, Option-cases, inl, inr, ◌⊎◌, get_elem?,
}
use leveldown.Value.{JsValue, V8}
use leveldown.Value.Memory.{Heap}
use leveldown.Cursor.{CursorOps}
use leveldown.Store.LevelDb.{Status, LevelDb}
use leveldown.Store.Calls.{setup_common}
use leveldown.Store.Workers as Workers
use leveldown.Store.Workers.{Worker, batch_worker, batch_write_worker, Output, execute, queued}
use leveldown.Store.Traffic as Traffic
use leveldown.Store.Traffic.{
  Job, waiting, done, Method, open_call, put_call, get_call, delete_call, compact_range_call,
  approximate_size_call, call, state,
}
use leveldown.Store.Traffic.Owners.{worker}
use leveldown.Store.Traffic.Safety.{All-remove_at}
use leveldown.Store.Traffic.Objects.{AllValid}
use leveldown.Store.Traffic.Settles.{NotOpening, execute_runs}
use leveldown.Lifecycle.{Database}
use leveldown.Lifecycle.Steps.{IsOpen}
use leveldown.Whole.Joint.{Whole, OpensNot, there, Permits}

module _ {B : Type 0} where
  -- A call that queues a worker other than that of an open.
  abbrev Queues : Workers.Call B × Heap → Type 0
  Queues (Workers.refused text, h) = Unit
  Queues (queued w, h) = NotOpening w

  abbrev pub Busy : List (Job B) → Type 0
  Busy = All (λ (j : Job B). NotOpening (worker j))

  joined :
      (jobs : List (Job B)) (w : Worker B)
      → Busy jobs
      → NotOpening w
      → Busy (jobs ++ waiting w ∷ [])
  joined jobs w a n =
      All-append (λ (j : Job B). NotOpening (worker j)) jobs (waiting w ∷ []) a (n, tt)

  pub some_job :
      (jobs : List (Job B)) (i : ℕ) (j : Job B) → get_elem? jobs i ≡ some j → jobs ≡ [] → ⊥
  some_job [] i j e n = absurd (cc)
  some_job (x ∷ jobs) i j e n = absurd (cc)

call-Queues :
    (B : Type 0) (v8 : V8) (m : Method) (args : List JsValue) (h : Heap)
    → OpensNot m
    → Queues (call {B = B} v8 m args h)
unfolding Workers.put Workers.get Workers.delete Workers.compact_range Workers.approximate_size
call-Queues B v8 open_call args h n = absurd n
call-Queues B v8 put_call args h n = elim (Option-cases (setup_common (some 2) 3 args)) [
  | inl e ↦ rw (Workers.put, e) tt
  | inr (o, e) ↦ rw (Workers.put, e) tt
]
call-Queues B v8 get_call args h n = elim (Option-cases (setup_common (some 1) 2 args)) [
  | inl e ↦ rw (Workers.get, e) tt
  | inr (o, e) ↦ rw (Workers.get, e) tt
]
call-Queues B v8 delete_call args h n = elim (Option-cases (setup_common (some 1) 2 args)) [
  | inl e ↦ rw (Workers.delete, e) tt
  | inr (o, e) ↦ rw (Workers.delete, e) tt
]
call-Queues B v8 compact_range_call args h n = elim (Option-cases (setup_common none 2 args)) [
  | inl e ↦ rw (Workers.compact_range, e) tt
  | inr (o, e) ↦ rw (Workers.compact_range, e) tt
]
call-Queues B v8 approximate_size_call args h n = elim (Option-cases (setup_common none 2 args)) [
  | inl e ↦ rw (Workers.approximate_size, e) tt
  | inr (o, e) ↦ rw (Workers.approximate_size, e) tt
]

pub there-some : {D : Type 0} (db : Option D) → there db ≡ true → (d : D) × (db ≡ some d)
there-some none e = absurd (cc)
there-some (some d) e = (d, refl)

module _ {C D B : Type 0} (ops : CursorOps C) (v8 : V8) (leveldb : LevelDb D B) where
  pub step-Busy :
      (d : Database C) (t u : Traffic.Traffic D B) (s : Traffic.Step v8 leveldb t u)
      → Permits ops v8 leveldb d t u s
      → Busy t.jobs
      → Busy u.jobs
  step-Busy d t u (Traffic.calls m args w h e) p a =
      joined t.jobs w a (subst (λ c. Queues c) e (call-Queues B v8 m args t.heap p.0))
  step-Busy d t u (Traffic.sync_calls m args r s e) p a = a
  step-Busy d t u (Traffic.batches args b sync h e) p a = joined t.jobs (batch_worker b sync) a tt
  step-Busy d t u (Traffic.new_batches args b h e) p a = a
  step-Busy d t u (Traffic.chained_calls i c b b' h g e) p a = a
  step-Busy d t u (Traffic.writes i b g e) p a = joined t.jobs (batch_write_worker i) a tt
  step-Busy d t u (Traffic.executes i w status out db e x) p a =
      All-modify (λ (j : Job B). NotOpening (worker j)) (λ j. done w status out) t.jobs i
        (waiting w) a e (All-get (λ (j : Job B). NotOpening (worker j)) t.jobs i (waiting w) a e)
  step-Busy d t u (Traffic.completes i w status out cb h e x) p a =
      All-remove_at (λ (j : Job B). NotOpening (worker j)) i t.jobs a

  -- Nothing is under way or the database is open with no close asked for; no worker opens it.
  pub record IsFit (s : Whole C D B) : Type 0 where
    pub linked : s.life.db ≡ there s.traffic.db
    pub calm : (s.traffic.jobs ≡ []) ⊎ IsOpen s.life
    pub valid : AllValid v8 leveldb s.traffic
    pub busy : Busy s.traffic.jobs

  -- While a job is under way the LevelDB object is there.
  pub db_there :
      (s : Whole C D B) (i : ℕ) (j : Job B)
      → IsFit s
      → get_elem? s.traffic.jobs i ≡ some j
      → IsOpen s.life × ((d : D) × (s.traffic.db ≡ some d))
  db_there s i j f e = elim f.calm [
    | inl n ↦ absurd (some_job s.traffic.jobs i j e n)
    | inr o ↦ (o, there-some s.traffic.db (sym f.linked ∙ o.0))
  ]

  -- A worker that waits can be executed, which leaves the LevelDB object.
  pub job_runs :
      (s : Whole C D B) (i : ℕ) (w : Worker B)
      → IsFit s
      → get_elem? s.traffic.jobs i ≡ some (waiting w)
      → (status : Status) × (out : Output) × (d : D) × (execute leveldb s.traffic.batches w
            s.traffic.db
          ≡ some (status, out, some d))
  job_runs s i w f e =
      let (o, (d, there_)) = db_there s i (waiting w) f e in
      rw there_ (
        execute_runs leveldb s.traffic.batches w d
          (All-get _ s.traffic.jobs i (waiting w) f.valid e)
          (All-get _ s.traffic.jobs i (waiting w) f.busy e))
