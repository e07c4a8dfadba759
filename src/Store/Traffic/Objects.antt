-- ===== src/Store/Traffic/Objects.antt =====
-- A worker that writes a batch object holds one that is there, as long as it is under way.
use leveldown.Base.{
  ℕ, zero, suc, ◌≡◌, refl, subst, none, some, List, [], ◌∷◌, ◌++◌, All, All-append, All-map,
  All-modify, All-get, get_elem?, modify, Option-cases, inl, inr,
}
use leveldown.Value.{V8, JsValue}
use leveldown.Value.Memory.{Heap}
use leveldown.Store.LevelDb.{LevelDb}
use leveldown.Store.Batches.{Batch}
use leveldown.Store.Workers.{
  Worker, open_worker, write_worker, read_worker, delete_worker, compact_range_worker,
  approximate_size_worker, batch_worker, batch_write_worker, Output, no_output, execute, queued,
}
use leveldown.Store.Traffic.{
  Job, waiting, done, Traffic, Method, call, Step, calls, sync_calls, batches, new_batches,
  chained_calls, writes, executes, completes, Reach, here, then_step,
}
use leveldown.Store.Traffic.Owners.{worker}
use leveldown.Store.Traffic.Safety.{All-remove_at}
use leveldown.Store.Calls.{setup_common}
use leveldown.Store.Workers as Workers
use leveldown.Store.Traffic.{
  open_call, put_call, get_call, delete_call, compact_range_call, approximate_size_call,
}

module _ {B : Type 0} where
  -- The worker of a batch object holds one that is there.
  abbrev pub IndexValid : List (Batch B) → Worker B → Type 0
  IndexValid objects (batch_write_worker i) = (b : Batch B) × (get_elem? objects i ≡ some b)
  IndexValid objects w = Unit

  grown :
      (xs ys : List (Batch B)) (i : ℕ) (b : Batch B)
      → get_elem? xs i ≡ some b
      → (b' : Batch B) × (get_elem? (xs ++ ys) i ≡ some b')
  grown [] ys i b e = absurd (cc)
  grown (x ∷ xs) ys zero b e = (b, e)
  grown (x ∷ xs) ys (suc i) b e = grown xs ys i b e

  changed :
      (f : Batch B → Batch B) (xs : List (Batch B)) (i j : ℕ) (b : Batch B)
      → get_elem? xs j ≡ some b
      → (b' : Batch B) × (get_elem? (modify i f xs) j ≡ some b')
  changed f [] i j b e = absurd (cc)
  changed f (x ∷ xs) zero zero b e = (f x, refl)
  changed f (x ∷ xs) zero (suc j) b e = (b, e)
  changed f (x ∷ xs) (suc i) zero b e = (x, refl)
  changed f (x ∷ xs) (suc i) (suc j) b e = changed f xs i j b e

  IndexValid-map :
      (xs ys : List (Batch B))
      → ((i : ℕ) (b : Batch B)
          → get_elem? xs i ≡ some b
          → (b' : Batch B) × (get_elem? ys i ≡ some b'))
      → (w : Worker B) → IndexValid xs w
      → IndexValid ys w
  IndexValid-map xs ys k (batch_write_worker i) (b, e) = k i b e
  IndexValid-map xs ys k w v = tt

  -- A call that queues a worker.
  abbrev Queues : List (Batch B) → Workers.Call B × Heap → Type 0
  Queues objects (Workers.refused text, h) = Unit
  Queues objects (queued w, h) = IndexValid objects w

  call-Queues :
      (v8 : V8) (m : Method) (args : List JsValue) (h : Heap) (objects : List (Batch B))
      → Queues objects (call {B = B} v8 m args h)
  unfolding Workers.open_ Workers.put Workers.get Workers.delete Workers.compact_range
      Workers.approximate_size
  call-Queues v8 open_call args h objects = elim (Option-cases (setup_common (some 0) 1 args)) [
    | inl e ↦ rw (Workers.open_, e) tt
    | inr (o, e) ↦ rw (Workers.open_, e) tt
  ]
  call-Queues v8 put_call args h objects = elim (Option-cases (setup_common (some 2) 3 args)) [
    | inl e ↦ rw (Workers.put, e) tt
    | inr (o, e) ↦ rw (Workers.put, e) tt
  ]
  call-Queues v8 get_call args h objects = elim (Option-cases (setup_common (some 1) 2 args)) [
    | inl e ↦ rw (Workers.get, e) tt
    | inr (o, e) ↦ rw (Workers.get, e) tt
  ]
  call-Queues v8 delete_call args h objects = elim (Option-cases (setup_common (some 1) 2 args)) [
    | inl e ↦ rw (Workers.delete, e) tt
    | inr (o, e) ↦ rw (Workers.delete, e) tt
  ]
  call-Queues v8 compact_range_call args h objects =
      elim (Option-cases (setup_common none 2 args)) [
        | inl e ↦ rw (Workers.compact_range, e) tt
        | inr (o, e) ↦ rw (Workers.compact_range, e) tt
      ]
  call-Queues v8 approximate_size_call args h objects =
      elim (Option-cases (setup_common none 2 args)) [
        | inl e ↦ rw (Workers.approximate_size, e) tt
        | inr (o, e) ↦ rw (Workers.approximate_size, e) tt
      ]

module _ {D B : Type 0} (v8 : V8) (leveldb : LevelDb D B) where
  abbrev pub AllValid : Traffic D B → Type 0
  AllValid t = All (λ (j : Job B). IndexValid t.batches (worker j)) t.jobs

  joined :
      (objects : List (Batch B)) (jobs : List (Job B)) (w : Worker B)
      → All (λ (j : Job B). IndexValid objects (worker j)) jobs
      → IndexValid objects w
      → All (λ (j : Job B). IndexValid objects (worker j)) (jobs ++ waiting w ∷ [])
  joined objects jobs w a v =
      All-append (λ (j : Job B). IndexValid objects (worker j)) jobs (waiting w ∷ []) a (v, tt)

  pub Step-AllValid : (t u : Traffic D B) → Step v8 leveldb t u → AllValid t → AllValid u
  Step-AllValid t u (calls m args w h e) a =
      joined t.batches t.jobs w a
        (subst (λ c. Queues t.batches c) e (call-Queues v8 m args t.heap t.batches))
  Step-AllValid t u (sync_calls m args r s e) a = a
  Step-AllValid t u (batches args b sync h e) a = joined t.batches t.jobs (batch_worker b sync) a tt
  Step-AllValid t u (new_batches args b h e) a =
      All-map t.jobs
        (λ j. IndexValid-map t.batches (t.batches ++ b ∷ []) (grown t.batches (b ∷ [])) (worker j))
        a
  Step-AllValid t u (chained_calls i c b b' h g e) a =
      All-map t.jobs
        (λ j.
          IndexValid-map t.batches (modify i (λ x. b') t.batches) (changed (λ x. b') t.batches i)
            (worker j))
        a
  Step-AllValid t u (writes i b g e) a = joined t.batches t.jobs (batch_write_worker i) a (b, g)
  Step-AllValid t u (executes i w status out db e x) a =
      All-modify (λ (j : Job B). IndexValid t.batches (worker j)) (λ j. done w status out) t.jobs i
        (waiting w) a e
        (All-get (λ (j : Job B). IndexValid t.batches (worker j)) t.jobs i (waiting w) a e)
  Step-AllValid t u (completes i w status out cb h e x) a =
      All-remove_at (λ (j : Job B). IndexValid t.batches (worker j)) i t.jobs a

  pub Reach-IndexValid :
      (t u : Traffic D B)
      → Reach v8 leveldb t u
      → All (λ (j : Job B). IndexValid t.batches (worker j)) t.jobs
      → All (λ (j : Job B). IndexValid u.batches (worker j)) u.jobs
  Reach-IndexValid t u here a = a
  Reach-IndexValid t u (then_step {t = m} r s) a = Step-AllValid m u s (Reach-IndexValid t m r a)
