-- ===== src/Whole/Safety.antt =====
-- The joint steps, under the conditions of `Joint`, never run a worker without a LevelDB object.
use leveldown.Base.{
  suc, ◌&&◌, Bool-cases, ℕ, ◌≡◌, refl, sym, ◌∙◌, ap, subst, Bool, true, not, ◌||◌, Option, some,
  List, [], ◌∷◌, All, inl, inr, get_elem?,
}
use leveldown.Value.{V8}
use leveldown.Cursor.{CursorOps}
use leveldown.Store.LevelDb.{Status, LevelDb}
use leveldown.Store.Workers.{Output, execute}
use leveldown.Store.Traffic.Objects.{IndexValid}
use leveldown.Store.Traffic.Owners.{worker}
use leveldown.Store.Batches.{Batch}
use leveldown.Lifecycle.{Work}
use leveldown.Store.Traffic.{Job, waiting, done}
use leveldown.Lifecycle.{Handle, Work}
use leveldown.Lifecycle.Invariant.{idle}
use leveldown.Lifecycle.Steps as Life
use leveldown.Lifecycle.Steps.{IsOpen}
use leveldown.Lifecycle.Safety.{Opened, db_outlives_cursors, uses_db}
use leveldown.Whole.Joint.{Whole, there, works, lives, Reach, here, then_step}
use leveldown.Whole.Jobs.{IsFit, job_runs, Busy}
use leveldown.Whole.Fit.{Reach-IsFit}

All-at {κ} :
    {A : Type 0} {P : A → Type κ} (xs : List A)
    → ((i : ℕ) (x : A) → get_elem? xs i ≡ some x → P x)
    → All P xs
All-at [] k = tt
All-at (x ∷ xs) k = (k 0 x refl, All-at xs (λ i. k (suc i)))

module _ {C D B : Type 0} (ops : CursorOps C) (v8 : V8) (leveldb : LevelDb D B) where
  -- The iterators take steps of their own.
  Reach-life : (s t : Whole C D B) → Reach ops v8 leveldb s t → Life.Reach ops s.life t.life
  Reach-life s t here = Life.here
  Reach-life s t (then_step {t = m} r (works u step p)) = Reach-life s m r
  Reach-life s t (then_step {t = m} r (lives e step a)) = Life.then_step (Reach-life s m r) step

  -- Opened, with nothing under way.
  abbrev pub Fresh : Whole C D B → D → Type 0
  Fresh s d = Opened s.life × (s.traffic.jobs ≡ []) × (s.traffic.db ≡ some d)

  Fresh-IsFit : (s : Whole C D B) (d : D) → Fresh s d → IsFit ops v8 leveldb s
  Fresh-IsFit s d f = record {
    linked = f.0.0.0 ∙ sym (ap there f.2);
    calm = inl f.1;
    valid =
        subst (λ js. All (λ (j : Job B). IndexValid s.traffic.batches (worker j)) js) (sym f.1) tt;
    busy = subst (λ js. Busy js) (sym f.1) tt;
  }

  -- A job that waits can be executed, and leaves the LevelDB object.
  abbrev pub Runs : List (Batch B) → Option D → Job B → Type 0
  Runs objects db (done w status out) = Unit
  Runs objects db (waiting w) =
      (status : Status) × (out : Output) × (d : D) × (execute leveldb objects w db
        ≡ some (status, out, some d))

  -- An iterator that has a cursor, or holds its snapshot, or whose end is under way, has the LevelDB
  -- object, and nothing under way deletes it.
  abbrev pub has_db : Bool → Work → Handle C → Bool
  has_db db close_work h = not (uses_db h) || db && idle close_work

  jobs_run :
      (t : Whole C D B) (j : Job B) (i : ℕ)
      → IsFit ops v8 leveldb t
      → get_elem? t.traffic.jobs i ≡ some j
      → Runs t.traffic.batches t.traffic.db j
  jobs_run t (done w status out) i f e = tt
  jobs_run t (waiting w) i f e = job_runs ops v8 leveldb t i w f e

  handle_has_db :
      (s t : Whole C D B) (d : D) (i : ℕ) (h : Handle C)
      → Fresh s d
      → Reach ops v8 leveldb s t
      → get_elem? t.life.handles i ≡ some h
      → has_db t.life.db t.life.close_work h ≡ true
  handle_has_db s t d i h fresh r e = elim (Bool-cases (uses_db h)) [
    | inr n ↦ rw n refl
    | inl u ↦
        let (o, n) = db_outlives_cursors ops s.life t.life i h fresh.0 (Reach-life s t r) e u in
        rw (u, o, n) refl
  ]

  -- From a database that has just been opened, with nothing under way, and where calls of the
  -- database are made only while no close has been asked for and are no second open (nor
  -- getProperty, openSync or closeSync), a close is called only while no read or write is under
  -- way, the number of a new iterator is not in use, an iterator is read only while no other read
  -- of it is in flight, and is sought only before its end was asked for, while no read of it is in
  -- flight, and not out of range where there are no entries: after any such calls, executions and
  -- completions, each job that waits for a thread can be executed, and leaves the LevelDB object;
  -- and each iterator that has a cursor, or holds its snapshot, or whose end is in flight, has the
  -- LevelDB object, and no worker that deletes it is in flight.
  pub db_outlives_work :
      (s t : Whole C D B) (d : D)
      → Fresh s d
      → Reach ops v8 leveldb s t
      → All (λ (j : Job B). Runs t.traffic.batches t.traffic.db j) t.traffic.jobs
        × All
            (λ (h : Handle C). has_db (there t.traffic.db) t.life.close_work h ≡ true)
            t.life.handles
  db_outlives_work s t d fresh r =
      let fit = Reach-IsFit ops v8 leveldb s t r (Fresh-IsFit s d fresh) in
      (
        All-at t.traffic.jobs (λ i j e. jobs_run t j i fit e),
        rw⁻¹ fit.linked (All-at t.life.handles (λ i h e. handle_has_db s t d i h fresh r e)),
      )
