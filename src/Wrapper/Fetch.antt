-- ===== src/Wrapper/Fetch.antt =====
-- One call of the binding from iterator.js, with its worker executed and completed.
use mathlib.Core.Option
use leveldown.Base.{
  ℕ, ◌≡◌, refl, sym, ◌∙◌, ap, Bool, true, false, not, none, some, List, if◌then◌else◌,
}
use leveldown.Cursor.{CursorOps}
use leveldown.Iterator.{Row, Iterator, iterator_next}
use leveldown.Iterator.Result.{result_array}
use leveldown.Lifecycle.{
  absent, executed, Handle, next, next_execute, next_complete, check_end_callback, finished, queued,
}
use leveldown.Lifecycle.Invariant.{iterator_next-Alike}
use leveldown.Lifecycle.Drain.{status_fine}
use leveldown.Wrapper.Reader.{refused, answered, completed, binding_next, fetched}
use leveldown.Wrapper.Flags.{flagged, flagged_result, iterator_next-flagged, iterator_next-Fair}

-- At rest: not ended, no read in flight and no end stored.
abbrev pub IsResting : {C : Type 0} → Handle C → Type 0
IsResting h = (h.ended ≡ false) × (h.next_work ≡ absent) × (h.end_worker ≡ false)

module _ {C : Type 0} where
  -- The handle after a read that left the iterator as `it`.
  abbrev pub rested : Handle C → Iterator C → Handle C
  rested h it = record h { iterator = flagged false none it; next_work = absent }

  next_runs :
      (h : Handle C)
      → h.ended ≡ false
      → next h
        ≡ (record h { iterator = flagged true h.target h.iterator; next_work = queued }, true)
  unfolding next
  next_runs h e = rw (next, e) refl

  completed_runs :
      (h : Handle C) (it : Iterator C)
      → it.end_worker ≡ false
      → completed (record h { iterator = it; next_work = executed true }) ≡ (true, rested h it)
  unfolding completed next_complete check_end_callback
  completed_runs h it e = rw (check_end_callback, e) refl

module _ {C : Type 0} (ops : CursorOps C) where
  then_fetched :
      (h : Handle C) (got : List Row) (more : Bool) (it : Iterator C)
      → it.end_worker ≡ false
      → fetched (some (record h { iterator = it; next_work = executed true }, got, not more))
        ≡ some (
          answered (result_array it.key_as_buffer it.value_as_buffer got) (not more),
          rested h it,
        )
  unfolding fetched
  then_fetched h got more it e =
      ap
        (λ (p : Bool × Handle C). some (
          if p.0
              then answered
                  (result_array p.1.iterator.key_as_buffer p.1.iterator.value_as_buffer got)
                  (not more)
              else refused,
          p.1,
        ))
        (completed_runs h it e)

  execute_runs :
      (fuel : ℕ) (h : Handle C) (got : List Row) (more : Bool) (it : Iterator C)
      → ((c : C) → ops.status_ok c ≡ true)
      → iterator_next ops fuel h.iterator ≡ some (got, more, it)
      → next_execute ops fuel
          (record h { iterator = flagged true h.target h.iterator; next_work = queued })
        ≡ some (
          record h { iterator = flagged true h.target it; next_work = executed true },
          got,
          not more,
        )
  unfolding next_execute finished
  execute_runs fuel h got more it fine e =
      let begun =
        iterator_next-flagged ops true h.target fuel h.iterator
        ∙ ap (Option.map (flagged_result true h.target)) e in
      rw (next_execute, begun, status_fine ops fine more (flagged true h.target it)) refl

  -- Its callback gets the rows of `IteratorNext` and whether they are the last ones.
  pub binding_next-runs :
      (fuel : ℕ) (h : Handle C) (got : List Row) (more : Bool) (it : Iterator C)
      → ((c : C) → ops.status_ok c ≡ true)
      → IsResting h
      → iterator_next ops fuel h.iterator ≡ some (got, more, it)
      → binding_next ops fuel h
        ≡ some (
          answered
              (result_array h.iterator.key_as_buffer h.iterator.value_as_buffer got)
              (not more),
          rested h it,
        )
  unfolding binding_next
  binding_next-runs fuel h got more it fine r e =
      let kept : it.options ≡ h.iterator.options =
        (rw e at (iterator_next-Fair ops fuel h.iterator)).0 in
      let idle : it.end_worker ≡ false =
        (iterator_next-Alike ops fuel h.iterator it got more e).2 ∙ r.2 in
      rw (binding_next, next_runs h r.0, execute_runs fuel h got more it fine e, sym kept)
        (then_fetched h got more (flagged true h.target it) idle)

  pub rested-IsResting :
      (fuel : ℕ) (h : Handle C) (got : List Row) (more : Bool) (it : Iterator C)
      → IsResting h
      → iterator_next ops fuel h.iterator ≡ some (got, more, it)
      → IsResting (rested h it)
  rested-IsResting fuel h got more it r e =
      let a = iterator_next-Alike ops fuel h.iterator it got more e in (a.1 ∙ r.0, refl, a.2 ∙ r.2)
