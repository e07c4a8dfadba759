-- ===== src/Lifecycle/Afterwards.antt =====
-- After a close was asked for, whatever happens next, the close can still finish.
use leveldown.Base.{◌≡◌, refl, sym, subst, true, false, ◌⊎◌, inl, inr, List, All, arith, Bool-cases}
use leveldown.Cursor.{Entry, CursorOps, CursorLaws}
use leveldown.Lifecycle.{absent, Handle, Database, close, any_registered}
use leveldown.Lifecycle.Registry.{IsSafe}
use leveldown.Lifecycle.Safety.{Opened, Opened-IsSafe, Reach-IsSafe}
use leveldown.Lifecycle.Steps.{Step, Reach, here, then_step, IsOpen}
use leveldown.Lifecycle.Ending.{EndsWell, Reach-EndsWell}
use leveldown.Lifecycle.Closing.{close-IsSafe}
use leveldown.Iterator.Returns.{Returns, iterator_next-Returns}
use leveldown.Lifecycle.Drain.{IsHealthy, steps_left, none_registered-IsLeaving, end_all-IsLeaving}
use leveldown.Lifecycle.Finishes.{AllUnstuck, Draining, Finishes, Draining-Finishes}
use leveldown.Lifecycle.Undisturbed.{Step-Draining}
use leveldown.Lifecycle.Closed.{Closed, Step-Closed, Closed-Finishes}

module _ {C : Type 0} (ops : CursorOps C) where
  -- What a step leaves of a close that is under way.
  Step-Closing :
      (d e : Database C)
      → ((c : C) → ops.status_ok c ≡ true)
      → Step ops d e
      → Draining d ⊎ Closed d
      → Draining e ⊎ Closed e
  Step-Closing d e fine t (inl k) = Step-Draining ops d e fine t k
  Step-Closing d e fine t (inr k) = inr (Step-Closed ops d e t k)

  Reach-Closing :
      (d e : Database C)
      → ((c : C) → ops.status_ok c ≡ true)
      → Reach ops d e
      → Draining d ⊎ Closed d
      → Draining e ⊎ Closed e
  Reach-Closing d e fine here k = k
  Reach-Closing d e fine (then_step {d = c} r t) k =
      Step-Closing c e fine t (Reach-Closing d c fine r k)

  closing-Finishes :
      (d : Database C)
      → Returns ops
      → ((c : C) → ops.status_ok c ≡ true)
      → AllUnstuck ops d
      → Draining d ⊎ Closed d
      → Finishes ops d
  closing-Finishes d returns fine free (inl k) =
      Draining-Finishes ops returns fine (steps_left d.handles) d (omega arith) free k
  closing-Finishes d returns fine free (inr k) = Closed-Finishes ops d k

  close-Draining :
      (d : Database C)
      → IsOpen d
      → IsSafe d
      → All (λ (h : Handle C). EndsWell h) d.handles
      → All (λ (h : Handle C). IsHealthy h) d.handles
      → Draining (close d)
  unfolding close
  close-Draining d o s w k = elim (Bool-cases (any_registered d.handles)) [
    | inl r ↦ (
      close-IsSafe d o s,
      unfold close in rw (close, r) (end_all-IsLeaving d.handles k w),
      unfold close in rw (close, r) refl,
    )
    | inr r ↦ (
      close-IsSafe d o s,
      unfold close in rw (close, r) (none_registered-IsLeaving d.handles r k),
      unfold close in rw (close, r) (ground arith),
    )
  ]

  -- Take any database that was opened, after any calls, worker executions and completions (no read
  -- while one is in flight on the same iterator, no seek after the end was asked for, while a read
  -- is in flight, or out of range where there are no entries, no call of iterator or close after a
  -- close was asked for, no new iterator with a number in use, no closeSync), with no close asked
  -- for and no read of an iterator left with an error, where the cursors are over a list of entries
  -- and report no error. When it is closed, then after whatever such calls, executions and
  -- completions follow, unless a read is queued that would step a cursor that has run off the end,
  -- it can still get to where the LevelDB object is deleted and the close has called back.
  pub close_can_finish :
      (entries : List Entry)
      → CursorLaws ops entries
      → ((c : C) → ops.status_ok c ≡ true)
      → (d₀ d e : Database C) → Opened d₀
      → Reach ops d₀ d
      → IsOpen d
      → All (λ (h : Handle C). IsHealthy h) d.handles
      → Reach ops (close d) e
      → AllUnstuck ops e
      → (f : Database C) × Reach ops e f × (f.db ≡ false) × (f.close_work ≡ absent)
  close_can_finish entries laws fine d₀ d e o r open_ healthy after free =
      let safe = Reach-IsSafe ops d₀ d (Opened-IsSafe d₀ o) r in
      let well =
        Reach-EndsWell ops d₀ d r
          (subst (λ hs. All (λ (h : Handle C). EndsWell h) hs) (sym o.1) tt) in
      closing-Finishes e (iterator_next-Returns ops entries laws) fine free
        (Reach-Closing (close d) e fine after (inl (close-Draining d open_ safe well healthy)))
