-- ===== src/Lifecycle/Closed.antt =====
-- A database that is closed stays so.
use leveldown.Base.{◌≡◌, refl, false, inl, inr, ℕ, arith, get_elem?, Bool-cases, Option-cases}
use leveldown.Cursor.{CursorOps}
use leveldown.Lifecycle.{
  absent, Database, end_complete, end_sync, modify_handle, release, release_iterator,
  close_complete,
}
use leveldown.Lifecycle.Invariant.{awaits}
use leveldown.Lifecycle.Registry.{IsSafe}
use leveldown.Lifecycle.Safety.{Step-IsSafe}
use leveldown.Lifecycle.Drain.{Work-cases}
use leveldown.Lifecycle.Finishes.{Finishes}
use leveldown.Lifecycle.Steps.{
  Step, opens, nexts, next_executes, next_completes, next_syncs, seeks, ends, end_executes,
  end_completes, end_syncs, closes, close_executes, close_completes, here, then_step,
}

module _ {C : Type 0} where
  -- The LevelDB object is deleted, and no close waits or is queued.
  abbrev pub Over : Database C → Type 0
  Over d = (d.pending_close_worker ≡ false) × (d.db ≡ false) × (awaits d.close_work ≡ false)

  abbrev pub Closed : Database C → Type 0
  Closed d = IsSafe d × Over d

  release_iterator-Over : (id : ℕ) (d : Database C) → Over d → Over (release_iterator id d)
  unfolding release_iterator
  release_iterator-Over id d k = (ground arith, ground arith, ground arith)

  release-Over : (i : ℕ) (d : Database C) → Over d → Over (release i d)
  unfolding release
  release-Over i d k = elim (Option-cases (get_elem? d.handles i)) [
    | inl e ↦ rw (release, e) k
    | inr (h, e) ↦ rw (release, e) (release_iterator-Over h.id d k)
  ]

  end_sync-Over : (i : ℕ) (d : Database C) → Over d → Over (end_sync i d).0
  unfolding end_sync modify_handle
  end_sync-Over i d k = elim (Option-cases (get_elem? d.handles i)) [
    | inl e ↦ rw (end_sync, e) k
    | inr (h, e) ↦ elim (Bool-cases h.nexting) [
      | inl busy ↦ rw (end_sync, e, busy) k
      | inr still ↦ elim (Bool-cases h.ended) [
        | inl over ↦ rw (end_sync, e, still, over) k
        | inr live ↦ rw (end_sync, e, still, live) (release-Over i _ k)
      ]
    ]
  ]

module _ {C : Type 0} (ops : CursorOps C) where
  pub Step-Closed : (d e : Database C) → Step ops d e → Closed d → Closed e
  unfolding modify_handle close_complete
  Step-Closed d e (opens o open_ fresh) k = absurd (ground (arith, open_, k))
  Step-Closed d e (nexts i h g n) k = (Step-IsSafe ops d e (nexts i h g n) k.0, k.1)
  Step-Closed d e (next_executes i fuel h h' rows done g q r) k =
      (Step-IsSafe ops d e (next_executes i fuel h h' rows done g q r) k.0, k.1)
  Step-Closed d e (next_completes i h ok g q) k =
      (Step-IsSafe ops d e (next_completes i h ok g q) k.0, k.1)
  Step-Closed d e (next_syncs i fuel h h' r g n q) k =
      (Step-IsSafe ops d e (next_syncs i fuel h h' r g n q) k.0, k.1)
  Step-Closed d e (seeks i h target g live n ok) k =
      (Step-IsSafe ops d e (seeks i h target g live n ok) k.0, k.1)
  Step-Closed d e (ends i h g) k = (Step-IsSafe ops d e (ends i h g) k.0, k.1)
  Step-Closed d e (end_executes i h g q) k = (Step-IsSafe ops d e (end_executes i h g q) k.0, k.1)
  Step-Closed d e (end_completes i h ok g q) k = (
    Step-IsSafe ops d e (end_completes i h ok g q) k.0,
    unfold end_complete in
        release-Over i (modify_handle i (λ x. record x { end_work = absent }) d) k.1,
  )
  Step-Closed d e (end_syncs i h g) k =
      (Step-IsSafe ops d e (end_syncs i h g) k.0, end_sync-Over i d k.1)
  Step-Closed d e (closes o) k = absurd (ground (arith, o, k))
  Step-Closed d e (close_executes q) k = absurd (ground (arith, k))
  Step-Closed d e (close_completes ok q) k =
      (Step-IsSafe ops d e (close_completes ok q) k.0, (k.1.0, k.1.1, refl))

  -- At most the close's callback is left.
  pub Closed-Finishes : (d : Database C) → Closed d → Finishes ops d
  unfolding close_complete
  Closed-Finishes d k = elim (Work-cases d.close_work) [
    | inl a ↦ (d, here, k.1.1, a)
    | inr (inl q) ↦ absurd (ground (arith, k))
    | inr (inr (ok, q)) ↦ (close_complete d, then_step here (close_completes ok q), k.1.1, refl)
  ]
