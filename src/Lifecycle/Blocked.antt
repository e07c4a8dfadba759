-- ===== src/Lifecycle/Blocked.antt =====
-- A close that waits for an iterator whose read failed.
use leveldown.Base.{
  ℕ, zero, suc, ◌≡◌, refl, sym, ◌∙◌, ap, subst, Bool, true, false, not, ◌&&◌, ◌||◌, some, List, [],
  ◌∷◌, arith, get_elem?, get_elem?-modify, Bool-cases, Option-cases, inl, inr, some_inj,
}
use leveldown.Cursor.{CursorOps}
use leveldown.Lifecycle.{
  absent, executed, Handle, Database, next_complete, end, any_registered, erase, modify_handle,
  release, end_complete, end_sync, end_all, close, close_database, close_execute, close_complete,
  release_iterator,
}
use leveldown.Lifecycle.Steps.{
  IsOpen, Step, opens, nexts, next_executes, next_completes, next_syncs, seeks, ends, end_executes,
  end_completes, end_syncs, closes, close_executes, close_completes, Reach, here, then_step,
}
use leveldown.Lifecycle.Invariant.{IsSound}
use leveldown.Lifecycle.Registry.{IsSafe}
use leveldown.Lifecycle.Closing.{close-IsSafe}
use leveldown.Lifecycle.Safety.{
  Opened, Opened-IsSafe, registered_in, IsSound-at, Step-IsSafe, Reach-IsSafe,
}
use leveldown.Lifecycle.Stuck.{stuck, any_stuck, stuck-registered, Step-any_stuck}

-- A close still waits, unless the map is empty.
abbrev waits : {C : Type 0} → Database C → Bool
waits d = d.pending_close_worker || not (any_registered d.handles)

module _ {C : Type 0} where
  release-waits :
      (i : ℕ) (d : Database C) → d.pending_close_worker ≡ true → waits (release i d) ≡ true
  unfolding release release_iterator
  release-waits i d p = elim (Option-cases (get_elem? d.handles i)) [
    | inl e ↦ rw (release, e, p) refl
    | inr (h, e) ↦ elim (Bool-cases (any_registered (erase h.id d.handles))) [
      | inl x ↦ rw (release, e, release_iterator, x, p) refl
      | inr x ↦ rw (release, e, release_iterator, x, p) (ap not x)
    ]
  ]

  end_sync-waits :
      (i : ℕ) (d : Database C) (h : Handle C)
      → get_elem? d.handles i ≡ some h
      → d.pending_close_worker ≡ true
      → waits (end_sync i d).0 ≡ true
  unfolding end_sync modify_handle
  end_sync-waits i d h e p = elim (Bool-cases h.nexting) [
    | inl busy ↦ rw (end_sync, e, busy, p) refl
    | inr still ↦ elim (Bool-cases h.ended) [
      | inl over ↦ rw (end_sync, e, still, over, p) refl
      | inr live ↦ rw (end_sync, e, still, live) (release-waits i (modify_handle i _ d) p)
    ]
  ]

abbrev Blocked : {C : Type 0} → Database C → Type 0
Blocked d = IsSafe d × (any_stuck d.handles ≡ true) × (d.pending_close_worker ≡ true)

module _ {C : Type 0} (ops : CursorOps C) where
  Step-waits : (d e : Database C) → Step ops d e → d.pending_close_worker ≡ true → waits e ≡ true
  unfolding modify_handle
  Step-waits d e (opens o open_ fresh) p = absurd (ground (arith, open_))
  Step-waits d e (nexts i h g n) p = rw p refl
  Step-waits d e (next_executes i fuel h h' rows done g q r) p = rw p refl
  Step-waits d e (next_completes i h ok g q) p = rw p refl
  Step-waits d e (next_syncs i fuel h h' r g n q) p = rw p refl
  Step-waits d e (seeks i h target g live n ok) p = rw p refl
  Step-waits d e (ends i h g) p = rw p refl
  Step-waits d e (end_executes i h g q) p = rw p refl
  Step-waits d e (end_completes i h ok g q) p =
      unfold end_complete in
      release-waits i (modify_handle i (λ x. record x { end_work = absent }) d) p
  Step-waits d e (end_syncs i h g) p = end_sync-waits i d h g p
  Step-waits d e (closes o) p = absurd (ground (arith, o))
  Step-waits d e (close_executes q) p = unfold close_execute close_database in rw p refl
  Step-waits d e (close_completes ok q) p = unfold close_complete in rw p refl

  Step-Blocked : (d e : Database C) → Step ops d e → Blocked d → Blocked e
  Step-Blocked d e t (s, a, p) =
      let s' = Step-IsSafe ops d e t s in
      let a' = Step-any_stuck ops d e t a in
      let reg = stuck-registered e.handles s'.sound a' in
      let w = Step-waits d e t p in (s', a', ground arith)

  Reach-Blocked : (d e : Database C) → Reach ops d e → Blocked d → Blocked e
  Reach-Blocked d e here b = b
  Reach-Blocked d e (then_step {d = c} r t) b = Step-Blocked c e t (Reach-Blocked d c r b)

module _ {C : Type 0} where
  failed_ended :
      (h : Handle C)
      → IsSound h
      → h.next_work ≡ executed false
      → h.ended ≡ false
      → stuck (end (next_complete false h)) ≡ true
  unfolding stuck end next_complete
  failed_ended h v f live = ground arith

  failed_same :
      (h : Handle C)
      → ((next_complete false h).registered ≡ h.registered)
        × ((next_complete false h).ended ≡ h.ended)
  unfolding next_complete
  failed_same h = (refl, refl)

  ended_head :
      (h : Handle C) (hs : List (Handle C))
      → h.registered ≡ true
      → h.ended ≡ false
      → stuck (end h) ≡ true
      → any_stuck (end_all (h ∷ hs)) ≡ true
  unfolding end_all
  ended_head h hs r live k =
      let test : (h.registered && not h.ended) ≡ true = ground arith in simp (test, k)

  ended-any_stuck :
      (hs : List (Handle C)) (i : ℕ) (h : Handle C)
      → get_elem? hs i ≡ some h
      → h.registered ≡ true
      → h.ended ≡ false
      → stuck (end h) ≡ true
      → any_stuck (end_all hs) ≡ true
  unfolding end_all
  ended-any_stuck [] i h g r live k = absurd (cc)
  ended-any_stuck (x ∷ hs) zero h g r live k =
      subst (λ (y : Handle C). any_stuck (end_all (y ∷ hs)) ≡ true) (sym (some_inj g))
        (ended_head h hs r live k)
  ended-any_stuck (x ∷ hs) (suc i) h g r live k = ground (arith, ended-any_stuck hs i h g r live k)

  -- A close that is asked for when a read has failed: the object is stuck, and the close waits.
  closed-Blocked :
      (d : Database C) (i : ℕ) (h : Handle C)
      → IsOpen d
      → IsSafe d
      → get_elem? d.handles i ≡ some h
      → h.registered ≡ true
      → h.ended ≡ false
      → stuck (end h) ≡ true
      → Blocked (close d)
  closed-Blocked d i h o s g r live k =
      let full = registered_in d.handles i h g r in
      (
        close-IsSafe d o s,
        unfold close in rw (close, full) (ended-any_stuck d.handles i h g r live k),
        unfold close in rw (close, full) refl,
      )

module _ {C : Type 0} (ops : CursorOps C) where
  -- Take any database that was opened, after any calls, worker executions and completions (no read
  -- while one is in flight on the same iterator, no seek after the end was asked for, while a read
  -- is in flight, or out of range where there are no entries, no call of iterator or close after a
  -- close was asked for, no new iterator with a number in use, no closeSync), with no close asked
  -- for, and an iterator that has not ended whose read was executed with an error status. When that
  -- read is completed and then the database closed, the close waits, and goes on waiting after
  -- whatever such calls, executions and completions follow: its worker is not queued, and the
  -- LevelDB object is not deleted.
  pub failed_read_blocks_close :
      (d₀ d e : Database C) (i : ℕ) (h : Handle C)
      → Opened d₀
      → Reach ops d₀ d
      → IsOpen d
      → get_elem? d.handles i ≡ some h
      → h.next_work ≡ executed false
      → h.ended ≡ false
      → Reach ops (close (modify_handle i (next_complete false) d)) e
      → (e.pending_close_worker ≡ true) × (e.close_work ≡ absent) × (e.db ≡ true)
  failed_read_blocks_close d₀ d e i h o r open_ g f live after =
      let s = Reach-IsSafe ops d₀ d (Opened-IsSafe d₀ o) r in
      let v = IsSound-at d i h g s in
      let back = modify_handle i (next_complete {C = C} false) d in
      let h' = next_complete false h in
      let (reg, over) = failed_same h in
      let b =
        closed-Blocked back i h' (unfold modify_handle in open_)
          (Step-IsSafe ops d back (next_completes i h false g f) s)
          (unfold modify_handle in get_elem?-modify (next_complete false) d.handles i h g)
          (reg ∙ v.held (v.active live).0) (over ∙ live) (failed_ended h v f live) in
      let (s', a', p') = Reach-Blocked ops (close back) e after b in
      let w = s'.waiting p' in (p', w.2, w.1)
