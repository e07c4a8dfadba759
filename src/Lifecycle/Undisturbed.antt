-- ===== src/Lifecycle/Undisturbed.antt =====
-- While a close waits for its iterators, no call, execution or completion keeps them from leaving.
use leveldown.Base.{
  ◌≡◌, refl, sym, subst, Bool, true, false, ◌⊎◌, inl, inr, some, ℕ, List, All-modify, All-get,
  arith, get_elem?, Bool-cases, Option-cases,
}
use leveldown.Cursor.{CursorOps}
use leveldown.Iterator.{Row, iterator_next}
use leveldown.Lifecycle.{
  queued, executed, Handle, Database, next, next_complete, end, next_execute, next_sync,
  SyncOutcome, end_execute, end_sync, modify_handle, check_end_callback, status_ok, close_execute,
  close_database,
}
use leveldown.Lifecycle.Invariant.{IsSound, iterator_next-Alike}
use leveldown.Lifecycle.Registry.{IsSafe}
use leveldown.Lifecycle.Safety.{Step-IsSafe, IsSound-at}
use leveldown.Lifecycle.Steps.{
  Step, opens, nexts, next_executes, next_completes, next_syncs, seeks, ends, end_executes,
  end_completes, end_syncs, closes, close_executes, close_completes,
}
use leveldown.Lifecycle.Drain.{IsLeaving, status_fine, end_execute-Nearer}
use leveldown.Lifecycle.Finishes.{Draining, end_complete-Draining}
use leveldown.Lifecycle.Closed.{Closed}

module _ {C : Type 0} where
  -- Whoever is leaving has ended.
  leaving_ended : (h : Handle C) → IsSound h → IsLeaving h → h.ended ≡ true
  leaving_ended h s l = elim (Bool-cases h.ended) [
    | inl e ↦ e
    | inr e ↦
        absurd
          (ground (arith, s.active e, s.held (s.active e).0, l.1 (s.held (s.active e).0), s.stored))
  ]

  next_ended : (h : Handle C) → h.ended ≡ true → (next h).0 ≡ h
  unfolding next
  next_ended h e = rw (next, e) refl

  end_ended : (h : Handle C) → h.ended ≡ true → end h ≡ h
  unfolding end
  end_ended h e = rw (end, e) refl

  end_sync_ended :
      (i : ℕ) (d : Database C) (h : Handle C)
      → get_elem? d.handles i ≡ some h
      → h.ended ≡ true
      → (end_sync i d).0 ≡ d
  unfolding end_sync
  end_sync_ended i d h g e = elim (Bool-cases h.nexting) [
    | inl busy ↦ rw (end_sync, g, busy) refl
    | inr still ↦ rw (end_sync, g, still, e) refl
  ]

  ended_at :
      (d : Database C) (i : ℕ) (h : Handle C)
      → get_elem? d.handles i ≡ some h
      → Draining d
      → h.ended ≡ true
  ended_at d i h g (s, l, w) =
      leaving_ended h (IsSound-at d i h g s)
        (All-get (λ (x : Handle C). IsLeaving x) d.handles i h l g)

  IsLeaving-at :
      (d : Database C) (i : ℕ) (h : Handle C)
      → get_elem? d.handles i ≡ some h
      → Draining d
      → IsLeaving h
  IsLeaving-at d i h g (s, l, w) = All-get (λ (x : Handle C). IsLeaving x) d.handles i h l g

  next_complete-IsLeaving :
      (h : Handle C) (ok : Bool)
      → h.next_work ≡ executed ok
      → IsLeaving h
      → IsLeaving (next_complete ok h)
  unfolding next_complete check_end_callback
  next_complete-IsLeaving h true q s = ((ground arith, λ m. ground arith), λ r. ground (arith, s.1))
  next_complete-IsLeaving h false q s = absurd (ground (arith, s.0.0))

  close_execute-Closed :
      (d : Database C)
      → d.close_work ≡ queued
      → IsSafe (close_execute d)
      → Draining d
      → Closed (close_execute d)
  unfolding close_execute close_database
  close_execute-Closed d q s' (s, l, w) =
      let none_waits : d.pending_close_worker ≡ false = ground (arith, s.waiting) in
      (s', (none_waits, refl, refl))

module _ {C : Type 0} (ops : CursorOps C) where
  next_sync_ended :
      (fuel : ℕ) (h h' : Handle C) (r : SyncOutcome)
      → h.ended ≡ true
      → next_sync ops fuel h ≡ some (h', r)
      → h ≡ h'
  unfolding next_sync
  next_sync_ended fuel h h' r e q = ground arith

  next_execute-IsLeaving :
      (fuel : ℕ) (h h' : Handle C) (rows : List Row) (done : Bool)
      → ((c : C) → ops.status_ok c ≡ true)
      → next_execute ops fuel h ≡ some (h', rows, done)
      → IsLeaving h
      → IsLeaving h'
  unfolding next_execute
  next_execute-IsLeaving fuel h h' rows done fine e l =
      elim (Option-cases (iterator_next ops fuel h.iterator)) [
        | inl n ↦ absurd (ground (arith, n))
        | inr ((got, more, it'), n) ↦
            let a = iterator_next-Alike ops fuel h.iterator it' got more n in
            let ok = status_fine ops fine more it' in
            let new : Handle C = record h {
              iterator = it';
              next_work = executed (status_ok ops more it');
            } in
            let same : new ≡ h' = ground (arith, n) in
            let left : IsLeaving new =
              ((ground (arith, ok), λ m. refl), λ r. ground (arith, a, l.1)) in
            subst (λ x. IsLeaving x) same left
      ]

  changed :
      (f : Handle C → Handle C) (d : Database C) (i : ℕ) (h : Handle C)
      → get_elem? d.handles i ≡ some h
      → IsSafe (modify_handle i f d)
      → IsLeaving (f h)
      → Draining d
      → Draining (modify_handle i f d) ⊎ Closed (modify_handle i f d)
  unfolding modify_handle
  changed f d i h g s' l' (s, l, w) =
      inl (s', All-modify (λ (x : Handle C). IsLeaving x) f d.handles i h l g l', w)

  pub Step-Draining :
      (d e : Database C)
      → ((c : C) → ops.status_ok c ≡ true)
      → Step ops d e
      → Draining d
      → Draining e ⊎ Closed e
  Step-Draining d e fine (opens o open_ fresh) (s, l, w) = absurd (ground (arith, open_))
  Step-Draining d e fine (nexts i h g n) k =
      let same = next_ended h (ended_at d i h g k) in
      changed (λ x. (next x).0) d i h g (Step-IsSafe ops d e (nexts i h g n) k.0)
        (subst (λ x. IsLeaving x) (sym same) (IsLeaving-at d i h g k)) k
  Step-Draining d e fine (next_executes i fuel h h' rows done g q r) k =
      changed (λ x. h') d i h g
        (Step-IsSafe ops d e (next_executes i fuel h h' rows done g q r) k.0)
        (next_execute-IsLeaving fuel h h' rows done fine r (IsLeaving-at d i h g k)) k
  Step-Draining d e fine (next_completes i h ok g q) k =
      changed (next_complete ok) d i h g (Step-IsSafe ops d e (next_completes i h ok g q) k.0)
        (next_complete-IsLeaving h ok q (IsLeaving-at d i h g k)) k
  Step-Draining d e fine (next_syncs i fuel h h' r g n q) k =
      let same = next_sync_ended fuel h h' r (ended_at d i h g k) q in
      changed (λ x. h') d i h g (Step-IsSafe ops d e (next_syncs i fuel h h' r g n q) k.0)
        (subst (λ x. IsLeaving x) same (IsLeaving-at d i h g k)) k
  Step-Draining d e fine (seeks i h target g live n ok) k =
      absurd (ground (arith, ended_at d i h g k))
  Step-Draining d e fine (ends i h g) k =
      let same = end_ended h (ended_at d i h g k) in
      changed end d i h g (Step-IsSafe ops d e (ends i h g) k.0)
        (subst (λ x. IsLeaving x) (sym same) (IsLeaving-at d i h g k)) k
  Step-Draining d e fine (end_executes i h g q) k =
      changed end_execute d i h g (Step-IsSafe ops d e (end_executes i h g q) k.0)
        (end_execute-Nearer h q (IsLeaving-at d i h g k)).0 k
  Step-Draining d e fine (end_completes i h ok g q) k =
      inl (end_complete-Draining ops d i h ok g q k)
  Step-Draining d e fine (end_syncs i h g) k =
      inl (subst (λ x. Draining x) (sym (end_sync_ended i d h g (ended_at d i h g k))) k)
  Step-Draining d e fine (closes o) (s, l, w) = absurd (ground (arith, o))
  Step-Draining d e fine (close_executes q) k =
      inr (close_execute-Closed d q (Step-IsSafe ops d e (close_executes q) k.0) k)
  Step-Draining d e fine (close_completes ok q) (s, l, w) = absurd (ground (arith, s.waiting))
