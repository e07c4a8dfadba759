-- ===== src/Lifecycle/Finishes.antt =====
-- A close finishes: the steps that are left are taken one by one, until the database is closed.
use leveldown.Base.{
  ℕ, zero, suc, ◌≤◌, ◌<◌, ◌≡◌, refl, sym, ◌∙◌, ap, subst, Bool, true, false, ◌||◌, some, All,
  All-modify, All-get, arith, get_elem?, modify, Bool-cases, Option-cases, inl, inr,
  get_elem?-modify,
}
use leveldown.Cursor.{CursorOps}
use leveldown.Lifecycle.{
  Work, absent, queued, executed, Handle, Database, next_complete, end, end_execute, any_registered,
  modify_handle, release, end_complete, end_all, release_iterator, close, close_execute,
  close_complete, check_end_callback, iterator_end,
}
use leveldown.Lifecycle.Drain.{
  IsLeaving, Nearer, steps_left, end_complete-Nearer, registered-at, steps_left-modify, Work-cases,
  IsUnstuck, steps_left-erase, end_execute-Nearer, next_execute-Nearer, next_complete-Nearer,
}
use leveldown.Lifecycle.Registry.{IsSafe}
use leveldown.Lifecycle.Invariant.{awaits, idle}
use leveldown.Lifecycle.Safety.{Step-IsSafe, IsSound-at}
use leveldown.Lifecycle.Released.{release-handles, released-All}
use leveldown.Iterator.{is_stuck}
use leveldown.Iterator.Returns.{Returns}
use leveldown.Lifecycle.Steps.{
  Step, Reach, here, then_step, end_completes, close_executes, close_completes, end_executes,
  next_executes, next_completes,
}

module _ {C : Type 0} where
  -- All are leaving, and the close waits for them or is queued.
  abbrev pub Draining : Database C → Type 0
  Draining d =
      IsSafe d
      × All (λ (h : Handle C). IsLeaving h) d.handles
      × ((d.pending_close_worker || awaits d.close_work) ≡ true)

  release_iterator-waits :
      (id : ℕ) (d : Database C)
      → (d.pending_close_worker || awaits d.close_work) ≡ true
      → ((release_iterator id d).pending_close_worker || awaits (release_iterator id d).close_work)
        ≡ true
  unfolding release_iterator
  release_iterator-waits id d w = ground arith

  release-waits :
      (i : ℕ) (d : Database C)
      → (d.pending_close_worker || awaits d.close_work) ≡ true
      → ((release i d).pending_close_worker || awaits (release i d).close_work) ≡ true
  unfolding release
  release-waits i d w = elim (Option-cases (get_elem? d.handles i)) [
    | inl e ↦ rw (release, e) w
    | inr (h, e) ↦ rw (release, e) (release_iterator-waits h.id d w)
  ]

module _ {C : Type 0} (ops : CursorOps C) where
  -- No read that is queued steps a cursor that has run off the end.
  abbrev pub AllUnstuck : Database C → Type 0
  AllUnstuck d = All (λ (h : Handle C). IsUnstuck ops h) d.handles

  abbrev Advances : Database C → Type 0
  Advances d =
      (e : Database C) × Step ops d e
      × Draining e
      × AllUnstuck e
      × (steps_left e.handles < steps_left d.handles)

  modify-Advances :
      (f : Handle C → Handle C) (d : Database C) (i : ℕ) (h : Handle C)
      → get_elem? d.handles i ≡ some h
      → Step ops d (modify_handle i f d)
      → Nearer (f h) h
      → IsUnstuck ops (f h)
      → AllUnstuck d
      → Draining d
      → Advances d
  unfolding modify_handle
  modify-Advances f d i h e step near free all_free (s, l, w) = (
    modify_handle i f d,
    step,
    (
      Step-IsSafe ops d (modify_handle i f d) step s,
      All-modify (λ (x : Handle C). IsLeaving x) f d.handles i h l e near.0,
      w,
    ),
    All-modify (λ (x : Handle C). IsUnstuck ops x) f d.handles i h all_free e free,
    steps_left-modify f d.handles i h e near.1,
  )

  same_left :
      (f : Handle C → Handle C) (d : Database C) (i : ℕ) (h : Handle C)
      → get_elem? d.handles i ≡ some h
      → steps_left (release i (modify_handle i f d)).handles ≡ steps_left (modify i f d.handles)
  unfolding modify_handle
  same_left f d i h e =
      ap steps_left
        (release-handles i (modify_handle i f d) (f h) (get_elem?-modify f d.handles i h e))
      ∙ steps_left-erase (f h).id (modify i f d.handles)

  pub end_complete-Draining :
      (d : Database C) (i : ℕ) (h : Handle C) (ok : Bool)
      → get_elem? d.handles i ≡ some h
      → h.end_work ≡ executed ok
      → Draining d
      → Draining (end_complete i d)
  unfolding end_complete
  end_complete-Draining d i h ok e q (s, l, w) =
      let clear = λ (x : Handle C). record x { end_work = absent } in
      let leaving = All-get (λ (x : Handle C). IsLeaving x) d.handles i h l e in
      (
        Step-IsSafe ops d (end_complete i d) (end_completes i h ok e q) s,
        released-All (λ (x : Handle C). IsLeaving x) clear i d h e (λ x p. (p.0, λ r. absurd (cc)))
            (end_complete-Nearer h ok q leaving).0 l,
        release-waits i (modify_handle i clear d) (unfold modify_handle in w),
      )

  end_complete-Advances :
      (d : Database C) (i : ℕ) (h : Handle C) (ok : Bool)
      → get_elem? d.handles i ≡ some h
      → h.end_work ≡ executed ok
      → AllUnstuck d
      → Draining d
      → Advances d
  unfolding end_complete
  end_complete-Advances d i h ok e q free k =
      let clear = λ (x : Handle C). record x { end_work = absent } in
      let leaving = All-get (λ (x : Handle C). IsLeaving x) d.handles i h k.1 e in
      (
        end_complete i d,
        end_completes i h ok e q,
        end_complete-Draining d i h ok e q k,
        released-All (λ (x : Handle C). IsUnstuck ops x) clear i d h e (λ x u. u)
            (All-get (λ (x : Handle C). IsUnstuck ops x) d.handles i h free e) free,
        subst (λ n. n < steps_left d.handles) (sym (same_left clear d i h e))
            (steps_left-modify clear d.handles i h e (end_complete-Nearer h ok q leaving).1),
      )

  next_complete-IsUnstuck : (h : Handle C) → IsUnstuck ops (next_complete true h)
  unfolding next_complete check_end_callback
  next_complete-IsUnstuck h q = absurd (ground arith)

  -- While someone is in the map, some step is possible.
  one_Advances :
      (d : Database C)
      → Returns ops
      → ((c : C) → ops.status_ok c ≡ true)
      → any_registered d.handles ≡ true
      → AllUnstuck d
      → Draining d
      → Advances d
  unfolding is_stuck end_execute iterator_end
  one_Advances d returns fine r all_free (s, l, w) =
      let (i, h, e, reg) = registered-at d.handles r in
      let leaving = All-get (λ (x : Handle C). IsLeaving x) d.handles i h l e in
      let sound = IsSound-at d i h e s in
      let free = All-get (λ (x : Handle C). IsUnstuck ops x) d.handles i h all_free e in
      elim (Work-cases h.end_work) [
        | inr (inr (ok, done)) ↦ end_complete-Advances d i h ok e done all_free (s, l, w)
        | inr (inl waits) ↦
            modify-Advances end_execute d i h e (end_executes i h e waits)
              (end_execute-Nearer h waits leaving) (λ q. refl) all_free (s, l, w)
        | inl none_yet ↦
            let stored : h.end_worker ≡ true = ground (arith, leaving.1 reg) in
            let busy : idle h.next_work ≡ false = leaving.0.1 (sound.stored stored).0 in
            elim (Work-cases h.next_work) [
              | inl n ↦ absurd (ground arith)
              | inr (inl waits) ↦
                  let (fuel, h', rows, over, runs, near, free') =
                    next_execute-Nearer ops h returns fine free waits leaving in
                  modify-Advances (λ x. h') d i h e
                    (next_executes i fuel h h' rows over e waits runs) near free' all_free (s, l, w)
              | inr (inr (false, done)) ↦ absurd (ground (arith, leaving.0.0))
              | inr (inr (true, done)) ↦
                  modify-Advances (next_complete true) d i h e (next_completes i h true e done)
                    (next_complete-Nearer h done none_yet leaving) (next_complete-IsUnstuck h)
                    all_free (s, l, w)
            ]
      ]

  then_reach : (d e f : Database C) → Step ops d e → Reach ops e f → Reach ops d f
  then_reach d e f step here = then_step here step
  then_reach d e f step (then_step {d = c} r last) = then_step (then_reach d e c step r) last

  -- The database can get to where it is closed and the close has called back.
  abbrev pub Finishes : Database C → Type 0
  Finishes d = (e : Database C) × Reach ops d e × (e.db ≡ false) × (e.close_work ≡ absent)

  empty-Finishes : (d : Database C) → any_registered d.handles ≡ false → Draining d → Finishes d
  unfolding close_execute close_complete leveldown.Lifecycle.close_database
  empty-Finishes d r (s, l, w) =
      let ready : d.close_work ≡ queued = ground (arith, s.waiting) in
      (
        close_complete (close_execute d),
        then_step (then_step here (close_executes ready)) (close_completes true refl),
        refl,
        refl,
      )

  pub Draining-Finishes :
      Returns ops
      → ((c : C) → ops.status_ok c ≡ true)
      → (n : ℕ) (d : Database C) → steps_left d.handles ≤ n
      → AllUnstuck d
      → Draining d
      → Finishes d
  Draining-Finishes returns fine zero d b free k = elim (Bool-cases (any_registered d.handles)) [
    | inr r ↦ empty-Finishes d r k
    | inl r ↦
        let (e, step, k', free', less) = one_Advances d returns fine r free k in
        absurd (omega arith)
  ]
  Draining-Finishes returns fine (suc n) d b free k = elim (Bool-cases (any_registered d.handles)) [
    | inr r ↦ empty-Finishes d r k
    | inl r ↦
        let (e, step, k', free', less) = one_Advances d returns fine r free k in
        let (f, reach, closed, called) =
          Draining-Finishes returns fine n e (omega arith) free' k' in
        (f, then_reach d e f step reach, closed, called)
  ]
