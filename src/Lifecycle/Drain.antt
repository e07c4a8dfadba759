-- ===== src/Lifecycle/Drain.antt =====
-- What is left to do for the iterators of a database that is closing, and how each step brings the
-- end nearer.
use leveldown.Base.{
  ℕ, zero, suc, ◌+◌, ◌<◌, ◌≡◌, refl, sym, ap, subst, Bool, true, false, not, ◌&&◌, some, List, [],
  ◌∷◌, All, arith, get_elem?, modify, Bool-cases, Option-cases, inl, inr, some_inj, if◌then◌else◌,
  ◌⊎◌,
}
use leveldown.Cursor.{CursorOps}
use leveldown.Iterator.{Row, Iterator, is_stuck}
use leveldown.Iterator.Returns.{Returns}
use leveldown.Lifecycle.{
  Work, absent, queued, executed, Handle, next_complete, end, end_execute, any_registered, erase,
  end_all, next_execute, check_end_callback, status_ok, finished,
}
use leveldown.Lifecycle.Invariant.{idle, iterator_next-Alike}
use leveldown.Lifecycle.Released.{unregistered}
use leveldown.Lifecycle.Ending.{EndsWell, end_pending}

abbrev pub failed : Work → Bool
failed (executed false) = true
failed w = false

pub Work-cases : (w : Work) → (w ≡ absent) ⊎ ((w ≡ queued) ⊎ ((ok : Bool) × (w ≡ executed ok)))
Work-cases absent = inl refl
Work-cases queued = inr (inl refl)
Work-cases (executed ok) = inr (inr (ok, refl))

-- No read has failed, or has come back without its clean-up.
abbrev pub IsHealthy : {C : Type 0} → Handle C → Type 0
IsHealthy h = (failed h.next_work ≡ false) × (h.nexting ≡ true → idle h.next_work ≡ false)

-- Healthy, and whoever is in the database's map is about to leave it.
abbrev pub IsLeaving : {C : Type 0} → Handle C → Type 0
IsLeaving h = IsHealthy h × (h.registered ≡ true → end_pending h ≡ true)

-- A worker has two steps left when it is queued and one when it is executed; an end that is stored
-- has yet to be queued.
abbrev work_left : Work → ℕ
work_left absent = 0
work_left queued = 2
work_left (executed ok) = 1

abbrev handle_left : {C : Type 0} → Handle C → ℕ
handle_left h = work_left h.next_work + (if h.end_worker then 3 else 0) + work_left h.end_work

abbrev pub steps_left : {C : Type 0} → List (Handle C) → ℕ
steps_left [] = 0
steps_left (h ∷ hs) = handle_left h + steps_left hs

module _ {C : Type 0} where
  pub steps_left-erase : (id : ℕ) (hs : List (Handle C)) → steps_left (erase id hs) ≡ steps_left hs
  unfolding erase
  steps_left-erase id [] = refl
  steps_left-erase id (h ∷ hs) = ground (arith, steps_left-erase id hs)

  pub steps_left-modify :
      (f : Handle C → Handle C) (hs : List (Handle C)) (i : ℕ) (h : Handle C)
      → get_elem? hs i ≡ some h
      → handle_left (f h) < handle_left h
      → steps_left (modify i f hs) < steps_left hs
  steps_left-modify f [] i h e l = absurd (cc)
  steps_left-modify f (x ∷ hs) zero h e l =
      let l' : handle_left (f x) < handle_left x =
        subst (λ y. handle_left (f y) < handle_left y) (sym (some_inj e)) l in
      omega (arith, l')
  steps_left-modify f (x ∷ hs) (suc i) h e l = omega (arith, steps_left-modify f hs i h e l)

  -- Someone in the map has a place in the list.
  pub registered-at :
      (hs : List (Handle C))
      → any_registered hs ≡ true
      → (i : ℕ) × (h : Handle C) × (get_elem? hs i ≡ some h) × (h.registered ≡ true)
  unfolding any_registered
  registered-at [] a = absurd (cc)
  registered-at (x ∷ hs) a = elim (Bool-cases x.registered) [
    | inl r ↦ (0, x, refl, r)
    | inr r ↦ let (i, h, e, s) = registered-at hs (ground arith) in (suc i, h, e, s)
  ]

  end_IsLeaving :
      (h : Handle C)
      → IsHealthy h
      → EndsWell h
      → IsLeaving (if h.registered && not h.ended then end h else h)
  unfolding end
  end_IsLeaving h s w = ((ground arith, λ n. ground (arith, s.1)), λ r. ground (arith, w))

  -- The loop of `Close` sees to it that all are leaving.
  pub end_all-IsLeaving :
      (hs : List (Handle C))
      → All (λ (h : Handle C). IsHealthy h) hs
      → All (λ (h : Handle C). EndsWell h) hs
      → All (λ (h : Handle C). IsLeaving h) (end_all hs)
  unfolding end_all
  end_all-IsLeaving [] s w = tt
  end_all-IsLeaving (h ∷ hs) s w = (end_IsLeaving h s.0 w.0, end_all-IsLeaving hs s.1 w.1)

  -- Nobody in the map has to leave it.
  pub none_registered-IsLeaving :
      (hs : List (Handle C))
      → any_registered hs ≡ false
      → All (λ (h : Handle C). IsHealthy h) hs
      → All (λ (h : Handle C). IsLeaving h) hs
  unfolding any_registered
  none_registered-IsLeaving [] n s = tt
  none_registered-IsLeaving (h ∷ hs) n s =
      ((s.0, λ r. absurd (ground arith)), none_registered-IsLeaving hs (ground arith) s.1)

  -- Each step leaves its object leaving, and with less to do.
  abbrev pub Nearer : Handle C → Handle C → Type 0
  Nearer h' h = IsLeaving h' × (handle_left h' < handle_left h)

  pub end_execute-Nearer :
      (h : Handle C) → h.end_work ≡ queued → IsLeaving h → Nearer (end_execute h) h
  unfolding end_execute
  end_execute-Nearer h q s = ((s.0, λ r. ground arith), ground arith)

  pub end_complete-Nearer :
      (h : Handle C) (ok : Bool)
      → h.end_work ≡ executed ok
      → IsLeaving h
      → Nearer (unregistered (record h { end_work = absent })) h
  end_complete-Nearer h ok q s = ((s.0, λ r. absurd (cc)), ground arith)

  pub next_complete-Nearer :
      (h : Handle C)
      → h.next_work ≡ executed true
      → h.end_work ≡ absent
      → IsLeaving h
      → Nearer (next_complete true h) h
  unfolding next_complete check_end_callback
  next_complete-Nearer h q n s =
      (((ground arith, λ m. ground arith), λ r. ground (arith, s.1)), ground arith)

  read_back-Nearer :
      (h h' : Handle C)
      → h.next_work ≡ queued
      → h'.next_work ≡ executed true
      → h'.end_work ≡ h.end_work
      → h'.end_worker ≡ h.end_worker
      → h'.registered ≡ h.registered
      → IsLeaving h
      → Nearer h' h
  read_back-Nearer h h' q b w e r s =
      (((ground arith, λ m. ground arith), λ t. ground (arith, s.1)), rw (q, b, w, e) (omega arith))

module _ {C : Type 0} (ops : CursorOps C) where
  pub status_fine :
      ((c : C) → ops.status_ok c ≡ true)
      → (more : Bool) (it : Iterator C) → status_ok ops more it ≡ true
  unfolding status_ok
  status_fine fine true it = refl
  status_fine fine false it = elim (Option-cases it.db_iterator) [
    | inl e ↦ rw (status_ok, e) refl
    | inr (c, e) ↦ rw (status_ok, e) (fine c)
  ]

  -- A queued read does not step a cursor that has run off the end.
  abbrev pub IsUnstuck : Handle C → Type 0
  IsUnstuck h = h.next_work ≡ queued → is_stuck ops h.iterator ≡ false

  -- A queued read that steps no such cursor returns, and has not failed where no cursor reports an
  -- error.
  pub next_execute-Nearer :
      (h : Handle C)
      → Returns ops
      → ((c : C) → ops.status_ok c ≡ true)
      → IsUnstuck h
      → h.next_work ≡ queued
      → IsLeaving h
      → (fuel : ℕ) × (h' : Handle C) × (rows : List Row) × (done : Bool) × (next_execute ops fuel h
          ≡ some (h', rows, done))
        × Nearer h' h
        × IsUnstuck h'
  unfolding next_execute
  next_execute-Nearer h returns fine free q s =
      let (fuel, (got, more, it'), e) = returns h.iterator (free q) in
      let a = iterator_next-Alike ops fuel h.iterator it' got more e in
      let h' : Handle C = record h {
        iterator = it';
        next_work = executed (status_ok ops more it');
      } in
      (
        fuel,
        h',
        got,
        finished more,
        rw (next_execute, e) refl,
        read_back-Nearer h h' q (ap executed (status_fine fine more it')) refl a.2 refl s,
        λ w. absurd (cc),
      )
