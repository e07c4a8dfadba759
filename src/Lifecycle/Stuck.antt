-- ===== src/Lifecycle/Stuck.antt =====
-- What a failed read leaves behind: neither `NextWorker::HandleErrorCallback` nor the error path of
-- `NextSync` runs `checkEndCallback`, so `nexting` stays set.
use leveldown.Base.{
  ℕ, zero, suc, ◌≡◌, ◌≢◌, refl, sym, ◌∙◌, ap, subst, Bool, true, false, ◌&&◌, ◌||◌, some, List, [],
  ◌∷◌, ◌++◌, All, arith, get_elem?, modify, Bool-cases, Option-cases, inl, inr, some_inj,
}
use leveldown.Cursor.{CursorOps}
use leveldown.Lifecycle.{
  absent, Handle, Database, next, next_complete, end, end_execute, iterator_end, any_registered,
  erase, modify_handle, release, end_complete, end_sync, end_all, close, close_database,
  close_execute, close_complete, iterator, release_iterator, next_sync, SyncOutcome, handle_seek,
}
use leveldown.Lifecycle.Steps.{
  Step, opens, nexts, next_executes, next_completes, next_syncs, seeks, ends, end_executes,
  end_completes, end_syncs, closes, close_executes, close_completes,
}
use leveldown.Lifecycle.Invariant.{idle, IsSound}

module _ {C : Type 0} where
  -- A read counts as in flight and none is, and an end is stored for when it comes back.
  unfoldable pub stuck : Handle C → Bool
  stuck h = h.nexting && idle h.next_work && h.ended && h.end_worker

  abbrev pub any_stuck : List (Handle C) → Bool
  any_stuck [] = false
  any_stuck (h ∷ hs) = stuck h || any_stuck hs

  stuck-modify :
      (f : Handle C → Handle C) (hs : List (Handle C)) (i : ℕ) (h : Handle C)
      → get_elem? hs i ≡ some h
      → (stuck h ≡ true → stuck (f h) ≡ true)
      → any_stuck hs ≡ true
      → any_stuck (modify i f hs) ≡ true
  stuck-modify f [] i h g k a = absurd (cc)
  stuck-modify f (x ∷ hs) zero h g k a =
      let same : x ≡ h = some_inj g in
      let k' : stuck x ≡ true → stuck (f x) ≡ true =
        subst (λ y. stuck y ≡ true → stuck (f y) ≡ true) (sym same) k in
      ground arith
  stuck-modify f (x ∷ hs) (suc i) h g k a = ground (arith, stuck-modify f hs i h g k)

  stuck-erase : (id : ℕ) (hs : List (Handle C)) → any_stuck (erase id hs) ≡ any_stuck hs
  unfolding erase stuck
  stuck-erase id [] = refl
  stuck-erase id (h ∷ hs) = ground (arith, stuck-erase id hs)

  stuck-append : (hs ks : List (Handle C)) → any_stuck hs ≡ true → any_stuck (hs ++ ks) ≡ true
  stuck-append [] ks a = absurd (cc)
  stuck-append (h ∷ hs) ks a = ground (arith, stuck-append hs ks)

  stuck-end : (h : Handle C) → stuck h ≡ true → stuck (end h) ≡ true
  unfolding end stuck
  stuck-end h e = ground arith

  pub stuck-end_all : (hs : List (Handle C)) → any_stuck hs ≡ true → any_stuck (end_all hs) ≡ true
  unfolding end_all
  stuck-end_all [] a = absurd (cc)
  stuck-end_all (h ∷ hs) a = ground (arith, stuck-end_all hs, stuck-end h)

  pub stuck-registered :
      (hs : List (Handle C))
      → All (λ (h : Handle C). IsSound h) hs
      → any_stuck hs ≡ true
      → any_registered hs ≡ true
  unfolding any_registered stuck
  stuck-registered [] s a = absurd (cc)
  stuck-registered (h ∷ hs) s a = elim (Bool-cases (stuck h)) [
    | inl e ↦ ground (arith, s.0)
    | inr e ↦ ground (arith, stuck-registered hs s.1)
  ]

module _ {C : Type 0} where
  not_stuck : (h : Handle C) → h.nexting ≡ false → stuck h ≢ true
  unfolding stuck
  not_stuck h n q = ground arith

  stuck-change :
      (f : Handle C → Handle C) (d : Database C) (i : ℕ) (h : Handle C)
      → get_elem? d.handles i ≡ some h
      → (stuck h ≡ true → stuck (f h) ≡ true)
      → any_stuck d.handles ≡ true
      → any_stuck (modify_handle i f d).handles ≡ true
  unfolding modify_handle
  stuck-change f d i h g k a = stuck-modify f d.handles i h g k a

  -- The id goes from the map, and nothing else but a start of the close that waits.
  stuck-release :
      (i : ℕ) (d : Database C) → any_stuck d.handles ≡ true → any_stuck (release i d).handles ≡ true
  unfolding release release_iterator
  stuck-release i d a = elim (Option-cases (get_elem? d.handles i)) [
    | inl e ↦ rw (release, e) a
    | inr (h, e) ↦ rw (release, e) (ground (arith, stuck-erase h.id d.handles))
  ]

  stuck-end_sync :
      (i : ℕ) (d : Database C) (h : Handle C)
      → get_elem? d.handles i ≡ some h
      → any_stuck d.handles ≡ true
      → any_stuck (end_sync i d).0.handles ≡ true
  unfolding end_sync
  stuck-end_sync i d h e a = elim (Bool-cases h.nexting) [
    | inl busy ↦ rw (end_sync, e, busy) a
    | inr still ↦ elim (Bool-cases h.ended) [
      | inl over ↦ rw (end_sync, e, still, over) a
      | inr live ↦
          let stop = λ (x : Handle C).
            iterator_end (record x { iterator = record x.iterator { ended = true } }) in
          rw (end_sync, e, still, live)
            (stuck-release i (modify_handle i stop d)
              (stuck-change stop d i h e (λ q. absurd (not_stuck h still q)) a))
    ]
  ]

  stuck-cleared : (h : Handle C) → stuck h ≡ true → stuck (record h { end_work = absent }) ≡ true
  unfolding stuck
  stuck-cleared h e = e

  end_complete_stuck :
      (i : ℕ) (d : Database C) (h : Handle C)
      → get_elem? d.handles i ≡ some h
      → any_stuck d.handles ≡ true
      → any_stuck (end_complete i d).handles ≡ true
  unfolding end_complete
  end_complete_stuck i d h g a =
      let clear = λ (x : Handle C). record x { end_work = absent } in
      stuck-release i (modify_handle i clear d) (stuck-change clear d i h g (stuck-cleared h) a)

  stuck-next : (h : Handle C) → stuck h ≡ true → stuck (next h).0 ≡ true
  unfolding next stuck
  stuck-next h e = ground arith

  stuck-end_execute : (h : Handle C) → stuck h ≡ true → stuck (end_execute h) ≡ true
  unfolding end_execute iterator_end stuck
  stuck-end_execute h e = e

  stuck-busy : (h : Handle C) → idle h.next_work ≡ false → stuck h ≢ true
  unfolding stuck
  stuck-busy h n q = ground arith

  stuck-ended : (h : Handle C) → stuck h ≡ true → h.ended ≡ true
  unfolding stuck
  stuck-ended h q = ground arith

module _ {C : Type 0} (ops : CursorOps C) where
  stuck-next_sync :
      (fuel : ℕ) (h h' : Handle C) (r : SyncOutcome)
      → next_sync ops fuel h ≡ some (h', r)
      → stuck h ≡ true
      → stuck h' ≡ true
  unfolding next_sync
  stuck-next_sync fuel h h' r e q =
      let over = stuck-ended h q in
      let same : h ≡ h' = ground arith in subst (λ x. stuck x ≡ true) same q

  pub Step-any_stuck :
      (d e : Database C) → Step ops d e → any_stuck d.handles ≡ true → any_stuck e.handles ≡ true
  unfolding iterator close
  Step-any_stuck d e (opens o open_ fresh) a =
      stuck-append (erase d.current_iterator_id d.handles) _
        (stuck-erase d.current_iterator_id d.handles ∙ a)
  Step-any_stuck d e (nexts i h g n) a = stuck-change (λ x. (next x).0) d i h g (stuck-next h) a
  Step-any_stuck d e (next_executes i fuel h h' rows done g q r) a =
      stuck-change (λ x. h') d i h g (λ p. absurd (stuck-busy h (ap idle q) p)) a
  Step-any_stuck d e (next_completes i h ok g q) a =
      stuck-change (next_complete ok) d i h g (λ p. absurd (stuck-busy h (ap idle q) p)) a
  Step-any_stuck d e (next_syncs i fuel h h' r g n q) a =
      stuck-change (λ x. h') d i h g (stuck-next_sync fuel h h' r q) a
  Step-any_stuck d e (seeks i h target g live n ok) a =
      stuck-change (handle_seek ops target) d i h g (λ p. absurd (ground (arith, stuck-ended h p)))
        a
  Step-any_stuck d e (ends i h g) a = stuck-change end d i h g (stuck-end h) a
  Step-any_stuck d e (end_executes i h g q) a =
      stuck-change end_execute d i h g (stuck-end_execute h) a
  Step-any_stuck d e (end_completes i h ok g q) a = end_complete_stuck i d h g a
  Step-any_stuck d e (end_syncs i h g) a = stuck-end_sync i d h g a
  Step-any_stuck d e (closes o) a = elim (Bool-cases (any_registered d.handles)) [
    | inl x ↦ rw (close, x) (stuck-end_all d.handles a)
    | inr x ↦ rw (close, x) a
  ]
  Step-any_stuck d e (close_executes q) a = unfold close_execute close_database in a
  Step-any_stuck d e (close_completes ok q) a = unfold close_complete in a
