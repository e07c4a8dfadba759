-- ===== src/Lifecycle/Ending.antt =====
-- Whoever has ended and is still in the database's map has an end stored or in flight.
use leveldown.Base.{
  ℕ, ◌≡◌, subst, Bool, true, false, not, ◌&&◌, ◌||◌, some, List, [], ◌∷◌, All, All-modify, All-get,
  arith, get_elem?, modify, Bool-cases, Option-cases, inl, inr, All-map, All-append,
}
use leveldown.Cursor.{CursorOps}
use leveldown.Iterator.{Row, iterator_next, Iterator}
use leveldown.Lifecycle.{
  absent, executed, Handle, Database, next, next_complete, end, end_execute, iterator_end,
  any_registered, erase, modify_handle, release, end_complete, end_sync, end_all, close,
  close_database, close_execute, close_complete, iterator, next_sync, SyncOutcome, next_execute,
  check_end_callback, status_ok, new_handle, handle_seek,
}
use leveldown.Lifecycle.Released.{unregistered, erase-All, released-All}
use leveldown.Lifecycle.Steps.{
  Step, opens, nexts, next_executes, next_completes, next_syncs, seeks, ends, end_executes,
  end_completes, end_syncs, closes, close_executes, close_completes, Reach, here, then_step,
}
use leveldown.Lifecycle.Invariant.{idle, iterator_next-Alike, seek_ended}

module _ {C : Type 0} where
  -- An end is stored for when a read comes back, or is in flight.
  abbrev pub end_pending : Handle C → Bool
  end_pending h = h.end_worker || not (idle h.end_work)

  abbrev pub EndsWell : Handle C → Type 0
  EndsWell h = h.registered ≡ true → h.ended ≡ true → end_pending h ≡ true

  out-EndsWell : (h : Handle C) → EndsWell (unregistered h)
  out-EndsWell h r n = absurd (cc)

  erase-EndsWell :
      (id : ℕ) (hs : List (Handle C))
      → All (λ (h : Handle C). EndsWell h) hs
      → All (λ (h : Handle C). EndsWell h) (erase id hs)
  erase-EndsWell id hs a =
      erase-All (λ h. EndsWell h) id hs (All-map hs (λ h w. ((λ n. w), λ n. out-EndsWell h)) a)

  next-EndsWell : (h : Handle C) → EndsWell h → EndsWell (next h).0
  unfolding next
  next-EndsWell h w r n = ground (arith, w)

  next_complete-EndsWell : (ok : Bool) (h : Handle C) → EndsWell h → EndsWell (next_complete ok h)
  unfolding next_complete check_end_callback
  next_complete-EndsWell true h w r n = ground (arith, w)
  next_complete-EndsWell false h w r n = ground (arith, w)

  end-EndsWell : (h : Handle C) → EndsWell h → EndsWell (end h)
  unfolding end
  end-EndsWell h w r n = ground (arith, w)

  end_execute-EndsWell : (h : Handle C) → EndsWell (end_execute h)
  unfolding end_execute
  end_execute-EndsWell h r n = ground arith

  end_all-EndsWell :
      (hs : List (Handle C))
      → All (λ (h : Handle C). EndsWell h) hs
      → All (λ (h : Handle C). EndsWell h) (end_all hs)
  unfolding end_all
  end_all-EndsWell [] a = tt
  end_all-EndsWell (h ∷ hs) a = elim (Bool-cases (h.registered && not h.ended)) [
    | inl e ↦ rw e (end-EndsWell h a.0, end_all-EndsWell hs a.1)
    | inr e ↦ rw e (a.0, end_all-EndsWell hs a.1)
  ]

  changed :
      (f : Handle C → Handle C) (d : Database C) (i : ℕ) (h : Handle C)
      → get_elem? d.handles i ≡ some h
      → (EndsWell h → EndsWell (f h))
      → All (λ (x : Handle C). EndsWell x) d.handles
      → All (λ (x : Handle C). EndsWell x) (modify i f d.handles)
  changed f d i h e k a =
      All-modify (λ (x : Handle C). EndsWell x) f d.handles i h a e
        (k (All-get (λ (x : Handle C). EndsWell x) d.handles i h a e))

  released-EndsWell :
      (f : Handle C → Handle C) (i : ℕ) (d : Database C) (h : Handle C)
      → get_elem? d.handles i ≡ some h
      → All (λ (x : Handle C). EndsWell x) d.handles
      → All (λ (x : Handle C). EndsWell x) (release i (modify_handle i f d)).handles
  released-EndsWell f i d h e a =
      released-All (λ x. EndsWell x) f i d h e (λ x w. out-EndsWell x) (out-EndsWell (f h)) a

  end_sync-EndsWell :
      (i : ℕ) (d : Database C) (h : Handle C)
      → get_elem? d.handles i ≡ some h
      → All (λ (x : Handle C). EndsWell x) d.handles
      → All (λ (x : Handle C). EndsWell x) (end_sync i d).0.handles
  unfolding end_sync
  end_sync-EndsWell i d h e a = elim (Bool-cases h.nexting) [
    | inl busy ↦ rw (end_sync, e, busy) a
    | inr still ↦ elim (Bool-cases h.ended) [
      | inl over ↦ rw (end_sync, e, still, over) a
      | inr live ↦
          rw (end_sync, e, still, live)
            (released-EndsWell
              (λ x. iterator_end (record x { iterator = record x.iterator { ended = true } })) i d h
              e a)
    ]
  ]

module _ {C : Type 0} (ops : CursorOps C) where
  next_execute-EndsWell :
      (fuel : ℕ) (h h' : Handle C) (rows : List Row) (done : Bool)
      → next_execute ops fuel h ≡ some (h', rows, done)
      → EndsWell h
      → EndsWell h'
  unfolding next_execute
  next_execute-EndsWell fuel h h' rows done e w =
      elim (Option-cases (iterator_next ops fuel h.iterator)) [
        | inl n ↦ absurd (ground (arith, n))
        | inr ((got, more, it'), n) ↦
            let a = iterator_next-Alike ops fuel h.iterator it' got more n in
            let new : Handle C = record h {
              iterator = it';
              next_work = executed (status_ok ops more it');
            } in
            let same : new ≡ h' = ground (arith, n) in
            subst (λ x. EndsWell x) same (λ r o. ground (arith, a, w))
      ]

  next_sync-EndsWell :
      (fuel : ℕ) (h h' : Handle C) (r : SyncOutcome)
      → next_sync ops fuel h ≡ some (h', r)
      → EndsWell h
      → EndsWell h'
  unfolding next_sync check_end_callback
  next_sync-EndsWell fuel h h' r e w = elim (Bool-cases h.ended) [
    | inl over ↦ let same : h ≡ h' = ground arith in subst (λ x. EndsWell x) same w
    | inr live ↦
        let begun : Iterator C = record h.iterator { nexting = true } in
        elim (Option-cases (iterator_next ops fuel begun)) [
          | inl n ↦ absurd (ground (arith, n))
          | inr ((got, more, it'), n) ↦
              let a = iterator_next-Alike ops fuel begun it' got more n in
              let over : h'.ended ≡ false = ground (arith, n, a) in λ r o. absurd (cc)
        ]
  ]

  Step-EndsWell :
      (d e : Database C)
      → Step ops d e
      → All (λ (h : Handle C). EndsWell h) d.handles
      → All (λ (h : Handle C). EndsWell h) e.handles
  unfolding iterator new_handle modify_handle close close_execute close_database close_complete
      end_complete
  Step-EndsWell d e (opens o open_ fresh) a =
      All-append (λ (h : Handle C). EndsWell h) (erase d.current_iterator_id d.handles) _
        (erase-EndsWell d.current_iterator_id d.handles a) ((λ r n. absurd (cc)), tt)
  Step-EndsWell d e (nexts i h g n) a = changed (λ x. (next x).0) d i h g (next-EndsWell h) a
  Step-EndsWell d e (next_executes i fuel h h' rows done g q r) a =
      changed (λ x. h') d i h g (next_execute-EndsWell fuel h h' rows done r) a
  Step-EndsWell d e (next_completes i h ok g q) a =
      changed (next_complete ok) d i h g (next_complete-EndsWell ok h) a
  Step-EndsWell d e (next_syncs i fuel h h' r g n q) a =
      changed (λ x. h') d i h g (next_sync-EndsWell fuel h h' r q) a
  Step-EndsWell d e (seeks i h target g live n ok) a =
      changed (handle_seek ops target) d i h g
        (λ w r o. absurd (ground (arith, seek_ended ops target h))) a
  Step-EndsWell d e (ends i h g) a = changed end d i h g (end-EndsWell h) a
  Step-EndsWell d e (end_executes i h g q) a =
      changed end_execute d i h g (λ w. end_execute-EndsWell h) a
  Step-EndsWell d e (end_completes i h ok g q) a =
      released-EndsWell (λ x. record x { end_work = absent }) i d h g a
  Step-EndsWell d e (end_syncs i h g) a = end_sync-EndsWell i d h g a
  Step-EndsWell d e (closes o) a = elim (Bool-cases (any_registered d.handles)) [
    | inl x ↦ rw (close, x) (end_all-EndsWell d.handles a)
    | inr x ↦ rw (close, x) a
  ]
  Step-EndsWell d e (close_executes q) a = a
  Step-EndsWell d e (close_completes ok q) a = a

  pub Reach-EndsWell :
      (d e : Database C)
      → Reach ops d e
      → All (λ (h : Handle C). EndsWell h) d.handles
      → All (λ (h : Handle C). EndsWell h) e.handles
  Reach-EndsWell d e here a = a
  Reach-EndsWell d e (then_step {d = c} r t) a = Step-EndsWell c e t (Reach-EndsWell d c r a)
