-- ===== src/Lifecycle/Safety.antt =====
-- The life of a database in every interleaving of calls, workers and completions.
use leveldown.Base.{
  ℕ, zero, suc, ◌≡◌, ◌≢◌, refl, sym, ◌∙◌, ap, subst, Bool, true, false, not, ◌&&◌, ◌||◌, some, List,
  [], ◌∷◌, All, All-get, Sorted, arith, get_elem?, get_elem?-modify, Bool-cases, inl, inr, some_inj,
  is_some,
}
use leveldown.Bytes.{Bytes}
use leveldown.Cursor.{CursorOps}
use leveldown.Lifecycle.{
  absent, executed, Handle, Database, next, next_complete, end, end_execute, iterator_end,
  handle_seek, any_registered, modify_handle, end_complete, end_sync,
}
use leveldown.Lifecycle.Steps.{
  IsOpen, Step, opens, nexts, next_executes, next_completes, next_syncs, seeks, ends, end_executes,
  end_completes, end_syncs, closes, close_executes, close_completes, Reach, here, then_step,
}
use leveldown.Lifecycle.Invariant.{
  idle, IsSound, next-IsSound, next_complete-IsSound, end-IsSound, end_execute-IsSound,
  handle_seek-IsSound, next_execute-IsSound, next_sync-IsSound,
}
use leveldown.Lifecycle.Registry.{IsSafe, modify-IsSafe, release-IsSafe}
use leveldown.Lifecycle.Closing.{
  close-IsSafe, close_execute-IsSafe, close_complete-IsSafe, iterator-IsSafe, end_same,
}

module _ {C : Type 0} where
  pub end_execute_same :
      (h : Handle C) → ((end_execute h).id ≡ h.id) × ((end_execute h).registered ≡ h.registered)
  unfolding end_execute iterator_end
  end_execute_same h = (refl, refl)

  pub next_same : (h : Handle C) → ((next h).0.id ≡ h.id) × ((next h).0.registered ≡ h.registered)
  unfolding next
  next_same h = ground arith

  pub next_complete_same :
      (ok : Bool) (h : Handle C)
      → ((next_complete ok h).id ≡ h.id) × ((next_complete ok h).registered ≡ h.registered)
  unfolding next_complete
  next_complete_same true h = ground arith
  next_complete_same false h = ground arith

  end_complete-IsSafe :
      (i : ℕ) (d : Database C) (h : Handle C) (ok : Bool)
      → get_elem? d.handles i ≡ some h
      → h.end_work ≡ executed ok
      → IsSafe d
      → IsSafe (end_complete i d)
  unfolding end_complete modify_handle
  end_complete-IsSafe i d h ok e q s =
      let clear = λ (x : Handle C). record x { end_work = absent } in
      let v = All-get (λ (x : Handle C). IsSound x) d.handles i h s.sound e in
      release-IsSafe i (modify_handle i clear d) (clear h) (get_elem?-modify clear d.handles i h e)
        (ground (arith, v)) refl (modify-IsSafe clear d i h e (cleared h v q) refl refl s)
    where
      cleared :
          (h : Handle C)
          → IsSound h
          → h.end_work ≡ executed ok
          → IsSound (record h { end_work = absent })
      cleared h v q = ground arith

  pub IsSound-at :
      (d : Database C) (i : ℕ) (h : Handle C)
      → get_elem? d.handles i ≡ some h
      → IsSafe d
      → IsSound h
  IsSound-at d i h g s = All-get (λ (x : Handle C). IsSound x) d.handles i h s.sound g

  stopped-IsSound :
      (h : Handle C)
      → h.nexting ≡ false
      → h.ended ≡ false
      → IsSound h
      → IsSound (iterator_end (record h { iterator = record h.iterator { ended = true } }))
  unfolding iterator_end
  stopped-IsSound h n e v = ground arith

  stopped_same :
      (h : Handle C)
      → ((iterator_end (record h { iterator = record h.iterator { ended = true } })).id ≡ h.id)
        × ((iterator_end (record h { iterator = record h.iterator { ended = true } })).registered
            ≡ h.registered)
        × ((iterator_end (record h { iterator = record h.iterator { ended = true } })).snapshot
            ≡ false)
        × ((iterator_end (record h { iterator = record h.iterator { ended = true } })).end_work
            ≡ h.end_work)
  unfolding iterator_end
  stopped_same h = (refl, refl, refl, refl)

  end_sync-IsSafe :
      (i : ℕ) (d : Database C) (h : Handle C)
      → get_elem? d.handles i ≡ some h
      → IsSafe d
      → IsSafe (end_sync i d).0
  unfolding end_sync
  end_sync-IsSafe i d h e s = elim (Bool-cases h.nexting) [
    | inl busy ↦ rw (end_sync, e, busy) s
    | inr still ↦ elim (Bool-cases h.ended) [
      | inl over ↦ rw (end_sync, e, still, over) s
      | inr live ↦
          let v = All-get (λ (x : Handle C). IsSound x) d.handles i h s.sound e in
          let stop = λ (x : Handle C).
            iterator_end (record x { iterator = record x.iterator { ended = true } }) in
          let (same, reg, gone, ending) = stopped_same h in
          rw (end_sync, e, still, live)
            (release-IsSafe i (modify_handle i stop d) (stop h)
              (unfold modify_handle in get_elem?-modify stop d.handles i h e) gone
              (ap idle ending ∙ (v.active live).1)
              (modify-IsSafe stop d i h e (stopped-IsSound h still live v) same reg s))
    ]
  ]

module _ {C : Type 0} (ops : CursorOps C) where
  seek_same :
      (target : Bytes) (h : Handle C)
      → ((handle_seek ops target h).id ≡ h.id)
        × ((handle_seek ops target h).registered ≡ h.registered)
  unfolding handle_seek
  seek_same target h = (refl, refl)

  pub Step-IsSafe : (d e : Database C) → Step ops d e → IsSafe d → IsSafe e
  Step-IsSafe d e (opens o open_ fresh) s = iterator-IsSafe o d open_ fresh s
  Step-IsSafe d e (nexts i h g n) s =
      let (same, reg) = next_same h in
      modify-IsSafe (λ x. (next x).0) d i h g (next-IsSound h n (IsSound-at d i h g s)) same reg s
  Step-IsSafe d e (next_executes i fuel h h' rows done g q r) s =
      let (v, same, reg) =
        next_execute-IsSound ops fuel h h' rows done r q (IsSound-at d i h g s) in
      modify-IsSafe (λ x. h') d i h g v same reg s
  Step-IsSafe d e (next_completes i h ok g q) s =
      let (same, reg) = next_complete_same ok h in
      modify-IsSafe (next_complete ok) d i h g (next_complete-IsSound h ok q (IsSound-at d i h g s))
        same reg s
  Step-IsSafe d e (next_syncs i fuel h h' r g n q) s =
      let (v, same, reg) = next_sync-IsSound ops fuel h h' r q n (IsSound-at d i h g s) in
      modify-IsSafe (λ x. h') d i h g v same reg s
  Step-IsSafe d e (seeks i h target g live n ok) s =
      let (same, reg) = seek_same target h in
      modify-IsSafe (handle_seek ops target) d i h g
        (handle_seek-IsSound ops target h live (IsSound-at d i h g s)) same reg s
  Step-IsSafe d e (ends i h g) s =
      let (same, reg) = end_same h in
      modify-IsSafe end d i h g (end-IsSound h (IsSound-at d i h g s)) same reg s
  Step-IsSafe d e (end_executes i h g q) s =
      let (same, reg) = end_execute_same h in
      modify-IsSafe end_execute d i h g (end_execute-IsSound h q (IsSound-at d i h g s)) same reg s
  Step-IsSafe d e (end_completes i h ok g q) s = end_complete-IsSafe i d h ok g q s
  Step-IsSafe d e (end_syncs i h g) s = end_sync-IsSafe i d h g s
  Step-IsSafe d e (closes o) s = close-IsSafe d o s
  Step-IsSafe d e (close_executes q) s = close_execute-IsSafe d q s
  Step-IsSafe d e (close_completes ok q) s = close_complete-IsSafe d ok q s

  -- What every sequence of steps keeps: the invariant of the database object.
  pub Reach-IsSafe : (d e : Database C) → IsSafe d → Reach ops d e → IsSafe e
  Reach-IsSafe d e s here = s
  Reach-IsSafe d e s (then_step {d = c} r t) = Step-IsSafe c e t (Reach-IsSafe d c s r)

-- A database that has just been opened has no iterators, and no close was asked for.
abbrev pub Opened : {C : Type 0} → Database C → Type 0
Opened d = IsOpen d × (d.handles ≡ [])

module _ {C : Type 0} where
  pub Opened-IsSafe : (d : Database C) → Opened d → IsSafe d
  Opened-IsSafe d (o, e) = record {
    sound = subst (λ hs. All (λ (h : Handle C). IsSound h) hs) (sym e) tt;
    apart = subst (λ hs. Sorted (λ (h k : Handle C). h.id ≢ k.id) hs) (sym e) tt;
    closed = λ c. ap any_registered e ∙ unfold any_registered in refl;
    waiting = λ p. absurd (ground (arith, o));
  }

  pub registered_in :
      (hs : List (Handle C)) (i : ℕ) (h : Handle C)
      → get_elem? hs i ≡ some h
      → h.registered ≡ true
      → any_registered hs ≡ true
  unfolding any_registered
  registered_in [] i h g r = absurd (cc)
  registered_in (x ∷ hs) zero h g r = rw (some_inj g, r) refl
  registered_in (x ∷ hs) (suc i) h g r = elim (Bool-cases x.registered) [
    | inl e ↦ rw e refl
    | inr e ↦ rw e (registered_in hs i h g r)
  ]

  held_open :
      (d : Database C) (i : ℕ) (h : Handle C)
      → IsSafe d
      → get_elem? d.handles i ≡ some h
      → h.registered ≡ true
      → (idle d.close_work && d.db) ≡ true
  held_open d i h s g r = elim (Bool-cases (idle d.close_work && d.db)) [
    | inl e ↦ e
    | inr e ↦ let full = registered_in d.handles i h g r in let empty = s.closed e in absurd (cc)
  ]

-- Whether an iterator has a cursor, holds its snapshot, or has an end in flight.
abbrev pub uses_db : {C : Type 0} → Handle C → Bool
uses_db h = is_some h.db_iterator || (h.snapshot || not (idle h.end_work))

module _ {C : Type 0} (ops : CursorOps C) where
  -- From a database that was opened, whatever the calls, the worker executions and the completions
  -- that have happened (no read while one is in flight on the same iterator, no seek after the end
  -- was asked for, while a read is in flight, or out of range where there are no entries, no call
  -- of iterator or close after a close was asked for, no new iterator with a number in use, no
  -- closeSync): as long as an iterator has a LevelDB cursor, or holds its snapshot, or its end is
  -- in flight, the database still has its LevelDB object, and no worker that deletes it is in
  -- flight.
  pub db_outlives_cursors :
      (d e : Database C) (i : ℕ) (h : Handle C)
      → Opened d
      → Reach ops d e
      → get_elem? e.handles i ≡ some h
      → uses_db h ≡ true
      → (e.db ≡ true) × (idle e.close_work ≡ true)
  db_outlives_cursors d e i h o r g u =
      let s = Reach-IsSafe ops d e (Opened-IsSafe d o) r in
      let v = IsSound-at e i h g s in
      let both = held_open e i h s g (ground (arith, v)) in ground arith
