-- ===== src/Lifecycle/Synchronous.antt =====
-- `NextSync` against `Next` with its worker executed and completed at once.
use leveldown.Base.{
  ℕ, ◌≡◌, refl, ◌∙◌, ap, Bool, true, false, some, List, arith, Option-cases, inl, inr, subst, none,
  some_inj, ◌≢◌, if◌then◌else◌,
}
use leveldown.Cursor.{CursorOps}
use leveldown.Iterator.{Row, Iterator, iterator_next}
use leveldown.Lifecycle.{
  absent, queued, executed, Handle, rows, next, next_execute, next_complete, next_sync,
  check_end_callback, status_ok, finished,
}

executed_inj : (a b : Bool) → executed a ≡ executed b → a ≡ b
executed_inj a b e = ap (λ w. elim w [ executed ok ↦ ok | _ ↦ true ]) e

if_false : {A : Type 0} {b : Bool} (x y : A) → b ≡ false → (if b then x else y) ≡ y
if_false x y e = rw e refl

module _ {C : Type 0} where
  -- The object while its read is in flight.
  abbrev reading : Handle C → Handle C
  reading h = record h { iterator = record h.iterator { nexting = true }; next_work = queued }

  next_live : (h : Handle C) → h.ended ≡ false → (next h).0 ≡ reading h
  unfolding next
  next_live h live = rw (next, live) refl

module _ {C : Type 0} (ops : CursorOps C) where
  next_execute-none :
      (fuel : ℕ) (h : Handle C) (r : Handle C × List Row × Bool)
      → iterator_next ops fuel h.iterator ≡ none
      → next_execute ops fuel h ≢ some r
  unfolding next_execute
  next_execute-none fuel h r n e = ground (arith, rw (next_execute, n) at e)

  next_execute-some :
      (fuel : ℕ) (h : Handle C) (r : Handle C × List Row × Bool) (got : List Row) (more : Bool)
      (it' : Iterator C)
      → iterator_next ops fuel h.iterator ≡ some (got, more, it')
      → next_execute ops fuel h ≡ some r
      → (
        record h { iterator = it'; next_work = executed (status_ok ops more it') },
        got,
        finished more,
      )
        ≡ r
  unfolding next_execute
  next_execute-some fuel h r got more it' n e = some_inj (rw (next_execute, n) at e)

  next_sync_good :
      (fuel : ℕ) (h : Handle C) (got : List Row) (more : Bool) (it' : Iterator C)
      → h.ended ≡ false
      → iterator_next ops fuel (record h.iterator { nexting = true }) ≡ some (got, more, it')
      → status_ok ops more it' ≡ true
      → next_sync ops fuel h
        ≡ some (check_end_callback (record h { iterator = it' }), rows got (finished more))
  unfolding next_sync
  next_sync_good fuel h got more it' live n good = rw (next_sync, n, good) (if_false _ _ live)

  -- Where an iterator has not ended and no read is in flight on it: when the worker of `Next` is
  -- executed with an ok status, `NextSync` in its place gives the same rows and the same report of the
  -- end, and leaves the iterator as the completed worker does.
  pub next_sync-next :
      (fuel : ℕ) (h h' : Handle C) (got : List Row) (done : Bool)
      → h.ended ≡ false
      → h.next_work ≡ absent
      → next_execute ops fuel (next h).0 ≡ some (h', got, done)
      → h'.next_work ≡ executed true
      → next_sync ops fuel h ≡ some (next_complete true h', rows got done)
  unfolding next_complete
  next_sync-next fuel h h' got done live rest e ok =
      let begun : Iterator C = record h.iterator { nexting = true } in
      let e' = subst (λ x. next_execute ops fuel x ≡ some (h', got, done)) (next_live h live) e in
      elim (Option-cases (iterator_next ops fuel begun)) [
        | inl n ↦ absurd (next_execute-none fuel (reading h) (h', got, done) n e')
        | inr ((got', more, it'), n) ↦
            let same = next_execute-some fuel (reading h) (h', got, done) got' more it' n e' in
            let good : status_ok ops more it' ≡ true =
              executed_inj _ _ (ap (λ p. p.0.next_work) same ∙ ok) in
            next_sync_good fuel h got' more it' live n good
            ∙ ap
                (λ w. some (
                  check_end_callback (record h { iterator = it'; next_work = w }),
                  rows got' (finished more),
                ))
                rest
            ∙ ap (λ p. some (next_complete true p.0, rows p.1 p.2)) same
      ]
