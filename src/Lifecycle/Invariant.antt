-- ===== src/Lifecycle/Invariant.antt =====
-- What each iterator object keeps to, whatever the order of calls and workers.
use mathlib.Core.Option
use leveldown.Cursor.{CursorOps}
use leveldown.Bytes.{Bytes}
use leveldown.Iterator.{
  seek, Row, Iterator, read, examine, advance, get_iterator, collect, iterator_next, is_stuck,
}
use leveldown.Base.{
  refl, subst, ◌+◌, ◌%◌, ◌^◌, ◌∙◌, zero, suc, none, Bool-cases, Option-cases, ltb, length, ℕ, inl,
  inr, Option, List, ◌∷◌, some, subst,
}
use leveldown.Lifecycle.{handle_seek, next_execute, next_sync, SyncOutcome, queued, status_ok}
use leveldown.Base.{◌≡◌, Bool, true, false, arith, is_some}
use leveldown.Lifecycle.{
  Work, absent, executed, Handle, next, next_complete, end, end_execute, check_end_callback,
}

abbrev pub idle : Work → Bool
idle absent = true
idle _ = false

abbrev pub was_executed : Work → Bool
was_executed (executed ok) = true
was_executed _ = false

abbrev pub awaits : Work → Bool
awaits queued = true
awaits _ = false

-- A read in flight keeps the cursor; an end is stored or in flight, not both, and never beside a
-- read in flight; until it has been executed the snapshot is held; whoever holds a cursor holds the
-- snapshot, and whoever holds that, or has an end in flight, is in the database's map.
pub record IsSound {C : Type 0} (h : Handle C) : Type 0 where
  pub reading :
      idle h.next_work ≡ false → (h.nexting ≡ true) × (h.snapshot ≡ true) × (idle h.end_work ≡ true)
  pub stored :
      h.end_worker ≡ true
      → (h.nexting ≡ true) × (h.ended ≡ true) × (h.snapshot ≡ true) × (idle h.end_work ≡ true)
  pub ending : awaits h.end_work ≡ true → h.snapshot ≡ true
  pub ended_first : idle h.end_work ≡ false → (h.ended ≡ true) × (h.registered ≡ true)
  pub active : h.ended ≡ false → (h.snapshot ≡ true) × (idle h.end_work ≡ true)
  pub cursor : is_some h.db_iterator ≡ true → h.snapshot ≡ true
  pub held : h.snapshot ≡ true → h.registered ≡ true
  pub done : was_executed h.end_work ≡ true → h.snapshot ≡ false

module _ {C : Type 0} where
  pub next-IsSound : (h : Handle C) → h.next_work ≡ absent → IsSound h → IsSound (next h).0
  unfolding next
  next-IsSound h e s = ground arith

  pub next_complete-IsSound :
      (h : Handle C) (ok : Bool)
      → h.next_work ≡ executed ok
      → IsSound h
      → IsSound (next_complete ok h)
  unfolding next_complete check_end_callback
  next_complete-IsSound h true e s = ground arith
  next_complete-IsSound h false e s = ground arith

  pub end-IsSound : (h : Handle C) → IsSound h → IsSound (end h)
  unfolding end
  end-IsSound h s = ground arith

  pub end_execute-IsSound :
      (h : Handle C) → h.end_work ≡ queued → IsSound h → IsSound (end_execute h)
  unfolding end_execute
  end_execute-IsSound h e s = ground arith

-- A read changes nothing that the life of the iterator turns on.
abbrev pub Alike : {C : Type 0} → Iterator C → Iterator C → Type 0
Alike a b = (a.nexting ≡ b.nexting) × (a.ended ≡ b.ended) × (a.end_worker ≡ b.end_worker)

module _ {C : Type 0} (ops : CursorOps C) where
  pub seek-Alike : (target : Bytes) (it : Iterator C) → Alike (seek ops target it) it
  unfolding seek get_iterator
  seek-Alike target it = ground arith

  -- A seek before the end makes its cursor on the snapshot.
  pub handle_seek-IsSound :
      (target : Bytes) (h : Handle C)
      → h.ended ≡ false
      → IsSound h
      → IsSound (handle_seek ops target h)
  unfolding handle_seek
  handle_seek-IsSound target h live s = ground (arith, seek-Alike target h.iterator)

  pub seek_ended : (target : Bytes) (h : Handle C) → (handle_seek ops target h).ended ≡ h.ended
  unfolding handle_seek
  seek_ended target h = (seek-Alike target h.iterator).1

  read-Alike : (it : Iterator C) → Alike (read ops it).0 it
  unfolding read examine advance get_iterator
  read-Alike it = ground arith

  abbrev Keeps : Iterator C → Option (List Row × Bool × Iterator C) → Type 0
  Keeps it none = Unit
  Keeps it (some (rows, more, it')) = Alike it' it

  Keeps-map :
      (it it' : Iterator C) (row : Row) (r : Option (List Row × Bool × Iterator C))
      → Alike it' it
      → Keeps it' r
      → Keeps it (Option.map (λ x. (row ∷ x.0, x.1, x.2)) r)
  Keeps-map it it' row none a k = tt
  Keeps-map it it' row (some (rows, more, x)) a k = (k.0 ∙ a.0, k.1 ∙ a.1, k.2 ∙ a.2)

  collect-Keeps : (fuel size : ℕ) (it : Iterator C) → Keeps it (collect ops fuel size it)
  unfolding collect
  collect-Keeps zero size it = tt
  collect-Keeps (suc fuel) size it = elim (Bool-cases (is_stuck ops it)) [
    | inl stuck ↦ rw (stuck, collect) tt
    | inr free ↦ elim (Option-cases (read ops it).1) [
      | inl e ↦ rw (free, e, collect) (read-Alike it)
      | inr (row, e) ↦
          let size' = (size + length row.0 + length row.1) % 2 ^ 64 in
          let it' : Iterator C = record (read ops it).0 { landed = true } in
          elim (Bool-cases (ltb it.high_water_mark size')) [
            | inl full ↦ rw (free, e, full, collect) (read-Alike it)
            | inr room ↦
                rw (free, e, room, collect)
                  (Keeps-map it it' row (collect ops fuel size' it') (read-Alike it)
                    (collect-Keeps fuel size' it'))
          ]
    ]
  ]

  pub iterator_next-Alike :
      (fuel : ℕ) (it it' : Iterator C) (rows : List Row) (more : Bool)
      → iterator_next ops fuel it ≡ some (rows, more, it')
      → Alike it' it
  unfolding iterator_next
  iterator_next-Alike fuel it it' rows more e = rw e at (collect-Keeps fuel 0 it)

  -- The database's view of the object is untouched.
  abbrev pub SoundAs : Handle C → Handle C → Type 0
  SoundAs h' h = IsSound h' × (h'.id ≡ h.id) × (h'.registered ≡ h.registered)

  read_back :
      (h : Handle C) (it' : Iterator C) (ok : Bool)
      → Alike it' h.iterator
      → h.next_work ≡ queued
      → IsSound h
      → SoundAs (record h { iterator = it'; next_work = executed ok }) h
  read_back h it' ok a q s = ground arith

  pub next_execute-IsSound :
      (fuel : ℕ) (h h' : Handle C) (rows : List Row) (done : Bool)
      → next_execute ops fuel h ≡ some (h', rows, done)
      → h.next_work ≡ queued
      → IsSound h
      → SoundAs h' h
  unfolding next_execute
  next_execute-IsSound fuel h h' rows done e q s =
      elim (Option-cases (iterator_next ops fuel h.iterator)) [
        | inl n ↦ ground (arith, n)
        | inr ((got, more, it'), n) ↦
            let a = iterator_next-Alike fuel h.iterator it' got more n in
            let new : Handle C = record h {
              iterator = it';
              next_work = executed (status_ok ops more it');
            } in
            let same : new ≡ h' = ground (arith, n) in
            subst (λ x. SoundAs x h) same (read_back h it' (status_ok ops more it') a q s)
      ]

  sync_back :
      (h : Handle C) (it' : Iterator C)
      → Alike it' (record h.iterator { nexting = true })
      → h.next_work ≡ absent
      → h.ended ≡ false
      → IsSound h
      → SoundAs (record h { iterator = it' }) h
        × SoundAs (check_end_callback (record h { iterator = it' })) h
  unfolding check_end_callback
  sync_back h it' a q e s = (ground arith, ground arith)

  pub next_sync-IsSound :
      (fuel : ℕ) (h h' : Handle C) (r : SyncOutcome)
      → next_sync ops fuel h ≡ some (h', r)
      → h.next_work ≡ absent
      → IsSound h
      → SoundAs h' h
  unfolding next_sync
  next_sync-IsSound fuel h h' r e q s = elim (Bool-cases h.ended) [
    | inl over ↦ let same : h ≡ h' = ground arith in subst (λ x. SoundAs x h) same (s, refl, refl)
    | inr live ↦
        let begun : Iterator C = record h.iterator { nexting = true } in
        elim (Option-cases (iterator_next ops fuel begun)) [
          | inl n ↦ ground (arith, n)
          | inr ((got, more, it'), n) ↦
              let a = iterator_next-Alike fuel begun it' got more n in
              let (failed, fine) = sync_back h it' a q live s in
              elim (Bool-cases (status_ok ops more it')) [
                | inl ok ↦
                    let same : check_end_callback (record h { iterator = it' }) ≡ h' =
                      ground (arith, n) in
                    subst (λ x. SoundAs x h) same fine
                | inr bad ↦
                    let new : Handle C = record h { iterator = it' } in
                    let same : new ≡ h' = ground (arith, n) in subst (λ x. SoundAs x h) same failed
              ]
        ]
  ]
