-- ===== src/Whole/Keeps.antt =====
-- What single steps leave of an open database.
use leveldown.Base.{
  ℕ, ◌≡◌, refl, sym, ◌∙◌, ap, Bool, true, false, Option, none, some, List, arith, Option-cases,
  Bool-cases, inl, inr, get_elem?, some_inj,
}
use leveldown.Value.{JsValue, V8}
use leveldown.Cursor.{CursorOps}
use leveldown.Store.LevelDb.{LevelDb}
use leveldown.Store.Calls.{Reply, State, ◌>>=◌, argument}
use leveldown.Store.Writes.{put_sync, get_sync, delete_sync}
use leveldown.Store.Batches.{batch_sync, write_filled, Filling}
use leveldown.Store.Traffic.{
  sync_call, SyncMethod, put_sync_call, get_sync_call, delete_sync_call, batch_sync_call,
}
use leveldown.Lifecycle.{
  absent, Database, release, release_iterator, end_complete, end_sync, modify_handle, iterator_end,
  iterator, close, close_execute, close_database, close_complete,
}
use leveldown.Lifecycle.Steps.{
  IsOpen, Step, opens, nexts, next_executes, next_completes, next_syncs, seeks, ends, end_executes,
  end_completes, end_syncs, closes, close_executes, close_completes,
}
use leveldown.Value.Memory.{string_or_buffer_to_slice, dispose_string_or_buffer_from_slice}
use leveldown.Whole.Joint.{there}

-- A synchronous call that returns leaves the database open.
pub data Kept {D : Type 0} : Option (Reply × State D) → Type 0 where
  no_return : Kept none
  returns : (r : Reply) (s : State D) → there s.db ≡ true → Kept (some (r, s))

module _ {D : Type 0} where
  bind-Kept :
      {A : Type 0} (m : Option A) (f : A → Option (Reply × State D))
      → ((a : A) → Kept (f a))
      → Kept (m >>= f)
  bind-Kept none f k = no_return
  bind-Kept (some a) f k = k a

  pub Kept-there :
      (x : Option (Reply × State D))
      → Kept x
      → (r : Reply) (s : State D) → x ≡ some (r, s)
      → there s.db ≡ true
  Kept-there none no_return r s e = absurd (cc)
  Kept-there (some p) (returns r' s' t) r s e = ap (λ q. there q.1.db) (sym (some_inj e)) ∙ t

module _ {D B : Type 0} (v8 : V8) (leveldb : LevelDb D B) where
  write_filled-Kept :
      (sync : Bool) (f : Filling B) (s : State D) (d : D)
      → s.db ≡ some d
      → Kept (write_filled v8 leveldb sync f s)
  unfolding write_filled
  write_filled-Kept sync f s d o = elim (Bool-cases f.has_data) [
    | inl e ↦ rw (write_filled, e, o) (returns _ _ refl)
    | inr e ↦ rw (write_filled, e) (returns _ _ (ap there o))
  ]

  pub sync_call-Kept :
      (m : SyncMethod) (args : List JsValue) (s : State D) (d : D)
      → s.db ≡ some d
      → Kept (sync_call v8 leveldb m args s)
  unfolding put_sync get_sync delete_sync batch_sync
  sync_call-Kept put_sync_call args s d o = rw (put_sync, o, ◌>>=◌) (search (bind-Kept, returns))
  sync_call-Kept get_sync_call args s d o =
      let (key, taken) = string_or_buffer_to_slice v8 (argument args 0) s.heap in
      let freed = dispose_string_or_buffer_from_slice (argument args 0) key taken in
      rw (get_sync, o, ◌>>=◌)
        (bind-Kept freed _ (λ h. returns _ (record { db = some d; heap = h }) refl))
  sync_call-Kept delete_sync_call args s d o =
      rw (delete_sync, o, ◌>>=◌) (search (bind-Kept, returns))
  sync_call-Kept batch_sync_call args s d o = search (bind-Kept, write_filled-Kept)

module _ {C : Type 0} where
  release-db : (i : ℕ) (d : Database C) → (release i d).db ≡ d.db
  unfolding release release_iterator
  release-db i d = ground arith

  end_complete-db : (i : ℕ) (d : Database C) → (end_complete i d).db ≡ d.db
  unfolding end_complete modify_handle
  end_complete-db i d = release-db i (modify_handle i (λ h. record h { end_work = absent }) d)

  end_sync-db : (i : ℕ) (d : Database C) → (end_sync i d).0.db ≡ d.db
  unfolding end_sync modify_handle release release_iterator
  end_sync-db i d = ground arith

  release-IsOpen : (i : ℕ) (d : Database C) → IsOpen d → IsOpen (release i d)
  unfolding release release_iterator
  release-IsOpen i d o = ground arith

  end_complete-IsOpen : (i : ℕ) (d : Database C) → IsOpen d → IsOpen (end_complete i d)
  unfolding end_complete release modify_handle
  end_complete-IsOpen i d o =
      release-IsOpen i (modify_handle i (λ h. record h { end_work = absent }) d) o

  end_sync-IsOpen : (i : ℕ) (d : Database C) → IsOpen d → IsOpen (end_sync i d).0
  unfolding end_sync release modify_handle
  end_sync-IsOpen i d o = elim (Option-cases (get_elem? d.handles i)) [
    | inl e ↦ rw (end_sync, e) o
    | inr (h, e) ↦ elim (Bool-cases h.nexting) [
      | inl busy ↦ rw (end_sync, e, busy) o
      | inr still ↦ elim (Bool-cases h.ended) [
        | inl over ↦ rw (end_sync, e, still, over) o
        | inr live ↦
            rw (end_sync, e, still, live)
              (release-IsOpen i
                (modify_handle i
                  (λ x. iterator_end (record x { iterator = record x.iterator { ended = true } }))
                  d)
                o)
      ]
    ]
  ]

module _ {C : Type 0} (ops : CursorOps C) where
  -- Only a close makes an open database one that is being closed.
  abbrev pub StaysOpen : (d e : Database C) → Step ops d e → Type 0
  StaysOpen d e (closes o) = Unit
  StaysOpen d e s = IsOpen e

  pub Step-StaysOpen : (d e : Database C) (s : Step ops d e) → IsOpen d → StaysOpen d e s
  unfolding iterator modify_handle
  Step-StaysOpen d e (opens o p f) w = w
  Step-StaysOpen d e (nexts i h g n) w = w
  Step-StaysOpen d e (next_executes i fuel h h' got done g q r) w = w
  Step-StaysOpen d e (next_completes i h ok g q) w = w
  Step-StaysOpen d e (next_syncs i fuel h h' r g n q) w = w
  Step-StaysOpen d e (seeks i h target g live n ok) w = w
  Step-StaysOpen d e (ends i h g) w = w
  Step-StaysOpen d e (end_executes i h g q) w = w
  Step-StaysOpen d e (end_completes i h ok g q) w = end_complete-IsOpen i d w
  Step-StaysOpen d e (end_syncs i h g) w = end_sync-IsOpen i d w
  Step-StaysOpen d e (closes o) w = tt
  Step-StaysOpen d e (close_executes q) w = absurd (ground (arith, w))
  Step-StaysOpen d e (close_completes ok q) w = absurd (ground (arith, w))

  -- The LevelDB object is there after a step as before, but for the execution of a close.
  abbrev pub KeepsDb : (d e : Database C) → Step ops d e → Type 0
  KeepsDb d e (close_executes q) = e.db ≡ false
  KeepsDb d e s = e.db ≡ d.db

  pub Step-KeepsDb : (d e : Database C) (s : Step ops d e) → KeepsDb d e s
  unfolding iterator modify_handle close close_execute close_database close_complete
  Step-KeepsDb d e (opens o p f) = refl
  Step-KeepsDb d e (nexts i h g n) = refl
  Step-KeepsDb d e (next_executes i fuel h h' got done g q r) = refl
  Step-KeepsDb d e (next_completes i h ok g q) = refl
  Step-KeepsDb d e (next_syncs i fuel h h' r g n q) = refl
  Step-KeepsDb d e (seeks i h target g live n ok) = refl
  Step-KeepsDb d e (ends i h g) = refl
  Step-KeepsDb d e (end_executes i h g q) = refl
  Step-KeepsDb d e (end_completes i h ok g q) = end_complete-db i d
  Step-KeepsDb d e (end_syncs i h g) = end_sync-db i d
  Step-KeepsDb d e (closes o) = ground arith
  Step-KeepsDb d e (close_executes q) = refl
  Step-KeepsDb d e (close_completes ok q) = refl
