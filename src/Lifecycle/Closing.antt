-- ===== src/Lifecycle/Closing.antt =====
-- `Close`, `CloseWorker` and `Iterator` keep the invariant of the database object.
use leveldown.Base.{
  ℕ, ◌≡◌, ◌≢◌, refl, ◌∙◌, Bool, true, not, ◌&&◌, List, [], ◌∷◌, All, Sorted, Sorted-append_last,
  All-append, arith, Bool-cases, inl, inr,
}
use leveldown.Iterator.{IteratorOptions}
use leveldown.Lifecycle.{
  queued, executed, Handle, Database, new_handle, end, any_registered, end_all, close,
  close_database, close_execute, close_complete, iterator,
}
use leveldown.Lifecycle.Steps.{IsOpen}
use leveldown.Lifecycle.Invariant.{IsSound, end-IsSound}
use leveldown.Lifecycle.Registry.{IsSafe, erase_fresh}

module _ {C : Type 0} where
  end_all-IsSound :
      (hs : List (Handle C))
      → All (λ (h : Handle C). IsSound h) hs
      → All (λ (h : Handle C). IsSound h) (end_all hs)
  unfolding end_all
  end_all-IsSound [] s = tt
  end_all-IsSound (h ∷ hs) s = elim (Bool-cases (h.registered && not h.ended)) [
    | inl e ↦ rw e (end-IsSound h s.0, end_all-IsSound hs s.1)
    | inr e ↦ rw e (s.0, end_all-IsSound hs s.1)
  ]

  pub end_same : (h : Handle C) → ((end h).id ≡ h.id) × ((end h).registered ≡ h.registered)
  unfolding end
  end_same h = ground arith

  end_all-registered : (hs : List (Handle C)) → any_registered (end_all hs) ≡ any_registered hs
  unfolding end_all any_registered
  end_all-registered [] = refl
  end_all-registered (h ∷ hs) = ground (arith, end_all-registered hs, end_same h)

  end_all-apart_from :
      (x : ℕ) (hs : List (Handle C))
      → All (λ (k : Handle C). x ≢ k.id) hs
      → All (λ (k : Handle C). x ≢ k.id) (end_all hs)
  unfolding end_all
  end_all-apart_from x [] a = tt
  end_all-apart_from x (h ∷ hs) a = elim (Bool-cases (h.registered && not h.ended)) [
    | inl e ↦ rw (e, (end_same h).0) (a.0, end_all-apart_from x hs a.1)
    | inr e ↦ rw e (a.0, end_all-apart_from x hs a.1)
  ]

  end_all-apart :
      (hs : List (Handle C))
      → Sorted (λ (h k : Handle C). h.id ≢ k.id) hs
      → Sorted (λ (h k : Handle C). h.id ≢ k.id) (end_all hs)
  unfolding end_all
  end_all-apart [] a = tt
  end_all-apart (h ∷ hs) a = elim (Bool-cases (h.registered && not h.ended)) [
    | inl e ↦ rw (e, (end_same h).0) (end_all-apart_from h.id hs a.0, end_all-apart hs a.1)
    | inr e ↦ rw e (end_all-apart_from h.id hs a.0, end_all-apart hs a.1)
  ]

  pub close-IsSafe : (d : Database C) → IsOpen d → IsSafe d → IsSafe (close d)
  unfolding close
  close-IsSafe d o s = elim (Bool-cases (any_registered d.handles)) [
    | inl e ↦ rw e (record {
      sound = end_all-IsSound d.handles s.sound;
      apart = end_all-apart d.handles s.apart;
      closed = λ c. end_all-registered d.handles ∙ s.closed c;
      waiting = λ p. (end_all-registered d.handles ∙ e, o.0, o.2);
    })
    | inr e ↦ rw e (record {
      sound = s.sound;
      apart = s.apart;
      closed = λ c. e;
      waiting = λ p. absurd (ground arith);
    })
  ]

  pub close_execute-IsSafe :
      (d : Database C) → d.close_work ≡ queued → IsSafe d → IsSafe (close_execute d)
  unfolding close_execute close_database
  close_execute-IsSafe d q s = record {
    sound = s.sound;
    apart = s.apart;
    closed = λ c. s.closed (ground arith);
    waiting = λ p. absurd (ground (arith, s.waiting p));
  }

  pub close_complete-IsSafe :
      (d : Database C) (ok : Bool)
      → d.close_work ≡ executed ok
      → IsSafe d
      → IsSafe (close_complete d)
  unfolding close_complete
  close_complete-IsSafe d ok q s = record {
    sound = s.sound;
    apart = s.apart;
    closed = λ c. s.closed (ground arith);
    waiting = λ p. absurd (ground (arith, s.waiting p));
  }

  pub new-IsSound :
      (o : IteratorOptions) (id : ℕ)
      → IsSound (record (new_handle {C = C} o id) { registered = true })
  unfolding new_handle
  new-IsSound o id = ground arith

  pub iterator-IsSafe :
      (o : IteratorOptions) (d : Database C)
      → IsOpen d
      → All (λ (h : Handle C). h.id ≢ d.current_iterator_id) d.handles
      → IsSafe d
      → IsSafe (iterator o d)
  unfolding iterator
  iterator-IsSafe o d open_ fresh s =
      let id = d.current_iterator_id in
      let h : Handle C = record (new_handle {C = C} o id) { registered = true } in
      rw (erase_fresh id d.handles fresh) (record {
        sound =
            All-append (λ (x : Handle C). IsSound x) d.handles (h ∷ []) s.sound
              (new-IsSound o id, tt);
        apart = Sorted-append_last (λ (x y : Handle C). x.id ≢ y.id) d.handles h s.apart fresh_new;
        closed = λ c. absurd (ground arith);
        waiting = λ p. absurd (ground arith);
      })
    where
      fresh_new :
          All (λ (x : Handle C). x.id ≢ (new_handle {C = C} o d.current_iterator_id).id) d.handles
      fresh_new = unfold new_handle in fresh
