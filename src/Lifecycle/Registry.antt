-- ===== src/Lifecycle/Registry.antt =====
-- The invariant of the database object, and what the map of iterators does to it.
use leveldown.Base.{
  ℕ, zero, suc, ◌≡◌, ◌≢◌, refl, sym, ◌∙◌, ap, subst, true, false, ◌&&◌, ◌||◌, some, List, [], ◌∷◌,
  All, All-map, All-get, All-modify, Sorted, arith, get_elem?, modify, ◌==◌, ==_iff, Bool-cases,
  inl, inr, some_inj,
}
use leveldown.Lifecycle.{
  absent, Handle, Database, any_registered, erase, release_iterator, modify_handle, release,
}
use leveldown.Lifecycle.Invariant.{idle, IsSound}

abbrev Apart : {C : Type 0} → Handle C → Handle C → Type 0
Apart h k = h.id ≢ k.id

-- Every object is sound, and no two have one id; a close in flight or done means that the map is
-- empty, and a close that waits means that it is not.
pub record IsSafe {C : Type 0} (d : Database C) : Type 0 where
  pub sound : All (λ (h : Handle C). IsSound h) d.handles
  pub apart : Sorted (λ (h k : Handle C). h.id ≢ k.id) d.handles
  pub closed : (idle d.close_work && d.db) ≡ false → any_registered d.handles ≡ false
  pub waiting :
      d.pending_close_worker ≡ true
      → (any_registered d.handles ≡ true) × (d.db ≡ true) × (d.close_work ≡ absent)

module _ {C : Type 0} where
  any_registered-modify :
      (f : Handle C → Handle C) (hs : List (Handle C)) (i : ℕ) (h : Handle C)
      → get_elem? hs i ≡ some h
      → (f h).registered ≡ h.registered
      → any_registered (modify i f hs) ≡ any_registered hs
  unfolding any_registered
  any_registered-modify f [] i h e r = refl
  any_registered-modify f (x ∷ hs) zero h e r =
      ap (λ b. b || any_registered hs)
        (subst (λ y. (f y).registered ≡ y.registered) (sym (some_inj e)) r)
  any_registered-modify f (x ∷ hs) (suc i) h e r =
      ap (λ b. x.registered || b) (any_registered-modify f hs i h e r)

  apart-modify_at :
      (f : Handle C → Handle C) (x : Handle C) (hs : List (Handle C)) (i : ℕ) (h : Handle C)
      → get_elem? hs i ≡ some h
      → (f h).id ≡ h.id
      → All (λ k. x.id ≢ k.id) hs
      → All (λ k. x.id ≢ k.id) (modify i f hs)
  apart-modify_at f x hs i h e r a =
      All-modify (λ (k : Handle C). x.id ≢ k.id) f hs i h a e
        (λ p. All-get (λ (k : Handle C). x.id ≢ k.id) hs i h a e (p ∙ r))

  Sorted-modify :
      (f : Handle C → Handle C) (hs : List (Handle C)) (i : ℕ) (h : Handle C)
      → get_elem? hs i ≡ some h
      → (f h).id ≡ h.id
      → Sorted (λ (h k : Handle C). h.id ≢ k.id) hs
      → Sorted (λ (h k : Handle C). h.id ≢ k.id) (modify i f hs)
  Sorted-modify f [] i h e r s = tt
  Sorted-modify f (x ∷ hs) zero h e r s = (
    All-map hs (λ k n p. n (sym (subst (λ y. (f y).id ≡ y.id) (sym (some_inj e)) r) ∙ p)) s.0,
    s.1,
  )
  Sorted-modify f (x ∷ hs) (suc i) h e r s =
      (apart-modify_at f x hs i h e r s.0, Sorted-modify f hs i h e r s.1)

  -- A call or a worker that concerns one object, and leaves its id and registration, is safe.
  pub modify-IsSafe :
      (f : Handle C → Handle C) (d : Database C) (i : ℕ) (h : Handle C)
      → get_elem? d.handles i ≡ some h
      → IsSound (f h)
      → (f h).id ≡ h.id
      → (f h).registered ≡ h.registered
      → IsSafe d
      → IsSafe (modify_handle i f d)
  unfolding modify_handle
  modify-IsSafe f d i h e fs same reg s = record {
    sound = All-modify (λ (x : Handle C). IsSound x) f d.handles i h s.sound e fs;
    apart = Sorted-modify f d.handles i h e same s.apart;
    closed = λ c. any_registered-modify f d.handles i h e reg ∙ s.closed c;
    waiting = λ p. (
      any_registered-modify f d.handles i h e reg ∙ (s.waiting p).0,
      (s.waiting p).1,
      (s.waiting p).2,
    );
  }

  -- What erasing an id needs of the objects that have it.
  abbrev Dropped : ℕ → Handle C → Type 0
  Dropped id h = h.id ≡ id → (h.snapshot ≡ false) × (idle h.end_work ≡ true)

  unregistered-IsSound :
      (h : Handle C)
      → IsSound h
      → (h.snapshot ≡ false) × (idle h.end_work ≡ true)
      → IsSound (record h { registered = false })
  unregistered-IsSound h s n = ground arith

  erase-IsSound :
      (id : ℕ) (hs : List (Handle C))
      → All (λ (h : Handle C). IsSound h) hs
      → All (λ (h : Handle C). Dropped id h) hs
      → All (λ (h : Handle C). IsSound h) (erase id hs)
  unfolding erase
  erase-IsSound id [] s n = tt
  erase-IsSound id (h ∷ hs) s n = elim (Bool-cases (h.id == id)) [
    | inl e ↦
        rw e (unregistered-IsSound h s.0 (n.0 ((==_iff h.id id).0 e)), erase-IsSound id hs s.1 n.1)
    | inr e ↦ rw e (s.0, erase-IsSound id hs s.1 n.1)
  ]

  erase-apart_from :
      (x id : ℕ) (hs : List (Handle C))
      → All (λ (k : Handle C). x ≢ k.id) hs
      → All (λ (k : Handle C). x ≢ k.id) (erase id hs)
  unfolding erase
  erase-apart_from x id [] a = tt
  erase-apart_from x id (h ∷ hs) a = elim (Bool-cases (h.id == id)) [
    | inl e ↦ rw e (a.0, erase-apart_from x id hs a.1)
    | inr e ↦ rw e (a.0, erase-apart_from x id hs a.1)
  ]

  erase-apart :
      (id : ℕ) (hs : List (Handle C))
      → Sorted (λ (h k : Handle C). h.id ≢ k.id) hs
      → Sorted (λ (h k : Handle C). h.id ≢ k.id) (erase id hs)
  unfolding erase
  erase-apart id [] a = tt
  erase-apart id (h ∷ hs) a = elim (Bool-cases (h.id == id)) [
    | inl e ↦ rw e (erase-apart_from h.id id hs a.0, erase-apart id hs a.1)
    | inr e ↦ rw e (erase-apart_from h.id id hs a.0, erase-apart id hs a.1)
  ]

  erase-none :
      (id : ℕ) (hs : List (Handle C))
      → any_registered hs ≡ false
      → any_registered (erase id hs) ≡ false
  unfolding erase any_registered
  erase-none id [] e = refl
  erase-none id (h ∷ hs) e = ground (arith, erase-none id hs)

  pub erase_fresh :
      (id : ℕ) (hs : List (Handle C)) → All (λ (h : Handle C). h.id ≢ id) hs → erase id hs ≡ hs
  unfolding erase
  erase_fresh id [] a = refl
  erase_fresh id (h ∷ hs) a = elim (Bool-cases (h.id == id)) [
    | inl e ↦ absurd (a.0 ((==_iff h.id id).0 e))
    | inr e ↦ rw (e, erase_fresh id hs a.1) refl
  ]

  -- The map loses the object that has the id, and a close that waited for the last is started.
  release_iterator-IsSafe :
      (id : ℕ) (d : Database C)
      → IsSafe d
      → All (λ (h : Handle C). Dropped id h) d.handles
      → IsSafe (release_iterator id d)
  unfolding release_iterator
  release_iterator-IsSafe id d s n =
      let sound = erase-IsSound id d.handles s.sound n in
      let apart = erase-apart id d.handles s.apart in
      elim (Bool-cases (any_registered (erase id d.handles))) [
        | inl some_left ↦ rw some_left (record {
          sound = sound;
          apart = apart;
          closed = λ c. erase-none id d.handles (s.closed c);
          waiting = λ p. (some_left, (s.waiting p).1, (s.waiting p).2);
        })
        | inr none_left ↦ elim (Bool-cases d.pending_close_worker) [
          | inl p ↦
              rw (none_left, p)
                (record {
                  sound = sound;
                  apart = apart;
                  closed = λ c. none_left;
                  waiting = λ q. absurd (cc);
                })
          | inr p ↦
              rw (none_left, p)
                (record {
                  sound = sound;
                  apart = apart;
                  closed = λ c. none_left;
                  waiting = λ q. absurd (cc);
                })
        ]
      ]

  -- Only one object has the id of a given one.
  only_one :
      (P : Handle C → Type 0) (hs : List (Handle C)) (i : ℕ) (h : Handle C)
      → get_elem? hs i ≡ some h
      → Sorted (λ (h k : Handle C). h.id ≢ k.id) hs
      → P h
      → All (λ (x : Handle C). x.id ≡ h.id → P x) hs
  only_one P [] i h e s p = tt
  only_one P (x ∷ hs) zero h e s p =
      let same : x ≡ h = some_inj e in
      (
        λ q. subst P (sym same) p,
        All-map hs (λ k n q. absurd (n (ap (λ (y : Handle C). y.id) same ∙ sym q))) s.0,
      )
  only_one P (x ∷ hs) (suc i) h e s p = (
    λ q. absurd (All-get (λ (k : Handle C). x.id ≢ k.id) hs i h s.0 e q),
    only_one P hs i h e s.1 p,
  )

  pub release-IsSafe :
      (i : ℕ) (d : Database C) (h : Handle C)
      → get_elem? d.handles i ≡ some h
      → h.snapshot ≡ false
      → idle h.end_work ≡ true
      → IsSafe d
      → IsSafe (release i d)
  unfolding release
  release-IsSafe i d h e gone no_end s =
      rw (e, release)
        (release_iterator-IsSafe h.id d s (
          only_one (λ x. (x.snapshot ≡ false) × (idle x.end_work ≡ true)) d.handles i h e s.apart
            (gone, no_end)))
