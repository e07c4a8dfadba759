-- ===== src/Lifecycle/Released.antt =====
-- What holds of all objects after one of them was released from the database's map.
use leveldown.Base.{
  ℕ, ◌≡◌, refl, sym, subst, true, false, List, [], ◌∷◌, All, All-modify, All-map, some, get_elem?,
  get_elem?-modify, modify, Bool-cases, inl, inr, ◌==◌, ==_iff, arith,
}
use leveldown.Lifecycle.{Handle, Database, erase, modify_handle, release, release_iterator}

module _ {C : Type 0} where
  abbrev pub unregistered : Handle C → Handle C
  unregistered h = record h { registered = false }

  -- A property that no object loses when it is unregistered.
  pub erase-All :
      (P : Handle C → Type 0) (id : ℕ) (hs : List (Handle C))
      → All (λ h. ((h.id == id) ≡ false → P h) × ((h.id == id) ≡ true → P (unregistered h))) hs
      → All P (erase id hs)
  unfolding erase
  erase-All P id [] a = tt
  erase-All P id (h ∷ hs) a = elim (Bool-cases (h.id == id)) [
    | inl e ↦ rw e (a.0.1 e, erase-All P id hs a.1)
    | inr e ↦ rw e (a.0.0 e, erase-All P id hs a.1)
  ]

  release_iterator-handles :
      (id : ℕ) (d : Database C) → (release_iterator id d).handles ≡ erase id d.handles
  unfolding release_iterator
  release_iterator-handles id d = ground arith

  pub release-handles :
      (i : ℕ) (d : Database C) (h : Handle C)
      → get_elem? d.handles i ≡ some h
      → (release i d).handles ≡ erase h.id d.handles
  unfolding release
  release-handles i d h e = rw (release, e) (release_iterator-handles h.id d)

  -- An object that changes and is then released need have the property only when it is out of the map.
  pub released-All :
      (P : Handle C → Type 0) (f : Handle C → Handle C) (i : ℕ) (d : Database C) (h : Handle C)
      → get_elem? d.handles i ≡ some h
      → ((x : Handle C) → P x → P (unregistered x))
      → P (unregistered (f h))
      → All P d.handles
      → All P (release i (modify_handle i f d)).handles
  unfolding modify_handle release
  released-All P f i d h e keep out a =
      let hs = modify i f d.handles in
      let id = (f h).id in
      let got : get_elem? hs i ≡ some (f h) = get_elem?-modify f d.handles i h e in
      let mine : (id == id) ≡ true = (==_iff id id).1 refl in
      let both =
        All-modify
          (λ (x : Handle C).
            ((x.id == id) ≡ false → P x) × ((x.id == id) ≡ true → P (unregistered x)))
          f d.handles i h (All-map d.handles (λ x p. ((λ n. p), λ n. keep x p)) a) e
          ((λ n. absurd (cc)), λ n. out) in
      rw (release, got)
        (subst (λ ks. All P ks) (sym (release_iterator-handles id (record d { handles = hs })))
          (erase-All P id hs both))
