-- ===== src/Iterator/Scan.antt =====
-- `IteratorNext` against the rows that the options ask for: one call ends within the pending
-- entries, and what it returns is a prefix of the wanted rows, all of them if it reports the end.
use mathlib.Core.Option
use leveldown.Base.{
  ℕ, zero, suc, ◌+◌, ◌%◌, ◌^◌, ◌<◌, Bool, true, false, ◌&&◌, ◌≡◌, refl, subst₂, ap, Option, none,
  some, List, [], ◌∷◌, ◌++◌, map, arith, if◌then◌else◌, inl, inr, Bool-cases, length, ltb,
}
use leveldown.Cursor.{Entry, CursorOps, CursorLaws}
use leveldown.Iterator.{Row, IteratorOptions, Iterator, read, collect, bump, passes_limit, accepts}
use leveldown.Iterator.Pending.{row_of, Pending, moving, read-end, read-entry, Pending-unstuck}

-- The entries that reads return: those before the first that the limit or the range refuses.
abbrev pub wanted : IteratorOptions → ℕ → List Entry → List Entry
wanted o count [] = []
wanted o count (e ∷ rest) =
    if passes_limit o.limit count && accepts o e.key
    then e ∷ wanted o (bump o.limit count) rest
    else []

abbrev pub wanted_rows : IteratorOptions → ℕ → List Entry → List Row
wanted_rows o count rest = map (row_of o.keys o.values) (wanted o count rest)

module _ {C : Type 0} (ops : CursorOps C) (entries : List Entry)
    (laws : CursorLaws ops entries) where
  -- The result of a call that had the given rows and entries before it.
  abbrev pub Delivers :
      IteratorOptions → List Row → ℕ → Option (List Row × Bool × Iterator C) → Type 0
  Delivers o expected bound none = ⊥
  Delivers o expected bound (some (got, false, it')) = got ≡ expected
  Delivers o expected bound (some (got, true, it')) =
      (rest : List Entry) × Pending ops entries laws it' rest
      × (it'.options ≡ o)
      × (length rest < bound)
      × (expected ≡ got ++ wanted_rows o it'.count rest)

  Delivers-cons :
      (o : IteratorOptions) (row : Row) (expected : List Row) (bound : ℕ)
      (r : Option (List Row × Bool × Iterator C))
      → Delivers o expected bound r
      → Delivers o (row ∷ expected) (suc bound) (Option.map (λ x. (row ∷ x.0, x.1, x.2)) r)
  Delivers-cons o row expected bound none h = h
  Delivers-cons o row expected bound (some (got, false, it')) h = ap (◌∷◌ row) h
  Delivers-cons o row expected bound (some (got, true, it')) h =
      (h.0, h.1, h.2, omega arith, ap (◌∷◌ row) h.4)

  pub collect-Delivers :
      (fuel size : ℕ) (it : Iterator C) (rest : List Entry)
      → Pending ops entries laws it rest
      → length rest < fuel
      → Delivers it.options
          (wanted_rows it.options it.count rest)
          (length rest)
          (collect ops fuel size it)
  unfolding collect
  collect-Delivers zero size it rest p h = absurd (omega arith)
  collect-Delivers (suc fuel) size it [] p h =
      rw (Pending-unstuck ops entries laws it [] p, (read-end ops entries laws it p).0, collect)
        refl
  collect-Delivers (suc fuel) size it (e ∷ rest) p h =
      let (r, n, same, c, d, s, q) = read-entry ops entries laws it e rest p in
      let free = Pending-unstuck ops entries laws it (e ∷ rest) p in
      let it' : Iterator C = record (read ops it).0 { landed = true } in
      let row = row_of it.keys it.values e in
      let size' = (size + length row.0 + length row.1) % 2 ^ 64 in
      let p' : Pending ops entries laws it' rest = moving c e d s (rw same q) in
      let ih =
        subst₂ (λ o k. Delivers o (wanted_rows o k rest) (length rest) (collect ops fuel size' it'))
          same n (collect-Delivers fuel size' it' rest p' (omega arith)) in
      elim (Bool-cases (passes_limit it.limit it.count && accepts it.options e.key)) [
        | inr refused ↦ rw (free, r, refused, collect) refl
        | inl fits ↦ elim (Bool-cases (ltb it.high_water_mark size')) [
          | inl full ↦ rw (free, r, fits, full, collect) (rest, p', same, omega arith, rw n refl)
          | inr room ↦
              rw (free, r, fits, room, collect) (Delivers-cons it.options row _ (length rest) _ ih)
        ]
      ]
