-- ===== src/Natives/Exact.antt =====
-- Each object that lives belongs to exactly one: to others, to a worker or batch that is there, or to
-- what was left behind.
use leveldown.Base.{
  ℕ, ◌+◌, ◌≤◌, ◌≡◌, refl, ◌∙◌, ap, Option, none, some, List, ◌++◌, count, count-append, arith,
}
use leveldown.Value.Memory.{Heap, delete_array}
use leveldown.Value.Ownership.{remove_found}
use leveldown.Store.Calls.{◌>>=◌}
use leveldown.Natives.Workers.{
  Owned, nothing, Kind, open_kind, read_kind, write_kind, delete_kind, batch_kind, destroy_kind,
  repair_kind, batch_object_kind, start, finish, free, batch_sync_objects, make_block,
}
use leveldown.Natives.Fleet.{listed, owned_by}

-- No object lives twice, and none that is not yet made.
abbrev pub IsFine : Heap → Type 0
IsFine h = ((b : ℕ) → count b h.live ≤ 1) × ((b : ℕ) → h.next ≤ b → count b h.live ≡ 0)

pub make-IsFine : (h : Heap) → IsFine h → IsFine (make_block h).1
make-IsFine h f = (λ b. ground (arith, f.0 b, f.1 b), λ b l. ground (arith, f.1 b))

-- What a heap loses and has left.
abbrev pub Loses : List ℕ → Heap → Option Heap → Type 0
Loses gone h r =
    (h' : Heap) × (r ≡ some h')
    × (h'.next ≡ h.next)
    × ((b : ℕ) → count b h.live ≡ count b gone + count b h'.live)

pub free-Loses :
    (p : Option ℕ) (h : Heap)
    → ((b : ℕ) → count b (listed p) ≤ count b h.live)
    → Loses (listed p) h (free p h)
unfolding free delete_array
free-Loses none h e = (h, refl, refl, λ b. omega arith)
free-Loses (some n) h e =
    let (rest, found, counts) = remove_found n h.live (ground (arith, e n)) in
    (record h { live = rest }, rw (free, delete_array, found) refl, refl, counts)

-- The pointers that a kind does not use are null.
abbrev pub Made : Kind → Owned → Type 0
Made batch_kind o = o.location ≡ none
Made batch_object_kind o = o.location ≡ none
Made destroy_kind o = (o.options ≡ none) × (o.batch ≡ none)
Made repair_kind o = (o.options ≡ none) × (o.batch ≡ none)
Made kind o = (o.batch ≡ none) × (o.location ≡ none)

module _ (o : Owned) (h : Heap) (held : (b : ℕ) → count b (owned_by o) ≤ count b h.live) where
  split :
      (b : ℕ)
      → count b (owned_by o)
        ≡ count b (listed o.options) + (count b (listed o.batch) + count b (listed o.location))
  split b = omega (
    arith,
    count-append b (listed o.options) (listed o.batch ++ listed o.location),
    count-append b (listed o.batch) (listed o.location),
  )

  only_options : (o.batch ≡ none) × (o.location ≡ none) → Loses (owned_by o) h (free o.options h)
  only_options m =
      let (h', e, n, counts) = free-Loses o.options h (λ b. omega (arith, held b, split b)) in
      (
        h',
        e,
        n,
        λ b. omega (
          arith,
          counts b,
          split b,
          ap (λ p. count b (listed p)) m.0,
          ap (λ p. count b (listed p)) m.1,
        ),
      )

  only_location : (o.options ≡ none) × (o.batch ≡ none) → Loses (owned_by o) h (free o.location h)
  only_location m =
      let (h', e, n, counts) = free-Loses o.location h (λ b. omega (arith, held b, split b)) in
      (
        h',
        e,
        n,
        λ b. omega (
          arith,
          counts b,
          split b,
          ap (λ p. count b (listed p)) m.0,
          ap (λ p. count b (listed p)) m.1,
        ),
      )

  both :
      (p q : Option ℕ)
      → ((b : ℕ) → count b (owned_by o) ≡ count b (listed p) + count b (listed q))
      → Loses (owned_by o) h (do h' ← free p h; free q h')
  both p q sum =
      let (h₁, e₁, n₁, c₁) = free-Loses p h (λ b. omega (arith, held b, sum b)) in
      let (h₂, e₂, n₂, c₂) = free-Loses q h₁ (λ b. omega (arith, held b, sum b, c₁ b)) in
      (h₂, rw (e₁, ◌>>=◌) e₂, n₂ ∙ n₁, λ b. omega (arith, c₁ b, c₂ b, sum b))

  -- A worker that owns what lives can be destroyed, which frees just that.
  pub finish-Loses : (kind : Kind) → Made kind o → Loses (owned_by o) h (finish kind o h)
  unfolding finish leveldown.Natives.Workers.free_open_worker
      leveldown.Natives.Workers.free_read_worker leveldown.Natives.Workers.free_delete_worker
      leveldown.Natives.Workers.free_batch_worker leveldown.Natives.Workers.free_destroy_db_worker
      leveldown.Natives.Workers.free_repair_db_worker leveldown.Natives.Workers.free_batch_object
  finish-Loses open_kind m = only_options m
  finish-Loses read_kind m = only_options m
  finish-Loses write_kind m = only_options m
  finish-Loses delete_kind m = only_options m
  finish-Loses batch_kind m =
      both o.batch o.options (λ b. omega (arith, split b, ap (λ p. count b (listed p)) m))
  finish-Loses destroy_kind m = only_location m
  finish-Loses repair_kind m = only_location m
  finish-Loses batch_object_kind m =
      both o.options o.batch (λ b. omega (arith, split b, ap (λ p. count b (listed p)) m))
