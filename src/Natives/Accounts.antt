-- ===== src/Natives/Accounts.antt =====
-- Whatever is started and finished, in any order.
use leveldown.Base.{
  ℕ, zero, suc, ◌+◌, ◌≤◌, ◌≡◌, refl, sym, ◌∙◌, ap, subst, Bool, true, false, Option, none, some,
  some_inj, List, [], ◌∷◌, ◌++◌, All, All-get, count, count-append, get_elem?, arith,
}
use leveldown.Value.Memory.{Heap}
use leveldown.Store.Traffic.{remove_at}
use leveldown.Natives.Workers.{
  Owned, nothing, Kind, open_kind, read_kind, write_kind, delete_kind, batch_kind, destroy_kind,
  repair_kind, batch_object_kind, start, finish, free, batch_sync_objects, make_block,
}
use leveldown.Natives.Fleet.{
  Fleet, joined, Step, starts, finishes, batch_syncs, Reach, here, then_step, empty_batch,
  step_leaves, leaves, owned_by, all_owned,
}
use leveldown.Natives.Exact.{IsFine, make-IsFine, Loses, free-Loses, Made, finish-Loses}

abbrev owned_if : Option Owned → List ℕ
owned_if none = []
owned_if (some o) = owned_by o

abbrev MadeIf : Kind → Option Owned → Type 0
MadeIf kind none = Unit
MadeIf kind (some o) = Made kind o

-- What a start does to a heap.
abbrev Starts : Kind → Heap → List ℕ → Option Owned × Heap → Type 0
Starts kind h left (o, h') =
    IsFine h'
    × MadeIf kind o
    × ((b : ℕ) → count b h'.live ≡ count b h.live + count b (owned_if o) + count b left)

module _ (h : Heap) (fine : IsFine h) where
  one_made : IsFine (make_block h).1
  one_made = make-IsFine h fine

  two_made : IsFine (make_block (make_block h).1).1
  two_made = make-IsFine (make_block h).1 one_made

  start-Starts :
      (kind : Kind) (has_data : Bool)
      → Starts kind h (empty_batch kind has_data h.next) (start kind has_data h)
  unfolding start empty_batch leveldown.Natives.Workers.open_worker
      leveldown.Natives.Workers.read_worker leveldown.Natives.Workers.delete_worker
      leveldown.Natives.Workers.write_worker leveldown.Natives.Workers.batch_worker
      leveldown.Natives.Workers.destroy_db_worker leveldown.Natives.Workers.repair_db_worker
      leveldown.Natives.Workers.batch_object
  start-Starts open_kind has_data = (one_made, (refl, refl), λ b. ground arith)
  start-Starts read_kind has_data = (one_made, (refl, refl), λ b. ground arith)
  start-Starts write_kind has_data = (one_made, (refl, refl), λ b. ground arith)
  start-Starts delete_kind has_data = (one_made, (refl, refl), λ b. ground arith)
  start-Starts batch_kind true = (two_made, refl, λ b. ground arith)
  start-Starts batch_kind false = (one_made, tt, λ b. ground arith)
  start-Starts destroy_kind has_data = (one_made, (refl, refl), λ b. ground arith)
  start-Starts repair_kind has_data = (one_made, (refl, refl), λ b. ground arith)
  start-Starts batch_object_kind has_data = (two_made, refl, λ b. ground arith)

-- The state between two steps, over what others own and what was left behind.
pub record IsExact (base left : List ℕ) (s : Fleet) : Type 0 where
  pub fine : IsFine s.heap
  pub made : All (λ (w : Kind × Owned). Made w.0 w.1) s.running
  pub exact :
      (b : ℕ) → count b s.heap.live ≡ count b base + count b left + count b (all_owned s.running)

all_owned-at :
    (ws : List (Kind × Owned)) (i : ℕ) (kind : Kind) (o : Owned) (b : ℕ)
    → get_elem? ws i ≡ some (kind, o)
    → count b (all_owned ws) ≡ count b (owned_by o) + count b (all_owned (remove_at i ws))
all_owned-at [] i kind o b e = absurd (cc)
all_owned-at ((k, p) ∷ ws) zero kind o b e =
    let same : p ≡ o = ap (λ w. w.1) (some_inj e) in
    rw same (count-append b (owned_by o) (all_owned ws))
all_owned-at ((k, p) ∷ ws) (suc i) kind o b e = omega (
  arith,
  all_owned-at ws i kind o b e,
  count-append b (owned_by p) (all_owned ws),
  count-append b (owned_by p) (all_owned (remove_at i ws)),
)

All-remove_at :
    (P : Kind × Owned → Type 0) (i : ℕ) (ws : List (Kind × Owned))
    → All P ws
    → All P (remove_at i ws)
All-remove_at P i [] a = tt
All-remove_at P zero (w ∷ ws) a = a.1
All-remove_at P (suc i) (w ∷ ws) a = (a.0, All-remove_at P i ws a.1)

module _ (base left : List ℕ) (s : Fleet) (x : IsExact base left s) where
  -- Whoever is there can be destroyed.
  can_finish :
      (i : ℕ) (kind : Kind) (o : Owned)
      → get_elem? s.running i ≡ some (kind, o)
      → Loses (owned_by o) s.heap (finish kind o s.heap)
  can_finish i kind o e =
      finish-Loses o s.heap (λ b. omega (arith, x.exact b, all_owned-at s.running i kind o b e))
        kind (All-get _ s.running i (kind, o) x.made e)

  started :
      (kind : Kind) (more : List ℕ) (r : Option Owned × Heap)
      → Starts kind s.heap more r
      → IsExact base (more ++ left) (record { running = joined kind r.0 s.running; heap = r.1 })
  started kind more (none, h') (f, m, counts) = record {
    fine = f;
    made = x.made;
    exact = λ b. omega (arith, counts b, x.exact b, count-append b more left);
  }
  started kind more (some o, h') (f, m, counts) = record {
    fine = f;
    made = (m, x.made);
    exact = λ b. omega (
      arith,
      counts b,
      x.exact b,
      count-append b more left,
      count-append b (owned_by o) (all_owned s.running),
    );
  }

  finished :
      (i : ℕ) (kind : Kind) (o : Owned) (h : Heap)
      → get_elem? s.running i ≡ some (kind, o)
      → finish kind o s.heap ≡ some h
      → IsExact base left (record { running = remove_at i s.running; heap = h })
  finished i kind o h e f =
      let (h', f', n, counts) = can_finish i kind o e in
      let same : h' ≡ h = some_inj (sym f' ∙ f) in
      subst (λ y. IsExact base left (record { running = remove_at i s.running; heap = y })) same
        (record {
          fine = (
            λ b. omega (arith, x.fine.0 b, counts b),
            λ b l. omega (arith, x.fine.1 b (subst (λ k. k ≤ b) n l), counts b),
          );
          made = All-remove_at _ i s.running x.made;
          exact = λ b. omega (arith, counts b, x.exact b, all_owned-at s.running i kind o b e);
        })

  synced :
      (has_data : Bool) (h : Heap)
      → batch_sync_objects has_data s.heap ≡ some h
      → IsExact base (empty_batch batch_kind has_data s.heap.next ++ left) (record s { heap = h })
  unfolding batch_sync_objects empty_batch
  synced false h e =
      subst (λ y. IsExact base (s.heap.next ∷ left) (record s { heap = y })) (some_inj e)
        (record {
          fine = make-IsFine s.heap x.fine;
          made = x.made;
          exact = λ b. ground (arith, x.exact b);
        })
  synced true h e =
      let one = (make_block s.heap).1 in
      let (fine_once, fine_fresh) = make-IsFine s.heap x.fine in
      let (h', f, n, counts) = free-Loses (some s.heap.next) one (λ b. ground arith) in
      let same : h' ≡ h = some_inj (sym f ∙ e) in
      subst (λ y. IsExact base left (record s { heap = y })) same
        (record {
          fine = (
            λ b. omega (arith, fine_once b, counts b),
            λ b l. omega (arith, fine_fresh b (subst (λ k. k ≤ b) n l), counts b),
          );
          made = x.made;
          exact = λ b. ground (arith, x.exact b, counts b);
        })

Step-IsExact :
    (base left : List ℕ) (s t : Fleet) (step : Step s t)
    → IsExact base left s
    → IsExact base (step_leaves s t step ++ left) t
Step-IsExact base left s t (starts kind has_data) x =
    started base left s x kind (empty_batch kind has_data s.heap.next) (start kind has_data s.heap)
      (start-Starts s.heap x.fine kind has_data)
Step-IsExact base left s t (finishes i kind o h e f) x = finished base left s x i kind o h e f
Step-IsExact base left s t (batch_syncs has_data h e) x = synced base left s x has_data h e

Reach-IsExact :
    (s t : Fleet) (r : Reach s t) → IsExact s.heap.live [] s → IsExact s.heap.live (leaves s t r) t
Reach-IsExact s t here x = x
Reach-IsExact s t (then_step {t = m} r step) x =
    Step-IsExact s.heap.live (leaves s m r) m t step (Reach-IsExact s m r x)

-- It can be destroyed.
abbrev pub Ends : Heap → Kind × Owned → Type 0
Ends h (kind, o) = (h' : Heap) × (finish kind o h ≡ some h')

All-Ends :
    (h : Heap) (ws : List (Kind × Owned))
    → ((i : ℕ) (kind : Kind) (o : Owned) → get_elem? ws i ≡ some (kind, o) → Ends h (kind, o))
    → All (Ends h) ws
All-Ends h [] k = tt
All-Ends h ((kind, o) ∷ ws) k = (k 0 kind o refl, All-Ends h ws (λ i. k (suc i)))

-- From any heap in which nothing lives twice or before it is made, with no worker or batch object,
-- after any methods that make workers with objects of their own or batch objects, any calls of
-- BatchSync, and the ends of any workers and batch objects, in any order: each worker and batch object
-- that is there can be destroyed without a fault; and the objects that live are exactly those of
-- others, those of the workers and batch objects that are there, each owned once, and the batches of
-- the calls of `Batch` and `BatchSync` that had no data, which nothing frees.
pub owned_exactly :
    (s t : Fleet) (r : Reach s t)
    → s.running ≡ []
    → IsFine s.heap
    → All (Ends t.heap) t.running
      × ((b : ℕ)
          → count b t.heap.live
            ≡ count b s.heap.live + count b (leaves s t r) + count b (all_owned t.running))
      × ((b : ℕ) → count b t.heap.live ≤ 1)
owned_exactly s t r none_ fine =
    let x = Reach-IsExact s t r (record {
      fine = fine;
      made = subst (λ ws. All (λ (w : Kind × Owned). Made w.0 w.1) ws) (sym none_) tt;
      exact = λ b. omega (arith, ap (λ ws. count b (all_owned ws)) none_);
    }) in
    (
      All-Ends t.heap t.running (λ i kind o e.
          let (h', f, n, c) = can_finish s.heap.live (leaves s t r) t x i kind o e in (h', f)),
      x.exact,
      x.fine.0,
    )
