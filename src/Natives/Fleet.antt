-- ===== src/Natives/Fleet.antt =====
-- Any number of workers and batches at once: methods that start them, and their ends, in any order.
use leveldown.Base.{ℕ, ◌≡◌, Bool, false, Option, none, some, List, [], ◌∷◌, ◌++◌, get_elem?}
use leveldown.Value.Memory.{Heap}
use leveldown.Natives.Workers.{Owned, Kind, batch_kind, start, finish, batch_sync_objects}
use leveldown.Store.Traffic.{remove_at}

pub record Fleet : Type 0 where
  pub running : List (Kind × Owned)
  pub heap : Heap

abbrev pub joined : Kind → Option Owned → List (Kind × Owned) → List (Kind × Owned)
joined kind none running = running
joined kind (some o) running = (kind, o) ∷ running

pub data Step (s : Fleet) : Fleet → Type 0 where
  starts :
      (kind : Kind) (has_data : Bool)
      → Step s (record {
        running = joined kind (start kind has_data s.heap).0 s.running;
        heap = (start kind has_data s.heap).1;
      })
  finishes :
      (i : ℕ) (kind : Kind) (o : Owned) (h : Heap)
      → get_elem? s.running i ≡ some (kind, o)
      → finish kind o s.heap ≡ some h
      → Step s (record { running = remove_at i s.running; heap = h })
  batch_syncs :
      (has_data : Bool) (h : Heap)
      → batch_sync_objects has_data s.heap ≡ some h
      → Step s (record s { heap = h })

pub data Reach (s : Fleet) : Fleet → Type 0 where
  here : Reach s s
  then_step : {t u : Fleet} → Reach s t → Step t u → Reach s u

-- The batches that are left behind: those without data.
unfoldable pub empty_batch : Kind → Bool → ℕ → List ℕ
empty_batch batch_kind false n = n ∷ []
empty_batch kind has_data n = []

abbrev pub step_leaves : (s t : Fleet) → Step s t → List ℕ
step_leaves s t (starts kind has_data) = empty_batch kind has_data s.heap.next
step_leaves s t (finishes i kind o h e f) = []
step_leaves s t (batch_syncs has_data h e) = empty_batch batch_kind has_data s.heap.next

abbrev pub leaves : (s t : Fleet) → Reach s t → List ℕ
leaves s t here = []
leaves s t (then_step {t = m} r step) = step_leaves m t step ++ leaves s m r

abbrev pub listed : Option ℕ → List ℕ
listed none = []
listed (some n) = n ∷ []

abbrev pub owned_by : Owned → List ℕ
owned_by o = listed o.options ++ (listed o.batch ++ listed o.location)

abbrev pub all_owned : List (Kind × Owned) → List ℕ
all_owned [] = []
all_owned ((kind, o) ∷ rest) = owned_by o ++ all_owned rest
