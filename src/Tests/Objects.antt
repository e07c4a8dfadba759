-- ===== src/Tests/Objects.antt =====
-- The objects of a database that is opened again after a failure, and of workers with a batch without
-- data.
use leveldown.Base.{
  All, count, arith, ◌+◌, ◌≤◌, ◌≡◌, refl, true, false, some, List, [], ◌∷◌, ◌++◌, length, ◌*◌,
  if◌then◌else◌, suc, none, ℕ,
}
use leveldown.Natives.Objects.{Object, Natives}
use leveldown.Natives.Connection.{
  State, Event, opened, opened_sync, closed, run, construct, destroy, in_turn, overwritten,
  held_after,
}
use leveldown.Natives.Fate.{destroy-run}
use leveldown.Natives.Workers.{batch_kind, destroy_kind, start, finish}
use leveldown.Natives.Fleet.{Fleet, Reach, here, then_step, starts, finishes, leaves, all_owned}
use leveldown.Natives.Accounts.{Ends, owned_exactly}
use leveldown.Tests.Values.{no_blocks}

abbrev no_objects : Natives
no_objects = record { live = []; next = 0 }

-- An open that fails, one that does not, a close, and a synchronous open.
abbrev events : List Event
events = opened false ∷ opened true ∷ closed ∷ opened_sync true ∷ []

two_left :
    (if held_after false events then suc (overwritten false events) else overwritten false events)
    ≡ 1
unfolding held_after overwritten
two_left = refl

destroy-run_example :
    (s : State) × (h' : Natives) × (left : List Object) × (run events (construct no_objects)
      ≡ some s)
    × (destroy s ≡ some h')
    × (h'.live ≡ left ++ no_objects.live)
    × (length left
        ≡ 2
          * (if held_after false events
              then suc (overwritten false events)
              else overwritten false events))
unfolding in_turn
destroy-run_example = destroy-run events no_objects tt refl

abbrev nobody : Fleet
nobody = record { running = []; heap = no_blocks }

-- A batch with data, a batch without, and a destroy that has ended.
abbrev two_batches : Fleet
two_batches = record {
  running = (batch_kind, record { options = some 1; batch = some 0; location = none }) ∷ [];
  heap = record { live = 2 ∷ 1 ∷ 0 ∷ []; next = 4 };
}

two_batches_reached : Reach nobody two_batches
unfolding start finish leveldown.Natives.Workers.batch_worker
    leveldown.Natives.Workers.destroy_db_worker leveldown.Natives.Workers.free_destroy_db_worker
    leveldown.Natives.Workers.free leveldown.Value.Memory.delete_array leveldown.Value.Memory.remove
two_batches_reached =
    then_step
      (then_step (then_step (then_step here (starts batch_kind true)) (starts batch_kind false))
        (starts destroy_kind true))
      (finishes 0 destroy_kind (record { options = none; batch = none; location = some 3 }) _ refl
        refl)

owned_exactly_example :
    All (Ends two_batches.heap) two_batches.running
    × ((b : ℕ)
        → count b two_batches.heap.live
          ≡ count b no_blocks.live
            + count b (leaves nobody two_batches two_batches_reached)
            + count b (all_owned two_batches.running))
    × ((b : ℕ) → count b two_batches.heap.live ≤ 1)
owned_exactly_example =
    owned_exactly nobody two_batches two_batches_reached refl (λ b. omega arith, λ b l. refl)
