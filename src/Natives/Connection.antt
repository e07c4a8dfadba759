-- ===== src/Natives/Connection.antt =====
-- The objects of a `Database` of src/database.cc: its location, the LevelDB object, and the block cache
-- and filter policy that an asynchronous open makes.
use leveldown.Base.{
  ℕ, suc, Bool, true, false, not, ◌&&◌, Option, none, some, List, [], ◌∷◌, if◌then◌else◌,
}
use leveldown.Store.Calls.{◌>>=◌}
use leveldown.Natives.Objects.{Natives, make, delete}

pub record Connection : Type 0 where
  pub location : ℕ
  pub db : Option ℕ
  pub block_cache : Option ℕ
  pub filter_policy : Option ℕ

abbrev pub State : Type 0
State = Connection × Natives

-- What an `OpenWorker` has in its options.
pub record OpenWorker : Type 0 where
  pub block_cache : Option ℕ
  pub filter_policy : Option ℕ

-- `Database::Database`.
unfoldable pub construct : Natives → State
unfolding make
construct h =
    let (location, h') = make [] h in
    (record { location = location; db = none; block_cache = none; filter_policy = none }, h')

-- `Database::Open`: the pointers to what an earlier open made are overwritten.
unfoldable pub open_ : State → OpenWorker × State
unfolding make
open_ (c, h) =
    let (cache, h₁) = make [] h in
    let (filter, h₂) = make [] h₁ in
    (
      record { block_cache = some cache; filter_policy = some filter },
      (record c { block_cache = some cache; filter_policy = some filter }, h₂),
    )

abbrev given : Option ℕ → List ℕ → List ℕ
given none ns = ns
given (some n) ns = n ∷ ns

-- `Database::OpenDatabase`: `DB::Open` stores a new object, or NULL on an error. The new object needs
-- the cache and the filter of its options.
unfoldable pub open_database : Bool → OpenWorker → State → State
unfolding make
open_database false options (c, h) = (record c { db = none }, h)
open_database true options (c, h) =
    let (db, h') = make (given options.block_cache (given options.filter_policy [])) h in
    (record c { db = some db }, h')

-- `OpenWorker::Execute`.
unfoldable pub open_execute : Bool → OpenWorker → State → State
open_execute ok w s = open_database ok w s

-- `Database::OpenSync` sets neither a cache nor a filter.
unfoldable pub open_sync : Bool → State → State
open_sync ok s = open_database ok (record { block_cache = none; filter_policy = none }) s

-- `Database::CloseDatabase`, as `CloseWorker::Execute` and `CloseSync` call it.
unfoldable pub close_database : State → Option State
close_database (c, h) = do
  h₁ ← delete c.db h
  h₂ ← delete c.block_cache h₁
  h₃ ← delete c.filter_policy h₂
  some (record c { db = none; block_cache = none; filter_policy = none }, h₃)

-- `Database::~Database`.
unfoldable pub destroy : State → Option Natives
destroy (c, h) = do h' ← delete c.db h; delete (some c.location) h'

-- An open with its outcome, executed; a synchronous open with its outcome; a close, executed.
pub data Event : Type 0 where
  opened opened_sync : Bool → Event
  closed : Event

unfoldable pub apply : Event → State → Option State
unfolding open_ open_execute open_sync close_database
apply (opened ok) s = let (w, s') = open_ s in some (open_execute ok w s')
apply (opened_sync ok) s = some (open_sync ok s)
apply closed s = close_database s

unfoldable pub run : List Event → State → Option State
unfolding apply
run [] s = some s
run (e ∷ es) s = do s' ← apply e s; run es s'

-- No open is called on a database that is open.
unfoldable pub in_turn : Bool → List Event → Bool
in_turn is_open [] = true
in_turn is_open (opened ok ∷ es) = let rest = in_turn ok es in not is_open && rest
in_turn is_open (opened_sync ok ∷ es) = let rest = in_turn ok es in not is_open && rest
in_turn is_open (closed ∷ es) = in_turn false es

-- The opens that come while the cache and filter of an earlier open, which failed, are still held.
unfoldable pub overwritten : Bool → List Event → ℕ
overwritten held [] = 0
overwritten held (opened ok ∷ es) =
    let rest = overwritten true es in if held then suc rest else rest
overwritten held (opened_sync ok ∷ es) = overwritten held es
overwritten held (closed ∷ es) = overwritten false es

-- Whether a cache and a filter are held in the end.
unfoldable pub held_after : Bool → List Event → Bool
held_after held [] = held
held_after held (opened ok ∷ es) = held_after true es
held_after held (opened_sync ok ∷ es) = held_after held es
held_after held (closed ∷ es) = held_after false es
