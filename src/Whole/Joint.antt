-- ===== src/Whole/Joint.antt =====
-- The joint state and its steps.
use leveldown.Base.{◌≡◌, Bool, true, false, Option, none, some, []}
use leveldown.Value.{V8}
use leveldown.Cursor.{CursorOps}
use leveldown.Store.LevelDb.{LevelDb}
use leveldown.Lifecycle.{Database}
use leveldown.Lifecycle.Steps as Life
use leveldown.Store.Traffic as Traffic

-- `life.db` and `traffic.db` are the one pointer `db`: whether it is there, and what it points to.
pub record Whole (C D B : Type 0) : Type 0 where
  pub life : Database C
  pub traffic : Traffic.Traffic D B

abbrev pub there : {A : Type 0} → Option A → Bool
there none = false
there (some x) = true

abbrev pub OpensNot : Traffic.Method → Type 0
OpensNot Traffic.open_call = ⊥
OpensNot m = Unit

module _ {C D B : Type 0} (ops : CursorOps C) (v8 : V8) (leveldb : LevelDb D B) where
  -- A call is made while no close has been asked for, and it is not another open.
  abbrev pub Permits :
      (d : Database C) (t u : Traffic.Traffic D B) → Traffic.Step v8 leveldb t u → Type 0
  Permits d t u (Traffic.calls m args w h e) = OpensNot m × Life.IsOpen d
  Permits d t u (Traffic.sync_calls m args r s e) = Life.IsOpen d
  Permits d t u (Traffic.batches args b sync h e) = Life.IsOpen d
  Permits d t u (Traffic.writes i b g e) = Life.IsOpen d
  Permits d t u s = Unit

  -- A close is called when nothing else is under way.
  abbrev pub Awaits : (d e : Database C) → Life.Step ops d e → Traffic.Traffic D B → Type 0
  Awaits d e (Life.closes o) t = t.jobs ≡ []
  Awaits d e s t = Unit

  -- The execution of a close deletes the LevelDB object.
  abbrev pub dropped :
      (d e : Database C) → Life.Step ops d e → Traffic.Traffic D B → Traffic.Traffic D B
  dropped d e (Life.close_executes q) t = record t { db = none }
  dropped d e s t = t

  pub data Step (s : Whole C D B) : Whole C D B → Type 0 where
    works :
        (u : Traffic.Traffic D B) (step : Traffic.Step v8 leveldb s.traffic u)
        → Permits s.life s.traffic u step
        → Step s (record s { traffic = u })
    lives :
        (e : Database C) (step : Life.Step ops s.life e)
        → Awaits s.life e step s.traffic
        → Step s (record { life = e; traffic = dropped s.life e step s.traffic })

  pub data Reach (s : Whole C D B) : Whole C D B → Type 0 where
    here : Reach s s
    then_step : {t u : Whole C D B} → Reach s t → Step t u → Reach s u
