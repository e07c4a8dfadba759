-- ===== src/Store/Traffic/History.antt =====
-- The contents of the database after any interleaving: the updates in the order in which they were
-- executed, whatever the order of the calls.
use leveldown.Base.{
  ◌≡◌, refl, sym, ◌∙◌, ap, Bool, true, Option, some, List, [], ◌∷◌, ◌++◌, arith, some_inj,
}
use leveldown.Bytes.{Bytes}
use leveldown.Value.{JsValue, V8, boolean}
use leveldown.Value.Memory.{Slice}
use leveldown.Store.LevelDb.{Status, LevelDb, LevelDbLaws, Update, update, update_all, Contents}
use leveldown.Store.Traffic.Effects.{
  sync_wrote, Becomes, Succeeded, worker_wrote, get_sync-db, sync_call-Becomes, execute-Becomes,
}
use leveldown.Store.Calls.{returned}
use leveldown.Store.Workers.{read_worker, read_value, execute}
use leveldown.Store.Traffic.{
  Traffic, put_sync_call, get_sync_call, delete_sync_call, batch_sync_call, Step, calls, sync_calls,
  batches, new_batches, chained_calls, writes, executes, completes, Reach, here, then_step, state,
}

module _ {D B : Type 0} (v8 : V8) (leveldb : LevelDb D B) (laws : LevelDbLaws leveldb) where
  open laws use {contents, updates}

  abbrev pub Succeeds : (t u : Traffic D B) → Step v8 leveldb t u → Type 0
  Succeeds t u (sync_calls get_sync_call args r s e) = Unit
  Succeeds t u (sync_calls m args r s e) = r ≡ returned (boolean true)
  Succeeds t u (executes i w status out db e x) = Succeeded v8 leveldb laws w status
  Succeeds t u s = Unit

  abbrev pub wrote : (t u : Traffic D B) → Step v8 leveldb t u → List Update
  wrote t u (sync_calls m args r s e) = sync_wrote v8 leveldb laws m args
  wrote t u (executes i w status out db e x) = worker_wrote v8 leveldb laws t.batches w
  wrote t u s = []

  -- All that was written, in the order of the executions, and that each of them succeeded.
  abbrev pub history : (t u : Traffic D B) → Reach v8 leveldb t u → List Update
  history t u here = []
  history t u (then_step {t = m} r s) = history t m r ++ wrote m u s

  abbrev pub AllSucceed : (t u : Traffic D B) → Reach v8 leveldb t u → Type 0
  AllSucceed t u here = Unit
  AllSucceed t u (then_step {t = m} r s) = AllSucceed t m r × Succeeds m u s

  Step-Becomes :
      (t u : Traffic D B) (s : Step v8 leveldb t u) (d : D)
      → t.db ≡ some d
      → Succeeds t u s
      → Becomes v8 leveldb laws d (wrote t u s) u.db
  Step-Becomes t u (calls m args w h e) d o k = (d, o, refl)
  Step-Becomes t u (sync_calls get_sync_call args r s e) d o k =
      (d, get_sync-db v8 leveldb laws args r (state v8 leveldb t) s e ∙ o, refl)
  Step-Becomes t u (sync_calls put_sync_call args r s e) d o k =
      sync_call-Becomes v8 leveldb laws put_sync_call args (state v8 leveldb t) s d o (rw k at e)
  Step-Becomes t u (sync_calls delete_sync_call args r s e) d o k =
      sync_call-Becomes v8 leveldb laws delete_sync_call args (state v8 leveldb t) s d o (rw k at e)
  Step-Becomes t u (sync_calls batch_sync_call args r s e) d o k =
      sync_call-Becomes v8 leveldb laws batch_sync_call args (state v8 leveldb t) s d o (rw k at e)
  Step-Becomes t u (batches args b sync h e) d o k = (d, o, refl)
  Step-Becomes t u (new_batches args b h e) d o k = (d, o, refl)
  Step-Becomes t u (chained_calls i c b b' h g e) d o k = (d, o, refl)
  Step-Becomes t u (writes i b g e) d o k = (d, o, refl)
  Step-Becomes t u (executes i w status out db e x) d o k =
      execute-Becomes v8 leveldb laws t.batches w status out d db k (rw o at x)
  Step-Becomes t u (completes i w status out cb h e x) d o k = (d, o, refl)

  update_all-append :
      (us vs : List Update) (m : Contents)
      → update_all (us ++ vs) m ≡ update_all vs (update_all us m)
  update_all-append [] vs m = refl
  update_all-append (x ∷ us) vs m = update_all-append us vs (update x m)

  -- Start from an open database, and let calls (but of getProperty, openSync or a close),
  -- executions and completions happen in any order, but no second open executed, and every write
  -- reported as done. The database then has the contents that the updates give when they are
  -- applied one after the other in the order of the executions: those of an array batch all at
  -- once, and those of a batch object as the object was when its worker was executed.
  pub contents-history :
      (t u : Traffic D B) (r : Reach v8 leveldb t u) (d : D)
      → t.db ≡ some d
      → AllSucceed t u r
      → (d' : D) × (u.db ≡ some d') × (contents d' ≡ update_all (history t u r) (contents d))
  contents-history t u here d o k = (d, o, refl)
  contents-history t u (then_step {t = m} r s) d o k =
      let (d₁, o₁, c₁) = contents-history t m r d o k.0 in
      let (d₂, o₂, c₂) = Step-Becomes m u s d₁ o₁ k.1 in
      (
        d₂,
        o₂,
        c₂
            ∙ ap (update_all (wrote m u s)) c₁
            ∙ sym (update_all-append (history t m r) (wrote m u s) (contents d)),
      )

  -- Start from an open database, and let calls (but of getProperty, openSync or a close),
  -- executions and completions happen in any order, but no second open executed, and every write
  -- reported as done. A read worker that is then executed with an ok status reads the value that
  -- the updates, applied in the order of their executions, leave under its key.
  pub read-history :
      (t u : Traffic D B) (r : Reach v8 leveldb t u) (d : D) (key : Slice) (as_buffer fill : Bool)
      (handle : JsValue) (status : Status) (found : Bytes) (db : Option D)
      → t.db ≡ some d
      → AllSucceed t u r
      → execute leveldb u.batches (read_worker key as_buffer fill handle) u.db
        ≡ some (status, read_value found, db)
      → status.ok ≡ true
      → update_all (history t u r) (contents d) key.bytes ≡ some found
  unfolding execute
  read-history t u r d key as_buffer fill handle status found db o k e fine =
      let (d', o', c) = contents-history t u r d o k in
      let got = leveldb.get fill key.bytes d' in
      let same = some_inj (rw (execute, o') at e) in
      let value : got.1 ≡ found = ground (arith, ap (λ p. p.1) same) in
      sym (ap (λ m. m key.bytes) c)
      ∙ laws.get_lem fill key.bytes d' (ap (λ p. p.0.ok) same ∙ fine)
      ∙ ap some value
