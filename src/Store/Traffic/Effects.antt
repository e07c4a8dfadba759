-- ===== src/Store/Traffic/Effects.antt =====
-- What one execution of a worker, or one synchronous call, does to the contents of the database.
use leveldown.Base.{
  ◌≡◌, refl, sym, ◌∙◌, ap, true, Option, none, some, List, [], ◌∷◌, get_elem?, arith, Option-cases,
  inl, inr, some_inj, ◌≢◌,
}
use leveldown.Value.{JsValue, V8, boolean}
use leveldown.Value.Memory.{string_or_buffer_to_slice, dispose_string_or_buffer_from_slice}
use leveldown.Store.LevelDb.{Status, LevelDb, LevelDbLaws, Update, put, del, update_all}
use leveldown.Store.Calls.{argument, returned, Reply, State, ◌>>=◌}
use leveldown.Store.Writes.{get_sync}
use leveldown.Store.Batches.{Batch, elements_of, batch_sync}
use leveldown.Store.Contents.{bytes_of, updates_of}
use leveldown.Store.Applied.{put_sync-contents, batch_sync_applies}
use leveldown.Store.Removed.{delete_sync-contents}
use leveldown.Store.Workers.{
  Worker, open_worker, write_worker, read_worker, delete_worker, compact_range_worker,
  approximate_size_worker, batch_worker, batch_write_worker, Output, execute,
}
use leveldown.Store.Traffic.{
  SyncMethod, put_sync_call, get_sync_call, delete_sync_call, batch_sync_call, sync_call,
}

module _ {D B : Type 0} (v8 : V8) (leveldb : LevelDb D B) (laws : LevelDbLaws leveldb) where
  open laws use {contents, updates}

  abbrev pub sync_wrote : SyncMethod → List JsValue → List Update
  sync_wrote put_sync_call args =
      put (bytes_of v8 (argument args 0)) (bytes_of v8 (argument args 1)) ∷ []
  sync_wrote get_sync_call args = []
  sync_wrote delete_sync_call args = del (bytes_of v8 (argument args 0)) ∷ []
  sync_wrote batch_sync_call args = elim (elements_of (argument args 0)) [
    | none ↦ []
    | some items ↦ updates_of v8 items
  ]

  -- What a worker writes when it is executed: a batch object's batch as it is then.
  abbrev pub worker_wrote : List (Batch B) → Worker B → List Update
  worker_wrote objects (write_worker key value sync kh vh) = put key.bytes value.bytes ∷ []
  worker_wrote objects (delete_worker key sync kh) = del key.bytes ∷ []
  worker_wrote objects (batch_worker b sync) = updates b
  worker_wrote objects (batch_write_worker i) = elim (get_elem? objects i) [
    | none ↦ []
    | some b ↦ updates b.batch
  ]
  worker_wrote objects w = []

  -- No open is executed, and LevelDB reported every write as done.
  abbrev pub Succeeded : Worker B → Status → Type 0
  Succeeded (open_worker o) status = ⊥
  Succeeded (read_worker key as_buffer fill_cache kh) status = Unit
  Succeeded w status = status.ok ≡ true

  -- What became of a database that is open.
  abbrev pub Becomes : D → List Update → Option D → Type 0
  Becomes d us db = (d' : D) × (db ≡ some d') × (contents d' ≡ update_all us (contents d))

  pub get_sync-db :
      (args : List JsValue) (r : Reply) (s s' : State D)
      → get_sync v8 leveldb args s ≡ some (r, s')
      → s'.db ≡ s.db
  unfolding get_sync
  get_sync-db args r s s' e =
      let (key, taken) = string_or_buffer_to_slice v8 (argument args 0) s.heap in
      elim (Option-cases s.db) [
        | inl n ↦ absurd (ground (arith, rw (get_sync, n) at e))
        | inr (d, n) ↦
            elim (Option-cases (dispose_string_or_buffer_from_slice (argument args 0) key taken)) [
              | inl f ↦ absurd (ground (arith, rw (get_sync, n, ◌>>=◌, f) at e))
              | inr (h, f) ↦
                  sym (ap (λ p. p.1.db) (some_inj (rw (get_sync, n, ◌>>=◌, f) at e))) ∙ sym n
            ]
      ]

  no_array :
      (args : List JsValue) (s s' : State D)
      → elements_of (argument args 0) ≡ none
      → batch_sync v8 leveldb args s ≢ some (returned (boolean true), s')
  unfolding batch_sync
  no_array args s s' n e = ground (arith, rw (batch_sync, n) at e)

  pub sync_call-Becomes :
      (m : SyncMethod) (args : List JsValue) (s s' : State D) (d : D)
      → s.db ≡ some d
      → sync_call v8 leveldb m args s ≡ some (returned (boolean true), s')
      → Becomes d (sync_wrote m args) s'.db
  sync_call-Becomes put_sync_call args s s' d o e =
      put_sync-contents v8 leveldb laws args s s' d o e
  sync_call-Becomes get_sync_call args s s' d o e = (d, get_sync-db args _ s s' e ∙ o, refl)
  sync_call-Becomes delete_sync_call args s s' d o e =
      delete_sync-contents v8 leveldb laws args s s' d o e
  sync_call-Becomes batch_sync_call args s s' d o e =
      elim (Option-cases (elements_of (argument args 0))) [
        | inl n ↦ absurd (no_array args s s' n e)
        | inr (items, n) ↦
            rw (sync_wrote, n) (batch_sync_applies v8 leveldb laws items args s s' d n o e)
      ]

  pub execute-Becomes :
      (objects : List (Batch B)) (w : Worker B) (status : Status) (out : Output) (d : D)
      (db : Option D)
      → Succeeded w status
      → execute leveldb objects w (some d) ≡ some (status, out, db)
      → Becomes d (worker_wrote objects w) db
  unfolding execute
  execute-Becomes objects (open_worker o) status out d db k e = absurd k
  execute-Becomes objects (write_worker key value sync kh vh) status out d db k e =
      let same = some_inj e in
      (
        (leveldb.put sync key.bytes value.bytes d).1,
        sym (ap (λ p. p.2) same),
        laws.put_lem sync key.bytes value.bytes d (ap (λ p. p.0.ok) same ∙ k),
      )
  execute-Becomes objects (read_worker key as_buffer fill_cache kh) status out d db k e =
      (d, sym (ap (λ p. p.2) (some_inj e)), refl)
  execute-Becomes objects (delete_worker key sync kh) status out d db k e =
      let same = some_inj e in
      (
        (leveldb.delete sync key.bytes d).1,
        sym (ap (λ p. p.2) same),
        laws.delete_lem sync key.bytes d (ap (λ p. p.0.ok) same ∙ k),
      )
  execute-Becomes objects (compact_range_worker start end sh eh) status out d db k e = (
    leveldb.compact_range start.bytes end.bytes d,
    sym (ap (λ p. p.2) (some_inj e)),
    laws.compact_range_lem start.bytes end.bytes d,
  )
  execute-Becomes objects (approximate_size_worker start end sh eh) status out d db k e =
      (d, sym (ap (λ p. p.2) (some_inj e)), refl)
  execute-Becomes objects (batch_worker b sync) status out d db k e =
      let same = some_inj e in
      (
        (leveldb.write sync b d).1,
        sym (ap (λ p. p.2) same),
        laws.write_lem sync b d (ap (λ p. p.0.ok) same ∙ k),
      )
  execute-Becomes objects (batch_write_worker i) status out d db k e =
      elim (Option-cases (get_elem? objects i)) [
        | inl n ↦ absurd (ground (arith, n))
        | inr (b, n) ↦
            let same = some_inj (rw n at e) in
            rw (worker_wrote, n)
              (
                (leveldb.write b.sync b.batch d).1,
                sym (ap (λ p. p.2) same),
                laws.write_lem b.sync b.batch d (ap (λ p. p.0.ok) same ∙ k),
              )
      ]
