-- ===== src/Store/Chained.antt =====
-- A batch object of src/batch.cc that is filled by a chain of calls.
use leveldown.Base.{
  refl, ◌∙◌, ap, ◌≡◌, true, Option, some, List, [], ◌∷◌, ◌++◌, arith, if◌then◌else◌,
}
use leveldown.Value.{JsValue, V8}
use leveldown.Value.Memory.{Heap}
use leveldown.Store.LevelDb.{LevelDb, LevelDbLaws, Update, put, del}
use leveldown.Store.Calls.{argument, ◌>>=◌}
use leveldown.Store.Batches.{
  Batch, BatchCall, WriteCall, write_queued, write_called_back, Filling, write, clear,
}
use leveldown.Store.Batches as Batches
use leveldown.Store.Contents.{bytes_of, any, batch_put-Adds, batch_delete-Adds}

-- A call on the batch object, with its arguments.
pub data ChainedCall : Type 0 where
  put_call : List JsValue → ChainedCall
  del_call : List JsValue → ChainedCall
  clear_call : ChainedCall

-- What a chain of calls asks for: a clear forgets what was asked before.
abbrev pub asked : V8 → List ChainedCall → List Update → List Update
asked v8 [] us = us
asked v8 (put_call args ∷ calls) us =
    asked v8 calls (us ++ put (bytes_of v8 (argument args 0)) (bytes_of v8 (argument args 1)) ∷ [])
asked v8 (del_call args ∷ calls) us =
    asked v8 calls (us ++ del (bytes_of v8 (argument args 0)) ∷ [])
asked v8 (clear_call ∷ calls) us = asked v8 calls []

module _ {D B : Type 0} (v8 : V8) (leveldb : LevelDb D B) where
  unfoldable pub chained_call : ChainedCall → Batch B × Heap → Option (Batch B × Heap)
  chained_call (put_call args) s = Batches.put v8 leveldb args s.0 s.1
  chained_call (del_call args) s = Batches.del v8 leveldb args s.0 s.1
  chained_call clear_call s = some (clear v8 leveldb s.0, s.1)

  unfoldable pub chained_calls : List ChainedCall → Batch B × Heap → Option (Batch B × Heap)
  chained_calls [] s = some s
  chained_calls (c ∷ calls) s = chained_call c s >>= chained_calls calls

module _ {D B : Type 0} (v8 : V8) (leveldb : LevelDb D B) (laws : LevelDbLaws leveldb) where
  open laws use {updates}

  -- The flag says whether there are updates.
  abbrev Holds : List Update → Batch B → Type 0
  Holds us b = (updates b.batch ≡ us) × (b.has_data ≡ any us)

  any-last : (us : List Update) (u : Update) → any (us ++ u ∷ []) ≡ true
  any-last [] u = refl
  any-last (v ∷ us) u = refl

  chained_call-Holds :
      (c : ChainedCall) (us : List Update) (b : Batch B) (h : Heap)
      → Holds us b
      → (b' : Batch B) × (h' : Heap) × (chained_call v8 leveldb c (b, h) ≡ some (b', h'))
        × Holds (asked v8 (c ∷ []) us) b'
        × (b'.sync ≡ b.sync)
  unfolding chained_call Batches.put Batches.del Batches.clear
  chained_call-Holds (put_call args) us b h (e, n) =
      let f : Filling B = record { batch = b.batch; has_data = b.has_data; heap = h } in
      let (f', runs, a) = batch_put-Adds v8 leveldb laws (argument args 0) (argument args 1) f in
      let u = put (bytes_of v8 (argument args 0)) (bytes_of v8 (argument args 1)) in
      (
        record b { batch = f'.batch; has_data = f'.has_data },
        f'.heap,
        rw (chained_call, Batches.put, runs, ◌>>=◌) refl,
        (a.0 ∙ ap (λ xs. xs ++ u ∷ []) e, ground (arith, any-last us u)),
        refl,
      )
  chained_call-Holds (del_call args) us b h (e, n) =
      let f : Filling B = record { batch = b.batch; has_data = b.has_data; heap = h } in
      let (f', runs, a) = batch_delete-Adds v8 leveldb laws (argument args 0) f in
      let u = del (bytes_of v8 (argument args 0)) in
      (
        record b { batch = f'.batch; has_data = f'.has_data },
        f'.heap,
        rw (chained_call, Batches.del, runs, ◌>>=◌) refl,
        (a.0 ∙ ap (λ xs. xs ++ u ∷ []) e, ground (arith, any-last us u)),
        refl,
      )
  chained_call-Holds clear_call us b h (e, n) =
      (clear v8 leveldb b, h, refl, (laws.batch_clear_lem b.batch, refl), refl)

  chained_calls-Holds :
      (calls : List ChainedCall) (us : List Update) (b : Batch B) (h : Heap)
      → Holds us b
      → (b' : Batch B) × (h' : Heap) × (chained_calls v8 leveldb calls (b, h) ≡ some (b', h'))
        × Holds (asked v8 calls us) b'
        × (b'.sync ≡ b.sync)
  unfolding chained_calls
  chained_calls-Holds [] us b h k = (b, h, refl, k, refl)
  chained_calls-Holds (c ∷ calls) us b h k =
      let (b₁, h₁, runs, k₁, s₁) = chained_call-Holds c us b h k in
      let (b₂, h₂, more, k₂, s₂) = chained_calls-Holds calls (asked v8 (c ∷ []) us) b₁ h₁ k₁ in
      (b₂, h₂, rw (runs, ◌>>=◌) more, asked_next c calls us b₂ k₂, s₂ ∙ s₁)
    where
      asked_next :
          (c : ChainedCall) (calls : List ChainedCall) (us : List Update) (b : Batch B)
          → Holds (asked v8 calls (asked v8 (c ∷ []) us)) b
          → Holds (asked v8 (c ∷ calls) us) b
      asked_next (put_call args) calls us b k = k
      asked_next (del_call args) calls us b k = k
      asked_next clear_call calls us b k = k

  -- Any chain of puts, dels and clears on a new batch object has a result: the object's batch holds
  -- what was asked since the last clear, in order, and its sync option is the one it was made with.
  -- A write then queues a worker, or, when nothing was asked since the last clear, only calls back.
  pub write-chained_calls :
      (calls : List ChainedCall) (options : Option JsValue) (h : Heap)
      → (b : Batch B) × (h' : Heap) × (chained_calls v8 leveldb calls
            (Batches.new_batch v8 leveldb options, h)
          ≡ some (b, h'))
        × (updates b.batch ≡ asked v8 calls [])
        × (b.sync ≡ (Batches.new_batch v8 leveldb options).sync)
        × (write v8 leveldb b
            ≡ (if any (asked v8 calls []) then write_queued else write_called_back))
  unfolding Batches.new_batch write
  write-chained_calls calls options h =
      let new = Batches.new_batch v8 leveldb options in
      let (b, h', runs, k, s) = chained_calls-Holds calls [] new h (laws.new_batch_lem, refl) in
      (b, h', runs, k.0, s, rw k.1 refl)
