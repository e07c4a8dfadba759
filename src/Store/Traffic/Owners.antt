-- ===== src/Store/Traffic/Owners.antt =====
-- Which blocks a worker owns, from its call to its completion.
use leveldown.Base.{
  ℕ, ◌≡◌, refl, none, some, List, [], ◌∷◌, ◌++◌, Option-cases, inl, inr, append_assoc,
}
use leveldown.Value.{JsValue, V8}
use leveldown.Value.Memory.{Heap, string_or_buffer_to_slice}
use leveldown.Value.Ownership.{owned, IsConverted, Holds, convert-Holds, dispose-Holds}
use leveldown.Store.Calls.{argument, setup_common, ◌>>=◌}
use leveldown.Store.Workers as Workers
use leveldown.Store.Workers.{
  Worker, open_worker, write_worker, read_worker, delete_worker, compact_range_worker,
  approximate_size_worker, batch_worker, batch_write_worker, Output, Callback, Call, refused,
  queued, work_complete, dispose_slices,
}
use leveldown.Store.Traffic.{
  Job, waiting, done, Method, open_call, put_call, get_call, delete_call, compact_range_call,
  approximate_size_call, call,
}
use leveldown.Store.Traffic.Heaps.{convert_two-Holds, dispose_two-Holds, Holds-swap, Holds-both}

module _ {B : Type 0} where
  -- The blocks that a worker's completion frees, in that order.
  abbrev pub worker_owned : Worker B → List ℕ
  worker_owned (write_worker key value sync kh vh) = owned vh value ++ owned kh key
  worker_owned (read_worker key as_buffer fill_cache kh) = owned kh key
  worker_owned (delete_worker key sync kh) = owned kh key
  worker_owned (compact_range_worker start end sh eh) = owned sh start ++ owned eh end
  worker_owned (approximate_size_worker start end sh eh) = owned sh start ++ owned eh end
  worker_owned w = []

  abbrev pub WorkerConverted : Worker B → Type 0
  WorkerConverted (write_worker key value sync kh vh) = IsConverted kh key × IsConverted vh value
  WorkerConverted (read_worker key as_buffer fill_cache kh) = IsConverted kh key
  WorkerConverted (delete_worker key sync kh) = IsConverted kh key
  WorkerConverted (compact_range_worker start end sh eh) = IsConverted sh start × IsConverted eh end
  WorkerConverted (approximate_size_worker start end sh eh) =
      IsConverted sh start × IsConverted eh end
  WorkerConverted w = Unit

  abbrev pub worker : Job B → Worker B
  worker (waiting w) = w
  worker (done w status out) = w

  abbrev pub jobs_owned : List (Job B) → List ℕ
  jobs_owned [] = []
  jobs_owned (j ∷ jobs) = worker_owned (worker j) ++ jobs_owned jobs

  -- The slices of a worker are disposed of without a fault, and what is left is still held.
  pub dispose_slices-Holds :
      (w : Worker B) (mine : List ℕ) (h : Heap)
      → WorkerConverted w
      → Holds (worker_owned w ++ mine) h
      → (h' : Heap) × (dispose_slices w h ≡ some h') × Holds mine h'
  unfolding dispose_slices
  dispose_slices-Holds (open_worker o) mine h c s = (h, refl, s)
  dispose_slices-Holds (write_worker key value sync kh vh) mine h (ck, cv) s =
      let (h₁, h₂, a, b, held) =
        dispose_two-Holds vh kh value key mine h cv ck (rw append_assoc at s) in
      (h₂, rw (dispose_slices, a, ◌>>=◌, b) refl, held)
  dispose_slices-Holds (read_worker key as_buffer fill_cache kh) mine h c s =
      dispose-Holds kh key mine h c s
  dispose_slices-Holds (delete_worker key sync kh) mine h c s = dispose-Holds kh key mine h c s
  dispose_slices-Holds (compact_range_worker start end sh eh) mine h (cs, ce) s =
      let (h₁, h₂, a, b, held) =
        dispose_two-Holds sh eh start end mine h cs ce (rw append_assoc at s) in
      (h₂, rw (dispose_slices, a, ◌>>=◌, b) refl, held)
  dispose_slices-Holds (approximate_size_worker start end sh eh) mine h (cs, ce) s =
      let (h₁, h₂, a, b, held) =
        dispose_two-Holds sh eh start end mine h cs ce (rw append_assoc at s) in
      (h₂, rw (dispose_slices, a, ◌>>=◌, b) refl, held)
  dispose_slices-Holds (batch_worker b sync) mine h c s = (h, refl, s)
  dispose_slices-Holds (batch_write_worker i) mine h c s = (h, refl, s)

  -- What a call leaves: the slices of its worker, if it queues one.
  abbrev pub Takes : List ℕ → Call B × Heap → Type 0
  Takes mine (refused text, h) = Holds mine h
  Takes mine (queued w, h) = WorkerConverted w × Holds (worker_owned w ++ mine) h

module _ (B : Type 0) where
  pub call-Takes :
      (v8 : V8) (m : Method) (args : List JsValue) (mine : List ℕ) (h : Heap)
      → Holds mine h
      → Takes mine (call {B = B} v8 m args h)
  unfolding Workers.open_ Workers.put Workers.get Workers.delete Workers.compact_range
      Workers.approximate_size
  call-Takes v8 open_call args mine h s = elim (Option-cases (setup_common (some 0) 1 args)) [
    | inl e ↦ rw (Workers.open_, e) s
    | inr (o, e) ↦ rw (Workers.open_, e) (tt, s)
  ]
  call-Takes v8 put_call args mine h s = elim (Option-cases (setup_common (some 2) 3 args)) [
    | inl e ↦ rw (Workers.put, e) s
    | inr (o, e) ↦
        let (key, taken) = string_or_buffer_to_slice v8 (argument args 0) h in
        let (value, both) = string_or_buffer_to_slice v8 (argument args 1) taken in
        let (ck, cv, held) = convert_two-Holds v8 (argument args 0) (argument args 1) mine h s in
        rw (Workers.put, e)
          (
            (ck, cv),
            Holds-both (owned (argument args 1) value) (owned (argument args 0) key) mine both held,
          )
  ]
  call-Takes v8 get_call args mine h s = elim (Option-cases (setup_common (some 1) 2 args)) [
    | inl e ↦ rw (Workers.get, e) s
    | inr (o, e) ↦ rw (Workers.get, e) (convert-Holds v8 (argument args 0) mine h s)
  ]
  call-Takes v8 delete_call args mine h s = elim (Option-cases (setup_common (some 1) 2 args)) [
    | inl e ↦ rw (Workers.delete, e) s
    | inr (o, e) ↦ rw (Workers.delete, e) (convert-Holds v8 (argument args 0) mine h s)
  ]
  call-Takes v8 compact_range_call args mine h s = elim (Option-cases (setup_common none 2 args)) [
    | inl e ↦ rw (Workers.compact_range, e) s
    | inr (o, e) ↦
        let (start, taken) = string_or_buffer_to_slice v8 (argument args 0) h in
        let (end, both) = string_or_buffer_to_slice v8 (argument args 1) taken in
        let (cs, ce, held) = convert_two-Holds v8 (argument args 0) (argument args 1) mine h s in
        let a = owned (argument args 0) start in
        let b = owned (argument args 1) end in
        rw (Workers.compact_range, e)
          ((cs, ce), Holds-both a b mine both (Holds-swap b a mine both held))
  ]
  call-Takes v8 approximate_size_call args mine h s =
      elim (Option-cases (setup_common none 2 args)) [
        | inl e ↦ rw (Workers.approximate_size, e) s
        | inr (o, e) ↦
            let (start, taken) = string_or_buffer_to_slice v8 (argument args 0) h in
            let (end, both) = string_or_buffer_to_slice v8 (argument args 1) taken in
            let (cs, ce, held) =
              convert_two-Holds v8 (argument args 0) (argument args 1) mine h s in
            let a = owned (argument args 0) start in
            let b = owned (argument args 1) end in
            rw (Workers.approximate_size, e)
              ((cs, ce), Holds-both a b mine both (Holds-swap b a mine both held))
      ]
