-- ===== src/Iterator/Blocks.antt =====
-- What an iterator of src/iterator.cc owns: what `Iterator::New`, the constructor, `Seek` and
-- `GetIterator` make, and what `ReleaseTarget`, `IteratorEnd` and the destructor free.
use leveldown.Base.{
  Bool, true, false, not, ◌&&◌, ◌||◌, Option, none, some, if◌then◌else◌, List, [], ◌∷◌,
}
use leveldown.Iterator.Held.{
  Block, start_chars, start_slice, copy, end, lt, lte, gt, gte, options, snapshot, target_chars,
  target, cursor, all_free, Locals, ◌>>=◌, allocate, free,
}

-- `if (startStr != NULL) …; if (start != NULL) delete start; start = new Slice(bound)`
pub replace_start : Block → Locals → Option Locals
replace_start bound l = do
  l₁ ← if l.start_str then free start_chars l else some l
  l₂ ←
      let cleared : Locals = record l₁ { start_str = false } in
      if cleared.start then free start_slice cleared else some cleared
  l₃ ← allocate start_slice l₂
  some (record l₃ { start = true; start_data = bound })

-- A bound that is given is copied to a string; one of the starting end replaces `start`.
pub take_bound : Block → Bool → Bool → Locals → Option Locals
unfolding replace_start
take_bound bound given starts l =
    if given
    then (do
      l₁ ← allocate copy l
      l₂ ← allocate bound l₁
      l₃ ← free copy l₂
      if starts then replace_start bound l₃ else some l₃)
    else some l

pub take_start : Bool → Locals → Option Locals
take_start given l =
    if given
    then (do
      l₁ ← allocate start_chars l
      l₂ ← allocate start_slice l₁
      some (record l₂ { start_str = true; start = true; start_data = start_chars }))
    else some l

-- Which options are given and not empty, and the direction.
pub record Given : Type 0 where
  pub reverse : Bool
  pub start : Bool
  pub end : Bool
  pub lt : Bool
  pub lte : Bool
  pub gt : Bool
  pub gte : Bool

-- The constructor: the read options with the snapshot.
create : Locals → Option Locals
create l = do
  l₁ ← allocate options l
  l₂ ← allocate snapshot l₁
  some (record l₂ { has_target = false; has_cursor = false })

unfoldable pub construct : Given → Option Locals
unfolding take_start take_bound create
construct g = do
  l₁ ← take_start g.start (record {
    blocks = all_free;
    start_str = false;
    start = false;
    start_data = start_chars;
    has_target = false;
    has_cursor = false;
  })
  l₂ ← take_bound end g.end false l₁
  l₃ ← take_bound lt g.lt g.reverse l₂
  l₄ ← take_bound lte g.lte g.reverse l₃
  l₅ ← take_bound gt g.gt (not g.reverse) l₄
  l₆ ← take_bound gte g.gte (not g.reverse) l₅
  create l₆

-- `ReleaseTarget`; iterator.js lets no empty target through, so there is a text to free.
free_target : Locals → Option Locals
free_target l =
    if l.has_target
    then (do l₁ ← free target_chars l; l₂ ← free target l₁; some (record l₂ { has_target = false }))
    else some l

-- `GetIterator`.
make_cursor : Locals → Option Locals
make_cursor l =
    if l.has_cursor
    then some l
    else (do l₁ ← allocate cursor l; some (record l₁ { has_cursor = true }))

-- A `Seek`, and a read with its completion.
pub data Use : Type 0 where
  seeks reads : Use

unfoldable pub use_once : Use → Locals → Option Locals
unfolding free_target make_cursor
use_once seeks l = do
  l₁ ← free_target l
  l₂ ← allocate target_chars l₁
  l₃ ← allocate target l₂
  make_cursor (record l₃ { has_target = true })
use_once reads l = do l₁ ← make_cursor l; free_target l₁

unfoldable pub use_all : List Use → Locals → Option Locals
unfolding use_once
use_all [] l = some l
use_all (u ∷ us) l = use_once u l >>= use_all us

-- `IteratorEnd`: `delete` of no cursor does nothing.
unfoldable pub finish : Bool → Locals → Option Locals
finish false l = some l
finish true l = do
  l₁ ← if l.has_cursor then free cursor l else some l
  free snapshot (record l₁ { has_cursor = false })

-- `delete[] start->data()`: the slice must point to an array of its own.
abbrev free_data : Locals → Option Locals
free_data l = elim l.start_data [ start_chars ↦ free start_chars l | _ ↦ none ]

free_start : Given → Locals → Option Locals
free_start g l =
    if l.start
    then (do
      l₁ ←
          if not (
            (g.lt && g.reverse)
            || (g.lte && g.reverse)
            || (g.gt && not g.reverse)
            || (g.gte && not g.reverse))
          then free_data l
          else some l
      free start_slice l₁)
    else some l

unfoldable pub destroy : Given → Locals → Option Locals
unfolding free_start free_target
destroy g l = do
  l' ← free options l
  l'' ← free_target l'
  l₁ ← free_start g l''
  l₂ ← if g.end then free end l₁ else some l₁
  l₃ ← if g.lt then free lt l₂ else some l₂
  l₄ ← if g.gt then free gt l₃ else some l₃
  l₅ ← if g.lte then free lte l₄ else some l₄
  if g.gte then free gte l₅ else some l₅
