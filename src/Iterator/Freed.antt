-- ===== src/Iterator/Freed.antt =====
-- What is left of an iterator's blocks when its destructor of src/iterator.cc has run.
use leveldown.Base.{
  Bool, true, false, not, ◌&&◌, ◌||◌, ◌≡◌, refl, ◌∙◌, sym, ap, Option, none, some, List, [], ◌∷◌,
  arith, some_inj,
}
use leveldown.Iterator.Held.{Locals, all_free, outcome, ◌>>=◌}
use leveldown.Iterator.Blocks.{
  Given, construct, destroy, Use, seeks, reads, use_once, use_all, finish,
}

-- The iterator with or without a cursor, and with or without a target.
abbrev set_up : Bool → Bool → Locals → Locals
set_up c t l = record l {
  blocks = record l.blocks { cursor = c; target_chars = t; target = t };
  has_cursor = c;
  has_target = t;
}

-- Whether there is a target after the uses.
abbrev sought_last : Bool → List Use → Bool
sought_last t [] = t
sought_last t (seeks ∷ us) = sought_last true us
sought_last t (reads ∷ us) = sought_last false us

abbrev pub was_used : List Use → Bool
was_used [] = false
was_used (u ∷ us) = true

use_once-set_up :
    (u : Use) (c t : Bool) (l : Locals)
    → use_once u (set_up c t l) ≡ some (set_up true (sought_last t (u ∷ [])) l)
unfolding use_once
use_once-set_up seeks false false l = refl
use_once-set_up seeks false true l = refl
use_once-set_up seeks true false l = refl
use_once-set_up seeks true true l = refl
use_once-set_up reads false false l = refl
use_once-set_up reads false true l = refl
use_once-set_up reads true false l = refl
use_once-set_up reads true true l = refl

use_all-set_up :
    (us : List Use) (c t : Bool) (l : Locals)
    → use_all us (set_up c t l) ≡ some (set_up (c || was_used us) (sought_last t us) l)
unfolding use_all
use_all-set_up [] false t l = refl
use_all-set_up [] true t l = refl
use_all-set_up (seeks ∷ us) c t l =
    let held : (c || true) ≡ true = ground arith in
    rw held
      (ap (λ m. m >>= use_all us) (use_once-set_up seeks c t l) ∙ use_all-set_up us true true l)
use_all-set_up (reads ∷ us) c t l =
    let held : (c || true) ≡ true = ground arith in
    rw held
      (ap (λ m. m >>= use_all us) (use_once-set_up reads c t l) ∙ use_all-set_up us true false l)

-- An object that starts with neither.
used_after :
    (m : Option Locals) (us : List Use)
    → (m >>= λ l. some (set_up false false l)) ≡ m
    → (m >>= use_all us) ≡ (m >>= λ l. some (set_up (was_used us) (sought_last false us) l))
used_after none us e = refl
used_after (some l) us e = ap (use_all us) (sym (some_inj e)) ∙ use_all-set_up us false false l

abbrev given : Bool → Bool → Bool → Bool → Bool → Bool → Bool → Given
given reverse start end lt lte gt gte = record {
  reverse = reverse;
  start = start;
  end = end;
  lt = lt;
  lte = lte;
  gt = gt;
  gte = gte;
}

construct-set_up :
    (r s e a b c d : Bool)
    → (construct (given r s e a b c d) >>= λ l. some (set_up false false l))
      ≡ construct (given r s e a b c d)
unfolding construct
construct-set_up r s e a b c d = ground arith

destroy_all :
    (r s e a b c d cursor target ended : Bool)
    → outcome (
        (construct (given r s e a b c d) >>= λ l. some (set_up cursor target l))
        >>= finish ended
        >>= destroy (given r s e a b c d))
      ≡ some (record all_free { snapshot = not ended; cursor = cursor && not ended })
unfolding construct destroy finish
destroy_all r s e a b c d cursor target ended = ground arith

-- Whatever bounds are given, and whatever seeks (to targets that are not empty) and completed reads
-- follow: when the iterator is ended and then destroyed, everything that it made is freed exactly
-- once. When it is destroyed without its end, its snapshot is left, and its cursor if a seek or a read
-- had made one, and all else is freed exactly once.
pub destroy-construct :
    (g : Given) (us : List Use) (ended : Bool)
    → outcome (construct g >>= use_all us >>= finish ended >>= destroy g)
      ≡ some (record all_free { snapshot = not ended; cursor = was_used us && not ended })
destroy-construct g us ended =
    ap (λ m. outcome (m >>= finish ended >>= destroy g))
      (used_after (construct g) us (construct-set_up g.reverse g.start g.end g.lt g.lte g.gt g.gte))
    ∙ destroy_all g.reverse g.start g.end g.lt g.lte g.gt g.gte (was_used us) (sought_last false us)
        ended
