-- ===== src/Natives/View.antt =====
-- The objects of a database of src/database.cc in order, and what an open and a close make of them.
use leveldown.Base.{
  ℕ, ◌+◌, ◌<◌, ◌≤◌, ◌≡◌, refl, Bool, true, false, Option, none, some, List, [], ◌∷◌, ◌++◌, arith,
}
use mathlib.Core.Option
use leveldown.Natives.Objects.{
  Object, make, delete, Loose, Settled, needed-Settled, needed-Loose, delete-first, delete-under,
  needed,
}
use leveldown.Natives.Connection.{
  State, opened, opened_sync, apply, open_, open_execute, open_sync, open_database, close_database,
}

abbrev pub plain : ℕ → Object
plain n = record { number = n; needs = [] }

abbrev pub cache_part : Option ℕ → List Object
cache_part none = []
cache_part (some b) = plain (b + 1) ∷ plain b ∷ []

abbrev pub db_part : Option (ℕ × List ℕ) → List Object
db_part none = []
db_part (some (d, needs)) = record { number = d; needs = needs } ∷ []

-- A connection with a cache numbered `cache`, the filter made after it, and a LevelDB object, over
-- what was lost before and the objects of others.
abbrev pub view : ℕ → Option ℕ → Option (ℕ × List ℕ) → List Object → List Object → ℕ → State
view l cache db lost base next = (
  record {
    location = l;
    db = Option.map (λ d. d.0) db;
    block_cache = cache;
    filter_policy = Option.map (λ b. b + 1) cache;
  },
  record { live = db_part db ++ (cache_part cache ++ (lost ++ plain l ∷ base)); next = next },
)

abbrev pub IsYounger : ℕ → Option ℕ → Type 0
IsYounger l none = Unit
IsYounger l (some b) = l < b

pub rest-unneeded :
    (l n : ℕ) (cache : Option ℕ) (lost base : List Object)
    → l ≤ n
    → Loose l lost
    → Settled l base
    → needed n (cache_part cache ++ (lost ++ plain l ∷ base)) ≡ false
rest-unneeded l n none lost base h a s =
    needed-Loose l n lost (plain l ∷ base) a (needed-Settled l n base h s)
rest-unneeded l n (some b) lost base h a s =
    needed-Loose l n lost (plain l ∷ base) a (needed-Settled l n base h s)

pub delete_db :
    (l : ℕ) (cache : Option ℕ) (db : Option (ℕ × List ℕ)) (lost base : List Object) (next : ℕ)
    → IsYounger l (Option.map (λ d. d.0) db)
    → Loose l lost
    → Settled l base
    → delete (view l cache db lost base next).0.db (view l cache db lost base next).1
      ≡ some (view l cache none lost base next).1
unfolding delete
delete_db l cache none lost base next y a s = refl
delete_db l cache (some (d, needs)) lost base next y a s =
    delete-first (record { number = d; needs = needs })
      (cache_part cache ++ (lost ++ plain l ∷ base)) next d refl
      (rest-unneeded l d cache lost base (omega (arith, y)) a s)

pub closed_alone :
    (l : ℕ) (db : Option (ℕ × List ℕ)) (lost base : List Object) (next : ℕ)
    → IsYounger l (Option.map (λ d. d.0) db)
    → Loose l lost
    → Settled l base
    → close_database (view l none db lost base next) ≡ some (view l none none lost base next)
unfolding close_database delete
closed_alone l db lost base next y a s =
    rw (close_database, delete_db l none db lost base next y a s) refl

pub closed_with :
    (l b : ℕ) (db : Option (ℕ × List ℕ)) (lost base : List Object) (next : ℕ)
    → IsYounger l (Option.map (λ d. d.0) db)
    → l < b
    → Loose l lost
    → Settled l base
    → close_database (view l (some b) db lost base next) ≡ some (view l none none lost base next)
unfolding close_database
closed_with l b db lost base next y z a s =
    let rest = lost ++ plain l ∷ base in
    let e = rest-unneeded l b none lost base (omega (arith, z)) a s in
    let f = rest-unneeded l (b + 1) none lost base (omega (arith, z)) a s in
    rw
      (
        close_database,
        delete_db l (some b) db lost base next y a s,
        delete-under b (plain (b + 1) ∷ []) (plain b) rest next ((omega arith, refl), tt) refl e,
        delete-first (plain (b + 1)) rest next (b + 1) refl f,
      )
      refl

pub apply_closed :
    (l : ℕ) (cache : Option ℕ) (db : Option (ℕ × List ℕ)) (lost base : List Object) (next : ℕ)
    → IsYounger l (Option.map (λ d. d.0) db)
    → IsYounger l cache
    → Loose l lost
    → Settled l base
    → close_database (view l cache db lost base next) ≡ some (view l none none lost base next)
apply_closed l none db lost base next y z a s = closed_alone l db lost base next y a s
apply_closed l (some b) db lost base next y z a s = closed_with l b db lost base next y z a s

-- What an open makes of the cache and filter that are still held: they are lost.
abbrev pub lose : Option ℕ → List Object → List Object
lose cache lost = cache_part cache ++ lost

abbrev pub new_db : Bool → ℕ → List ℕ → Option (ℕ × List ℕ)
new_db false n needs = none
new_db true n needs = some (n, needs)

abbrev pub made : Bool → ℕ → ℕ
made false n = n
made true n = n + 1

pub apply_opened :
    (ok : Bool) (l : ℕ) (cache : Option ℕ) (lost base : List Object) (next : ℕ)
    → apply (opened ok) (view l cache none lost base next)
      ≡ some (
          view l
            (some next)
            (new_db ok (next + 1 + 1) (next ∷ (next + 1) ∷ []))
            (lose cache lost)
            base
            (made ok (next + 1 + 1)))
unfolding apply open_ open_execute open_database make
apply_opened false l none lost base next = refl
apply_opened false l (some b) lost base next = refl
apply_opened true l none lost base next = refl
apply_opened true l (some b) lost base next = refl

pub apply_opened_sync :
    (ok : Bool) (l : ℕ) (cache : Option ℕ) (lost base : List Object) (next : ℕ)
    → apply (opened_sync ok) (view l cache none lost base next)
      ≡ some (view l cache (new_db ok next []) lost base (made ok next))
unfolding apply open_sync open_database make
apply_opened_sync false l cache lost base next = refl
apply_opened_sync true l cache lost base next = refl
