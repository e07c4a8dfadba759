-- ===== src/Natives/Fate.antt =====
-- What becomes of the objects of a database of src/database.cc, over any sequence of opens and closes.
use leveldown.Base.{
  ℕ, suc, ◌+◌, ◌*◌, ◌<◌, ◌≡◌, refl, sym, ap, subst, Bool, true, false, Option, none, some, List, [],
  ◌∷◌, ◌++◌, arith, length, if◌then◌else◌,
}
use mathlib.Core.Option
use leveldown.Store.Calls.{◌>>=◌}
use leveldown.Natives.Objects.{
  Object, Natives, make, delete, Loose, Settled, needed-Settled, delete-under,
}
use leveldown.Natives.Connection.{
  State, Event, opened, opened_sync, closed, apply, run, construct, destroy, in_turn, overwritten,
  held_after,
}
use leveldown.Natives.View.{
  plain, view, IsYounger, delete_db, apply_closed, lose, new_db, made, apply_opened,
  apply_opened_sync,
}

abbrev there : {A : Type 0} → Option A → Bool
there none = false
there (some x) = true

-- Where a run ends: nothing was freed that does not live or that is needed, and two objects were lost
-- for each of `k` opens.
abbrev Ends : ℕ → List Object → List Object → ℕ → Bool → Option State → Type 0
Ends l lost base k held r =
    (cache : Option ℕ) × (db : Option (ℕ × List ℕ)) × (lost' : List Object) × (next : ℕ) × (r
      ≡ some (view l cache db lost' base next))
    × Loose l lost'
    × (length lost' ≡ length lost + 2 * k)
    × (there cache ≡ held)
    × IsYounger l (Option.map (λ d. d.0) db)
    × IsYounger l cache

Loose-lose :
    (l : ℕ) (cache : Option ℕ) (lost : List Object)
    → IsYounger l cache
    → Loose l lost
    → Loose l (lose cache lost)
Loose-lose l none lost y a = a
Loose-lose l (some b) lost y a = ((omega (arith, y), refl), ((y, refl), a))

new_db-IsYounger :
    (ok : Bool) (l n : ℕ) (needs : List ℕ)
    → l < n
    → IsYounger l (Option.map (λ d. d.0) (new_db ok n needs))
new_db-IsYounger false l n needs h = tt
new_db-IsYounger true l n needs h = h

new_db-there : (ok : Bool) (n : ℕ) (needs : List ℕ) → there (new_db ok n needs) ≡ ok
new_db-there false n needs = refl
new_db-there true n needs = refl

made-younger : (ok : Bool) (l n : ℕ) → l < n → l < made ok n
made-younger false l n h = h
made-younger true l n h = omega (arith, h)

Ends-lose :
    (l : ℕ) (cache : Option ℕ) (lost base : List Object) (k : ℕ) (held : Bool) (r : Option State)
    → Ends l (lose cache lost) base k held r
    → Ends l lost base (if there cache then suc k else k) held r
Ends-lose l none lost base k held r e = e
Ends-lose l (some b) lost base k held r (cache, db, lost', next, same, a, n, h, y, z) =
    (cache, db, lost', next, same, a, omega (arith, n), h, y, z)

run_step :
    (e : Event) (es : List Event) (s s' : State) → apply e s ≡ some s' → run es s' ≡ run (e ∷ es) s
unfolding run
run_step e es s s' h = sym (ap (λ (r : Option State). r >>= λ x. run es x) h)

run-Ends :
    (es : List Event) (l : ℕ) (cache : Option ℕ) (db : Option (ℕ × List ℕ))
    (lost base : List Object) (next : ℕ)
    → Loose l lost
    → Settled l base
    → IsYounger l cache
    → IsYounger l (Option.map (λ d. d.0) db)
    → l < next
    → in_turn (there db) es ≡ true
    → Ends l lost base
        (overwritten (there cache) es)
        (held_after (there cache) es)
        (run es (view l cache db lost base next))
unfolding run in_turn overwritten held_after apply
run-Ends [] l cache db lost base next a s y z n t =
    (cache, db, lost, next, refl, a, omega arith, refl, z, y)
run-Ends (opened ok ∷ es) l cache (some d) lost base next a s y z n t = absurd (cc)
run-Ends (opened_sync ok ∷ es) l cache (some d) lost base next a s y z n t = absurd (cc)
run-Ends (opened ok ∷ es) l cache none lost base next a s y z n t =
    let db = new_db ok (next + 1 + 1) (next ∷ (next + 1) ∷ []) in
    let older : l < next + 1 + 1 = omega (arith, n) in
    let rest =
      run-Ends es l (some next) db (lose cache lost) base (made ok (next + 1 + 1))
        (Loose-lose l cache lost y a) s n
        (new_db-IsYounger ok l (next + 1 + 1) (next ∷ (next + 1) ∷ []) older)
        (made-younger ok l (next + 1 + 1) older)
        (rw (new_db-there ok (next + 1 + 1) (next ∷ (next + 1) ∷ [])) t) in
    subst (Ends l lost base (overwritten (there cache) (opened ok ∷ es)) (held_after true es))
      (run_step (opened ok) es (view l cache none lost base next)
        (view l (some next) db (lose cache lost) base (made ok (next + 1 + 1)))
        (apply_opened ok l cache lost base next))
      (Ends-lose l cache lost base (overwritten true es) (held_after true es)
        (run es (view l (some next) db (lose cache lost) base (made ok (next + 1 + 1)))) rest)
run-Ends (opened_sync ok ∷ es) l cache none lost base next a s y z n t =
    subst (Ends l lost base (overwritten (there cache) es) (held_after (there cache) es))
      (run_step (opened_sync ok) es (view l cache none lost base next)
        (view l cache (new_db ok next []) lost base (made ok next))
        (apply_opened_sync ok l cache lost base next))
      (run-Ends es l cache (new_db ok next []) lost base (made ok next) a s y
        (new_db-IsYounger ok l next [] n) (made-younger ok l next n)
        (rw (new_db-there ok next []) t))
run-Ends (closed ∷ es) l cache db lost base next a s y z n t =
    let closes : apply closed (view l cache db lost base next)
        ≡ some (view l none none lost base next) =
      apply_closed l cache db lost base next z y a s in
    subst (Ends l lost base (overwritten false es) (held_after false es))
      (run_step closed es (view l cache db lost base next) (view l none none lost base next) closes)
      (run-Ends es l none none lost base next a s tt tt n t)

delete_location :
    (l : ℕ) (cache : Option ℕ) (lost base : List Object) (next : ℕ)
    → Loose l (lose cache lost)
    → Settled l base
    → delete (some l) (view l cache none lost base next).1
      ≡ some (record { live = lose cache lost ++ base; next = next })
delete_location l none lost base next a s =
    delete-under l lost (plain l) base next a refl (needed-Settled l l base (omega arith) s)
delete_location l (some b) lost base next a s =
    delete-under l (lose (some b) lost) (plain l) base next a refl
      (needed-Settled l l base (omega arith) s)

destroyed :
    (l : ℕ) (cache : Option ℕ) (db : Option (ℕ × List ℕ)) (lost base : List Object) (next : ℕ)
    → Loose l lost
    → Settled l base
    → IsYounger l (Option.map (λ d. d.0) db)
    → IsYounger l cache
    → destroy (view l cache db lost base next)
      ≡ some (record { live = lose cache lost ++ base; next = next })
unfolding destroy
destroyed l cache db lost base next a s y z =
    rw (destroy, delete_db l cache db lost base next y a s)
      (delete_location l cache lost base next (Loose-lose l cache lost z a) s)

length-lose :
    (cache : Option ℕ) (lost : List Object) (k : ℕ) (held : Bool)
    → length lost ≡ 2 * k
    → there cache ≡ held
    → length (lose cache lost) ≡ 2 * (if held then suc k else k)
length-lose none lost k held n e = rw⁻¹ e n
length-lose (some b) lost k held n e = rw⁻¹ e (omega (arith, n))

-- From any objects of others, none of which needs one that is not made yet: a database is made, is
-- opened with whatever outcome, but only while it is not open, each open being executed before
-- anything else is called, is closed at any time, and is destroyed in the end. Nothing is ever freed
-- that does not live, or that an object that lives still needs; the objects of others live on; and what
-- is left over is exactly two objects, a cache and a filter, for each asynchronous open that another
-- asynchronous open comes after before a close, or that no close comes after.
pub destroy-run :
    (es : List Event) (h : Natives)
    → Settled h.next h.live
    → in_turn false es ≡ true
    → (s : State) × (h' : Natives) × (left : List Object) × (run es (construct h) ≡ some s)
      × (destroy s ≡ some h')
      × (h'.live ≡ left ++ h.live)
      × (length left
          ≡ 2 * (if held_after false es then suc (overwritten false es) else overwritten false es))
unfolding construct make
destroy-run es h old t =
    let (cache, db, lost, next, same, a, n, held, y, z) =
      run-Ends es h.next none none [] h.live (h.next + 1) tt old tt tt (omega arith) t in
    (
      view h.next cache db lost h.live next,
      record { live = lose cache lost ++ h.live; next = next },
      lose cache lost,
      same,
      destroyed h.next cache db lost h.live next a old y z,
      refl,
      length-lose cache lost (overwritten false es) (held_after false es) (omega (arith, n)) held,
    )
