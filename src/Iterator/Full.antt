-- ===== src/Iterator/Full.antt =====
-- A whole iteration: `IteratorNext` is called until it reports the end, and the rows of all calls
-- are those of the entries in range.
use mathlib.Core.Option
use leveldown.Base.{
  ℕ, zero, suc, ◌-◌, ◌<◌, ℤ, pos, negsuc, Bool, true, false, ◌≡◌, refl, sym, ◌∙◌, ap, Option, none,
  some, arith, if◌then◌else◌, List, [], ◌∷◌, ◌++◌, length, take, Sorted, filter, not, take_while,
  Bool-cases, take_while_cong, Closes, Sorted-rev_append, All-map, leb, inl, ◌+◌, inr,
  All-filter_self, take_while-eq-filter, Sorted-filter, filter-filter, filter_cong, subst, map,
  length-rev_append, ◌≤◌, length-filter, ◌^◌, ◌%◌,
}
use leveldown.Cursor.{Entry, CursorOps, CursorLaws}
use leveldown.Iterator.{
  Row, IteratorOptions, Iterator, new_iterator, iterator_next, accepts, out_of_range, passes_limit,
  bump,
}
use leveldown.Iterator.Pending.{row_of, Pending, unstarted}
use leveldown.Iterator.Start.{start_cursor-rows}
use leveldown.Iterator.Split.{in_order}
use leveldown.Iterator.Scan.{wanted, wanted_rows, Delivers, collect-Delivers}
use leveldown.Iterator.Range.{
  Plain, Before, After, entered, kept, in_range, kept_down, accepts-eq-kept, kept_up,
  in_range-split,
}

-- What a limit leaves of a list when so many rows have been counted.
abbrev pub limited {ℓ} : {A : Type ℓ} → ℤ → ℕ → List A → List A
limited (negsuc n) count xs = xs
limited (pos limit) count xs = take (limit - count) xs

take-nil {ℓ} : {A : Type ℓ} (n : ℕ) → take {A = A} n [] ≡ []
take-nil zero = refl
take-nil (suc n) = refl

limited-nil {ℓ} : {A : Type ℓ} (limit : ℤ) (count : ℕ) → limited {A = A} limit count [] ≡ []
limited-nil (negsuc n) count = refl
limited-nil (pos n) count = take-nil (n - count)

limited-cons {ℓ} :
    {A : Type ℓ} (limit : ℤ) (count : ℕ) (x : A) (xs : List A)
    → count + 1 < 2 ^ 31
    → limited limit count (x ∷ xs)
      ≡ (if passes_limit limit count then x ∷ limited limit (bump limit count) xs else [])
unfolding passes_limit bump
limited-cons (negsuc n) count x xs b = refl
limited-cons (pos n) count x xs b =
    let same : (count + 1) % 2 ^ 32 ≡ count + 1 = omega arith in
    let low : leb (2 ^ 31) (count + 1) ≡ false = ground arith in
    elim (Bool-cases (leb (count + 1) n)) [
      | inl h ↦
          let e : n - count ≡ suc (n - (count + 1)) = ground arith in rw (same, low, h, e) refl
      | inr h ↦ let e : n - count ≡ 0 = ground arith in rw (same, low, h, e) refl
    ]

-- Below 2^31 the counter does not wrap round.
bump_small : (limit : ℤ) (count n : ℕ) → count + suc n < 2 ^ 31 → bump limit count + n < 2 ^ 31
unfolding bump
bump_small (negsuc l) count n b = omega arith
bump_small (pos l) count n b = omega arith

pub wanted-eq-limited :
    (o : IteratorOptions) (count : ℕ) (rest : List Entry)
    → count + length rest < 2 ^ 31
    → wanted o count rest ≡ limited o.limit count (take_while (λ e. accepts o e.key) rest)
wanted-eq-limited o count [] b = sym (limited-nil o.limit count)
wanted-eq-limited o count (e ∷ rest) b = elim (Bool-cases (accepts o e.key)) [
  | inl h ↦ ground (
    arith,
    h,
    wanted-eq-limited o (bump o.limit count) rest (bump_small o.limit count (length rest) b),
    limited-cons o.limit count e (take_while (λ x. accepts o x.key) rest) (omega arith),
  )
  | inr h ↦ ground (arith, h, limited-nil {A = Entry} o.limit count)
]

-- Entries in range, in the direction of travel, within the limit.
abbrev pub selected : IteratorOptions → ℕ → List Entry → List Entry
selected o count entries =
    limited o.limit count (filter (λ e. not (out_of_range o e.key)) (in_order o.reverse entries))

pub length-in_order :
    (reverse : Bool) (entries : List Entry) → length (in_order reverse entries) ≡ length entries
length-in_order true entries = omega (arith, length-rev_append entries [])
length-in_order false entries = refl

-- The order of the entries in the direction of travel.
abbrev pub Towards : Bool → Entry → Entry → Type 0
Towards true = After
Towards false = Before

pub in_order-Sorted :
    (reverse : Bool) (entries : List Entry)
    → Sorted Before entries
    → Sorted (Towards reverse) (in_order reverse entries)
in_order-Sorted true entries s = Sorted-rev_append Before entries [] s tt tt
in_order-Sorted false entries s = s

pub kept-Closes :
    (o : IteratorOptions) (b : Bool)
    → o.reverse ≡ b
    → Closes (Towards b) (λ (e : Entry). kept o e.key)
kept-Closes o true r x y l h = kept_down o r x y l h
kept-Closes o false r x y l h = kept_up o r x y l h

pub take_while-in_range :
    (o : IteratorOptions) (entries : List Entry)
    → Sorted Before entries
    → take_while (λ e. accepts o e.key) (filter (λ e. entered o e.key) (in_order o.reverse entries))
      ≡ filter (λ e. not (out_of_range o e.key)) (in_order o.reverse entries)
unfolding in_range
take_while-in_range o entries s =
    let all = in_order o.reverse entries in
    let inside = filter (λ (e : Entry). entered o e.key) all in
    take_while_cong (λ e. accepts o e.key) (λ e. kept o e.key) inside
      (All-map inside (λ e h. accepts-eq-kept o e.key h)
        (All-filter_self (λ e. entered o e.key) all))
    ∙ take_while-eq-filter (Towards o.reverse) (λ e. kept o e.key) inside
        (kept-Closes o o.reverse refl)
        (Sorted-filter (Towards o.reverse) (λ e. entered o e.key) all
          (in_order-Sorted o.reverse entries s))
    ∙ filter-filter (λ e. kept o e.key) (λ e. entered o e.key) all
    ∙ sym (filter_cong _ _ all (λ e. in_range-split o e.key))

module _ {C : Type 0} (ops : CursorOps C) where
  -- What the caller does with the outcome of one call.
  unfoldable pub then_rest :
      (Iterator C → Option (List Row)) → Option (List Row × Bool × Iterator C) → Option (List Row)
  then_rest next none = none
  then_rest next (some (got, false, it')) = some got
  then_rest next (some (got, true, it')) = Option.map (λ rest. got ++ rest) (next it')

  -- The caller's loop: calls until one reports the end, the rows of all of them in order.
  unfoldable pub drain : ℕ → ℕ → Iterator C → Option (List Row)
  unfolding then_rest
  drain zero fuel it = none
  drain (suc calls) fuel it = then_rest (drain calls fuel) (iterator_next ops fuel it)

module _ {C : Type 0} (ops : CursorOps C) (entries : List Entry)
    (laws : CursorLaws ops entries) where
  drain_rest :
      (next : Iterator C → Option (List Row)) (o : IteratorOptions) (expected : List Row)
      (bound : ℕ) (r : Option (List Row × Bool × Iterator C))
      → Delivers ops entries laws o expected bound r
      → ((it' : Iterator C) (rest : List Entry)
          → Pending ops entries laws it' rest
          → it'.options ≡ o
          → length rest < bound
          → next it' ≡ some (wanted_rows o it'.count rest))
      → then_rest ops next r ≡ some expected
  unfolding then_rest
  drain_rest next o expected bound none h k = absurd h
  drain_rest next o expected bound (some (got, false, it')) h k = ap some h
  drain_rest next o expected bound (some (got, true, it')) h k =
      rw (k it' h.0 h.1 h.2 h.3) (ap some (sym h.4))

  pub drain-Pending :
      (calls fuel : ℕ) (it : Iterator C) (rest : List Entry)
      → Pending ops entries laws it rest
      → length rest < calls
      → length rest < fuel
      → drain ops calls fuel it ≡ some (wanted_rows it.options it.count rest)
  unfolding drain iterator_next
  drain-Pending zero fuel it rest p h k = absurd (omega arith)
  drain-Pending (suc calls) fuel it rest p h k =
      drain_rest (drain ops calls fuel) it.options _ (length rest) _
        (collect-Delivers ops entries laws fuel 0 it rest p k)
        λ it' rest' p' same l.
          subst (λ o. drain ops calls fuel it' ≡ some (wanted_rows o it'.count rest')) same
            (drain-Pending calls fuel it' rest' p' (omega arith) (omega arith))

  -- Over entries in the order of their keys: a new iterator whose options start from at most one
  -- kind of bound, called until it reports the end, returns the rows of exactly the entries that
  -- `OutOfRange` does not refuse, in the direction of travel and within the limit. There are fewer
  -- than 2^31 entries, the range of the counter; more calls and more loop rounds than there are
  -- entries are enough.
  pub drain-new_iterator :
      (o : IteratorOptions) (calls fuel : ℕ)
      → Plain o
      → Sorted Before entries
      → length entries < 2 ^ 31
      → length entries < calls
      → length entries < fuel
      → drain ops calls fuel (new_iterator o)
        ≡ some (map (row_of o.keys o.values) (selected o 0 entries))
  unfolding new_iterator
  drain-new_iterator o calls fuel plain sorted small h k =
      let all = in_order o.reverse entries in
      let rest = filter (λ (e : Entry). entered o e.key) all in
      let few : length rest ≤ length entries = omega (
        arith,
        length-filter (λ (e : Entry). entered o e.key) all,
        length-in_order o.reverse entries,
      ) in
      drain-Pending calls fuel (new_iterator o) rest
        (unstarted refl (start_cursor-rows ops entries laws o ops.fresh plain sorted)) (omega arith)
        (omega arith)
      ∙ ap (λ xs. some (map (row_of o.keys o.values) xs))
          (wanted-eq-limited o 0 rest (omega arith)
            ∙ ap (limited o.limit 0) (take_while-in_range o entries sorted))
