-- ===== src/Bytes.antt =====
-- Byte strings and their three-way comparison, which `leveldb::Slice::compare` and
-- `std::string::compare` compute for the keys and bounds of src/iterator.cc: the first byte that
-- differs decides, and a proper prefix is smaller. The result's sign is an `Ordering`.
pub mod Order
use Prim.Native.Nat.{compare, Ordering}
use leveldown.Base.{ℕ, Bool, true, false, List, [], ◌∷◌}

abbrev pub Bytes : Type 0
Bytes = List ℕ

unfoldable pub cmp : Bytes → Bytes → Ordering
cmp [] [] = Ordering.eq
cmp [] (b ∷ bs) = Ordering.lt
cmp (a ∷ as') [] = Ordering.gt
cmp (a ∷ as') (b ∷ bs) = elim (compare a b) [
  | Ordering.lt ↦ Ordering.lt
  | Ordering.eq ↦ cmp as' bs
  | Ordering.gt ↦ Ordering.gt
]

-- The tests `< 0`, `<= 0`, `== 0`, `>= 0` and `> 0` on the result of a comparison.
abbrev pub is_lt : Ordering → Bool
is_lt Ordering.lt = true
is_lt _ = false

abbrev pub is_le : Ordering → Bool
is_le Ordering.gt = false
is_le _ = true

abbrev pub is_eq : Ordering → Bool
is_eq Ordering.eq = true
is_eq _ = false

abbrev pub is_ge : Ordering → Bool
is_ge Ordering.lt = false
is_ge _ = true

abbrev pub is_gt : Ordering → Bool
is_gt Ordering.gt = true
is_gt _ = false
