-- ===== src/Bytes/Order.antt =====
-- The comparison of byte strings is a total order.
use Prim.Native.Nat.{Ordering}
use leveldown.Base.{◌≡◌, refl, false, [], ◌∷◌, arith}
use leveldown.Bytes.{Bytes, cmp, is_lt, is_gt}

abbrev pub flip : Ordering → Ordering
flip Ordering.lt = Ordering.gt
flip Ordering.eq = Ordering.eq
flip Ordering.gt = Ordering.lt

pub cmp_refl : (a : Bytes) → cmp a a ≡ Ordering.eq
unfolding cmp
cmp_refl [] = refl
cmp_refl (x ∷ a) = ground (arith, cmp_refl a)

pub cmp-flip : (a b : Bytes) → cmp b a ≡ flip (cmp a b)
unfolding cmp
cmp-flip [] [] = refl
cmp-flip [] (y ∷ b) = refl
cmp-flip (x ∷ a) [] = refl
cmp-flip (x ∷ a) (y ∷ b) = ground (arith, cmp-flip a b)

pub eq_of_cmp : (a b : Bytes) → cmp a b ≡ Ordering.eq → a ≡ b
unfolding cmp
eq_of_cmp [] [] h = refl
eq_of_cmp [] (y ∷ b) h = cc
eq_of_cmp (x ∷ a) [] h = cc
eq_of_cmp (x ∷ a) (y ∷ b) h = ground (arith, eq_of_cmp a b)

pub cmp_trans :
    (a b c : Bytes) → cmp a b ≡ Ordering.lt → cmp b c ≡ Ordering.lt → cmp a c ≡ Ordering.lt
unfolding cmp
cmp_trans [] b [] h k = ground (arith, cmp-flip [] b)
cmp_trans [] b (z ∷ c) h k = refl
cmp_trans (x ∷ a) [] c h k = cc
cmp_trans (x ∷ a) (y ∷ b) [] h k = cc
cmp_trans (x ∷ a) (y ∷ b) (z ∷ c) h k = ground (arith, cmp_trans a b c)

-- What is above something not below `t` is above `t`.
pub gt_of_not_lt :
    (a b t : Bytes) → is_lt (cmp a t) ≡ false → cmp a b ≡ Ordering.lt → cmp b t ≡ Ordering.gt
gt_of_not_lt a b t h k = ground (arith, cmp-flip t b, cmp-flip a t, eq_of_cmp a t, cmp_trans t a b)

-- What is below something not above `t` is below `t`.
pub lt_of_not_gt :
    (a b t : Bytes) → is_gt (cmp b t) ≡ false → cmp a b ≡ Ordering.lt → cmp a t ≡ Ordering.lt
lt_of_not_gt a b t h k = ground (arith, eq_of_cmp b t, cmp_trans a b t)
