-- ===== src/Order/Rate.antt =====
-- The order of rate keys: `RateKey::cmp` is a total preorder on keys with a positive offer, as a
-- key of a `BTreeMap` has to be, and the profit test compares a rate with an inverse one.
use Prim.Native.Nat.{Ordering}
use native.Mathlib.Nat.{
  le_of_mul-le-mul_right, mul-le-mul_right, lt_of_mul-lt-mul_right, mul-lt-mul_of_pos_right,
}
use solver.Prelude.{◌*◌, ◌<◌, ◌≤◌, ◌≡◌, true, lt→ltb, arith}
use solver.Order.{RateKey, Order, IsValid, cmp, is_profitable_with, rate_key}

-- `k` is no worse than `l`.
abbrev pub RateLe : RateKey → RateKey → Type 0
RateLe k l = k.requested * l.offered ≤ l.requested * k.offered

pub RateLe-trans : (k l m : RateKey) → 0 < l.offered → RateLe k l → RateLe l m → RateLe k m
RateLe-trans k l m pos h i =
    le_of_mul-le-mul_right {k = l.offered}
      (omega (arith, mul-le-mul_right m.offered h, mul-le-mul_right k.offered i)) pos

pub cmp-lt_RateLe : (k l : RateKey) → cmp k l ≡ Ordering.lt → RateLe k l
unfolding cmp
cmp-lt_RateLe k l h = ground arith

pub cmp-eq_RateLe : (k l : RateKey) → cmp k l ≡ Ordering.eq → RateLe k l × RateLe l k
unfolding cmp
cmp-eq_RateLe k l h = ground arith

pub cmp-gt_RateLe : (k l : RateKey) → cmp k l ≡ Ordering.gt → RateLe l k
unfolding cmp
cmp-gt_RateLe k l h = ground arith

-- Two keys that compare equal compare alike with every third.
pub cmp-eq_trans :
    (k l m : RateKey)
    → 0 < k.offered
    → 0 < l.offered
    → cmp k l ≡ Ordering.eq
    → RateLe l m
    → RateLe k m
cmp-eq_trans k l m pk pl h i = RateLe-trans k l m pl (cmp-eq_RateLe k l h).0 i

-- Of two valid orders, the one priced no worse is profitable with every valid order that the other
-- is profitable with.
pub is_profitable_with-RateLe :
    (a b c : Order)
    → IsValid a
    → IsValid b
    → IsValid c
    → RateLe (rate_key b) (rate_key c)
    → is_profitable_with a c ≡ true
    → is_profitable_with a b ≡ true
unfolding is_profitable_with rate_key
is_profitable_with-RateLe a b c va vb vc h p =
    let profit : a.requested * c.requested < a.offered * c.offered = ground arith in
    lt→ltb _ _ (
      lt_of_mul-lt-mul_right c.offered (
        omega
          (arith, mul-le-mul_right a.requested h, mul-lt-mul_of_pos_right profit vb.offered_pos)))
