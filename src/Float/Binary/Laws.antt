-- ===== src/Float/Binary/Laws.antt =====
-- binary64 meets the facts and the error bounds that the proofs take from it.
use trillium_ratelimit.Common.{
  ℕ, ◌*◌, ◌≤◌, ◌≡◌, ◌∙◌, inl, inr, true, Bool-cases, leb, leb→le, le→leb, arith,
}
use native.Mathlib.Nat.{mul-le-mul_right, le_of_mul-le-mul_right}
use trillium_ratelimit.Float.{IsIeee, exact_max}
use trillium_ratelimit.Float.Rounded.{IsRounded}
use trillium_ratelimit.Float.Binary.Defs.{
  one, Double, finite, infinite, nan, of_u64, le, add, mul, div, min, as_secs_f64, binary64,
  unit_pos,
}
use trillium_ratelimit.Float.Binary.Made.{nonneg}
use trillium_ratelimit.Float.Binary.Order.{
  le_trans, le_refl_of, le_total, of_u64_mono, of_u64_made, of_u64_exact, min-le_right, min_nan,
  le-min, min-of_le, floor_mono, floor-of_u64, lt-of_u64, sub-of_u64, from_secs_mono,
}
use trillium_ratelimit.Float.Binary.Arithmetic.{
  add_nought, sub_bounds, div_mono, from_secs_nan, as_secs_nonneg,
}
use trillium_ratelimit.Float.Binary.Bounds.{AtMost, AtLeast, AtMost-trans, make_zero}
use trillium_ratelimit.Float.Binary.Errors.{add-AtMost, sub-AtMost, mul-AtMost, div-AtMost}
use trillium_ratelimit.Float.Binary.Seconds.{
  as_secs-AtMost, as_secs-AtLeast, mul_nought, as_secs_zero,
}

AtMost-number : (x : Double) (a d : ℕ) → AtMost x a d → le x x ≡ true
unfolding le
AtMost-number (finite k p) a d h = le→leb k k (omega arith)
AtMost-number infinite a d h = absurd h
AtMost-number nan a d h = absurd h

AtMost-le : (x y : Double) (a d : ℕ) → le x y ≡ true → AtMost y a d → AtMost x a d
unfolding le
AtMost-le (finite k p) (finite l q) a d h m = omega (arith, m, mul-le-mul_right d (leb→le k l h))
AtMost-le x infinite a d h m = absurd m
AtMost-le x nan a d h m = absurd m
AtMost-le infinite (finite l q) a d h m = cc
AtMost-le nan (finite l q) a d h m = cc

of_u64-AtMost : (n : ℕ) → n ≤ exact_max → AtMost (of_u64 n) n 1
of_u64-AtMost n h = rw (of_u64_exact n h) (omega arith)

covers_finite :
    (n a d : ℕ) (x : Double) (p : _) → le (finite (n * one) p) x ≡ true → AtMost x a d → n * d ≤ a
unfolding le
covers_finite n a d (finite k q) p h m =
    le_of_mul-le-mul_right {k = one} (omega (arith, m, mul-le-mul_right d (leb→le _ _ h)))
      (omega arith)
covers_finite n a d infinite p h m = absurd m
covers_finite n a d nan p h m = absurd m

AtMost-covers :
    (n : ℕ) (x : Double) (a d : ℕ)
    → n ≤ exact_max
    → le (of_u64 n) x ≡ true
    → AtMost x a d
    → n * d ≤ a
AtMost-covers n x a d h l m = covers_finite n a d x _ (rw (of_u64_exact n h) at l) m

min-AtMost : (x y : Double) (a d : ℕ) → AtMost x a d → AtMost (min x y) a d
unfolding min
min-AtMost (finite k p) (finite l q) a d h = elim (Bool-cases (leb k l)) [
  | inl e ↦ rw e h
  | inr e ↦ let less : l ≤ k = ground arith in rw e (omega (arith, h, mul-le-mul_right d less))
]
min-AtMost (finite k p) infinite a d h = h
min-AtMost (finite k p) nan a d h = h
min-AtMost infinite y a d h = absurd h
min-AtMost nan y a d h = absurd h

pub binary64-IsIeee : IsIeee binary64
binary64-IsIeee = record {
  le_trans = le_trans;
  le_refl_of = le_refl_of;
  le_total = le_total;
  of_u64_mono = of_u64_mono;
  of_u64_zero = of_u64_made 0 ∙ make_zero 1 unit_pos;
  min-le_right = λ x n. min-le_right x (of_u64 n) (of_u64_mono n n (omega arith));
  min_nan = min_nan;
  le-min = le-min;
  add_nonneg = λ x y _ _. nonneg (add x y);
  mul_nonneg = λ x y _ _. nonneg (mul x y);
  div_nonneg = λ n d. nonneg (div (of_u64 n) (as_secs_f64 d));
  as_secs_nonneg = as_secs_nonneg;
  as_secs_zero = as_secs_zero;
  sub_bounds = λ x y n h k _ l. sub_bounds x y n h k l;
  floor_mono = floor_mono;
  floor-of_u64 = floor-of_u64;
  lt-of_u64 = lt-of_u64;
  sub-of_u64 = sub-of_u64;
  min-of_u64 = λ m n h. min-of_le _ _ (of_u64_mono m n h);
  add_nought = λ n. add_nought _ (of_u64_mono n n (omega arith));
  mul_nought = mul_nought;
  div_mono = λ x m r h _ k l n. div_mono x m r h k l n;
  from_secs_nan = from_secs_nan;
  from_secs_mono = λ x y d _ h k. from_secs_mono x y d h k;
}

pub binary64-IsRounded : IsRounded binary64
binary64-IsRounded = record {
  AtMost = AtMost;
  AtLeast = AtLeast;
  AtMost-number = AtMost-number;
  AtMost-trans = λ x a d b e h _ k. AtMost-trans x a d b e h k;
  AtMost-le = AtMost-le;
  of_u64-AtMost = of_u64-AtMost;
  AtMost-covers = λ n x a d h _. AtMost-covers n x a d h;
  min-AtMost = min-AtMost;
  add-AtMost = λ x y a b d i la lb ld.
      add-AtMost x y a b d i (omega (arith, la)) (omega (arith, lb)) (omega (arith, ld));
  sub-AtMost =
      λ x n a d fit i la ld. sub-AtMost x n a d fit i (omega (arith, la)) (omega (arith, ld));
  mul-AtMost = λ x y a b d e i j la lb ld le _ _. mul-AtMost x y a b d e i j la lb ld le;
  div-AtMost = div-AtMost;
  as_secs-AtMost = as_secs-AtMost;
  as_secs-AtLeast = as_secs-AtLeast;
}
