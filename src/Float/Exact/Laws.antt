-- ===== src/Float/Exact/Laws.antt =====
-- Exact arithmetic meets the facts that the proofs take from IEEE 754.
use trillium_ratelimit.Common.{
  ℕ, zero, suc, ◌-◌, ◌*◌, ◌/◌, ◌≤◌, ◌<◌, ◌≡◌, refl, inl, inr, true, false, none, some, leb→le,
  le→leb, arith,
}
use native.Mathlib.Nat.{mul-le-mul_right, le_of_mul-le-mul_right, le-div_iff_mul-le, mul-div-le}
use trillium_ratelimit.Time.{Duration}
use trillium_ratelimit.Float.{IsIeee, IsNonnegOrNan, exact_max}
use trillium_ratelimit.Float.Exact.Defs.{
  Fraction, frac, infinite, nan, exact, of_u64, le, add, sub, mul, div, min, floor_u64, as_secs_f64,
  nearest, from_secs_f64,
}

cross_trans :
    (a b c d e f : ℕ) → a * suc d ≤ c * suc b → c * suc f ≤ e * suc d → a * suc f ≤ e * suc b
cross_trans a b c d e f h k =
    le_of_mul-le-mul_right {k = suc d}
      (omega (arith, mul-le-mul_right (suc f) h, mul-le-mul_right (suc b) k)) (omega arith)

le_trans : (x y z : Fraction) → le x y ≡ true → le y z ≡ true → le x z ≡ true
unfolding le
le_trans (frac a b) (frac c d) (frac e f) h k =
    le→leb _ _ (cross_trans a b c d e f (leb→le _ _ h) (leb→le _ _ k))
le_trans (frac a b) infinite (frac e f) h k = cc
le_trans (frac a b) nan (frac e f) h k = cc
le_trans (frac a b) y infinite h k = refl
le_trans (frac a b) (frac c d) nan h k = cc
le_trans (frac a b) infinite nan h k = cc
le_trans (frac a b) nan nan h k = cc
le_trans infinite (frac c d) z h k = cc
le_trans infinite infinite z h k = k
le_trans infinite nan z h k = cc
le_trans nan y z h k = cc

le_refl_of : (x y : Fraction) → le x y ≡ true → le x x ≡ true
unfolding le
le_refl_of (frac a b) y h = ground arith
le_refl_of infinite y h = refl
le_refl_of nan y h = cc

le_total : (x y : Fraction) → le x x ≡ true → le y y ≡ true → le x y ≡ false → le y x ≡ true
unfolding le
le_total (frac a b) (frac c d) h k l = ground arith
le_total (frac a b) infinite h k l = cc
le_total (frac a b) nan h k l = cc
le_total infinite (frac c d) h k l = refl
le_total infinite infinite h k l = refl
le_total infinite nan h k l = cc
le_total nan y h k l = cc

of_u64_mono : (m n : ℕ) → m ≤ n → le (of_u64 m) (of_u64 n) ≡ true
unfolding le of_u64
of_u64_mono m n h = ground arith

min-le_right : (x : Fraction) (n : ℕ) → le (min x (of_u64 n)) (of_u64 n) ≡ true
unfolding le of_u64 min
min-le_right x n = ground arith

min_nan : (x y : Fraction) → le x x ≡ false → min x y ≡ y
unfolding le min
min_nan (frac a b) y h = ground arith
min_nan infinite y h = cc
min_nan nan y h = refl

le-min : (x y z : Fraction) → le z x ≡ true → le z y ≡ true → le z (min x y) ≡ true
unfolding min le
le-min x y z h k = ground arith

nonneg : (x : Fraction) → IsNonnegOrNan exact x
unfolding le
nonneg (frac a b) = inl (le→leb _ _ (omega arith))
nonneg infinite = inl refl
nonneg nan = inr refl

as_secs_nonneg : (d : Duration) → le (frac 0 0) (as_secs_f64 d) ≡ true
unfolding le as_secs_f64
as_secs_nonneg d = ground arith

sub_le : (m n : ℕ) → m - n ≤ m
sub_le m n = omega arith

as_secs_zero : as_secs_f64 0 ≡ frac 0 0
unfolding as_secs_f64
as_secs_zero = refl

sub_bounds :
    (x y : Fraction) (n : ℕ)
    → le x (of_u64 n) ≡ true
    → le y x ≡ true
    → (le (frac 0 0) (sub x y) ≡ true) × (le (sub x y) x ≡ true)
unfolding le of_u64 sub
sub_bounds (frac a b) (frac c d) n h k = (
  le→leb _ _ (omega arith),
  le→leb _ _ (omega (arith, mul-le-mul_right (suc b) (sub_le (a * suc d) (c * suc b)))),
)
sub_bounds (frac a b) infinite n h k = cc
sub_bounds (frac a b) nan n h k = cc
sub_bounds infinite y n h k = cc
sub_bounds nan y n h k = cc

-- The whole part grows with the fraction.
div_cross : (x p y q : ℕ) → 0 < p → 0 < q → x * q ≤ y * p → x / p ≤ y / q
div_cross x p y q hp hq h =
    (le-div_iff_mul-le hq).1
      (le_of_mul-le-mul_right {k = p} (omega (arith, mul-le-mul_right q (mul-div-le x p))) hp)

nearest_mono : (a b c d : ℕ) → a * suc d ≤ c * suc b → nearest a b ≤ nearest c d
unfolding nearest
nearest_mono a b c d h =
    div_cross _ (2 * suc b) _ (2 * suc d) (omega arith) (omega arith) (omega arith)

floor_mono : (x y : Fraction) → le x y ≡ true → floor_u64 x ≤ floor_u64 y
unfolding le floor_u64
floor_mono (frac a b) (frac c d) h =
    ground (arith, div_cross a (suc b) c (suc d) (omega arith) (omega arith) (leb→le _ _ h))
floor_mono (frac a b) infinite h = ground arith
floor_mono (frac a b) nan h = cc
floor_mono infinite (frac c d) h = cc
floor_mono infinite infinite h = omega arith
floor_mono infinite nan h = cc
floor_mono nan y h = cc

floor-of_u64 : (n : ℕ) → n ≤ exact_max → floor_u64 (of_u64 n) ≡ n
unfolding floor_u64 of_u64
floor-of_u64 n h = ground arith

lt-of_u64 : (m n : ℕ) → m < n → le (of_u64 n) (of_u64 m) ≡ false
unfolding le of_u64
lt-of_u64 m n h = ground arith

sub-of_u64 : (m n : ℕ) → m ≤ n → sub (of_u64 n) (of_u64 m) ≡ of_u64 (n - m)
unfolding sub of_u64
sub-of_u64 m n h = ground arith

min-of_u64 : (m n : ℕ) → m ≤ n → min (of_u64 m) (of_u64 n) ≡ of_u64 m
unfolding min of_u64
min-of_u64 m n h = ground arith

add_nought : (n : ℕ) → add (of_u64 n) (frac 0 0) ≡ of_u64 n
unfolding add of_u64
add_nought n = ground arith

mul_nought :
    (n : ℕ) (d : Duration) → 0 < d → mul (frac 0 0) (div (of_u64 n) (as_secs_f64 d)) ≡ frac 0 0
unfolding mul div of_u64 as_secs_f64
mul_nought n zero h = absurd (omega arith)
mul_nought zero (suc d) h = refl
mul_nought (suc n) (suc d) h = refl

div_mono :
    (x : Fraction) (m : ℕ) (r : Fraction)
    → le x (of_u64 m) ≡ true
    → le (frac 0 0) r ≡ true
    → le r (frac 0 0) ≡ false
    → (le (frac 0 0) (div x r) ≡ true) × (le (div x r) (div (of_u64 m) r) ≡ true)
unfolding le of_u64 div
div_mono (frac a b) m (frac zero d) h k l = ground arith
div_mono (frac a b) m (frac (suc c) d) h k l =
    let scaled = mul-le-mul_right (suc d * suc c) (leb→le _ _ h) in
    let den : suc (suc b * suc c - 1) ≡ suc b * suc c = omega arith in
    let one : suc (1 * suc c - 1) ≡ suc c = omega arith in
    (le→leb _ _ (omega arith), le→leb _ _ (rw (den, one) (omega (arith, scaled))))
div_mono (frac a b) m infinite h k l = (refl, refl)
div_mono (frac a b) m nan h k l = cc
div_mono infinite m r h k l = cc
div_mono nan m r h k l = cc

from_secs_nan : (x r : Fraction) → le r r ≡ false → from_secs_f64 (div x r) ≡ none
unfolding le div from_secs_f64
from_secs_nan x (frac c d) h = ground arith
from_secs_nan x infinite h = cc
from_secs_nan (frac zero b) nan h = refl
from_secs_nan (frac (suc a) b) nan h = refl
from_secs_nan infinite nan h = refl
from_secs_nan nan nan h = refl

from_secs_mono :
    (x y : Fraction) (d : Duration)
    → le x y ≡ true
    → from_secs_f64 y ≡ some d
    → (e : Duration) × (from_secs_f64 x ≡ some e) × (e ≤ d)
unfolding le from_secs_f64
from_secs_mono (frac a b) (frac c d) t h k =
    let below = nearest_mono a b c d (leb→le _ _ h) in
    (nearest a b, ground (arith, below), ground (arith, below))
from_secs_mono (frac a b) infinite t h k = cc
from_secs_mono (frac a b) nan t h k = cc
from_secs_mono infinite (frac c d) t h k = cc
from_secs_mono infinite infinite t h k = cc
from_secs_mono infinite nan t h k = cc
from_secs_mono nan y t h k = cc

pub exact-IsIeee : IsIeee exact
exact-IsIeee = record {
  le_trans = le_trans;
  le_refl_of = le_refl_of;
  le_total = le_total;
  of_u64_mono = of_u64_mono;
  of_u64_zero = unfold of_u64 in refl;
  min-le_right = min-le_right;
  min_nan = min_nan;
  le-min = le-min;
  add_nonneg = λ x y _ _. nonneg (add x y);
  mul_nonneg = λ x y _ _. nonneg (mul x y);
  div_nonneg = λ n d. nonneg (div (of_u64 n) (as_secs_f64 d));
  as_secs_nonneg = as_secs_nonneg;
  as_secs_zero = as_secs_zero;
  sub_bounds = λ x y n _ h _ k. sub_bounds x y n h k;
  floor_mono = floor_mono;
  floor-of_u64 = floor-of_u64;
  lt-of_u64 = λ m n _ h. lt-of_u64 m n h;
  sub-of_u64 = λ m n _ h. sub-of_u64 m n h;
  min-of_u64 = min-of_u64;
  add_nought = add_nought;
  mul_nought = λ n d _ h _. mul_nought n d h;
  div_mono = λ x m r _ _ h k l. div_mono x m r h k l;
  from_secs_nan = from_secs_nan;
  from_secs_mono = λ x y d _ h k. from_secs_mono x y d h k;
}
