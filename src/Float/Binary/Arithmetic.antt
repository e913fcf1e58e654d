-- ===== src/Float/Binary/Arithmetic.antt =====
-- The facts of IEEE 754 on sums, differences, products and quotients, of binary64.
use trillium_ratelimit.Common.{
  ℕ, zero, suc, ◌+◌, ◌-◌, ◌*◌, ◌≤◌, ◌<◌, ◌≡◌, ◌∙◌, refl, true, false, none, leb→le, arith, subst,
  ap, u64_max,
}
use native.Mathlib.Nat.{mul-le-mul_right, mod-lt}
use trillium_ratelimit.Time.{Duration, nanos_per_sec, as_secs, subsec_nanos}
use trillium_ratelimit.Float.Binary.Defs.{
  one, IsDouble, Double, finite, infinite, nan, make, of_u64, le, add, sub, div, as_secs_f64,
  from_secs_f64, zero-IsDouble, unit_pos, suc_pos, quotient,
}
use trillium_ratelimit.Float.Binary.Made.{make_mono, make_self, make-IsNonneg, make_any}
use trillium_ratelimit.Float.Binary.Order.{
  of_u64_exact, of_u64_made, IsFinite, number, of_u64-IsFinite, le_trans,
}

pub add_nought : (x : Double) → le x x ≡ true → add x (finite 0 zero-IsDouble) ≡ x
unfolding add le
add_nought (finite k p) h =
    let same : k + 0 ≡ k = omega arith in
    ap (λ (t : ℕ). make t 1 unit_pos) same ∙ make_self k unit_pos p
add_nought infinite h = refl
add_nought nan h = cc

finite_form : (y : Double) → IsFinite y → (k : ℕ) × (p : IsDouble k) × (y ≡ finite k p)
finite_form y (number k p h) = (k, p, refl)

le_numbers :
    (k l : ℕ) (p : IsDouble k) (q : IsDouble l) → le (finite k p) (finite l q) ≡ true → k ≤ l
unfolding le
le_numbers k l p q h = leb→le k l h

-- A number is no more than a finite one.
below_finite :
    (x y : Double) → le x y ≡ true → IsFinite y → (k : ℕ) × (p : IsDouble k) × (x ≡ finite k p)
unfolding le
below_finite (finite k p) y h f = (k, p, refl)
below_finite infinite (finite k p) h f = cc
below_finite infinite infinite h f = let (k, p, e) = finite_form infinite f in cc e
below_finite infinite nan h f = cc
below_finite nan y h f = cc

-- A difference is no more than what is reduced.
make_le : (n k : ℕ) (p : IsDouble k) → n ≤ k → le (make n 1 unit_pos) (finite k p) ≡ true
make_le n k p h =
    subst (λ (x : Double). le (make n 1 unit_pos) x ≡ true) (make_self k unit_pos p)
      (make_mono n 1 k 1 unit_pos unit_pos (omega arith))

sub_finite :
    (k l : ℕ) (p : IsDouble k) (q : IsDouble l)
    → (le (finite 0 zero-IsDouble) (sub (finite k p) (finite l q)) ≡ true)
      × (le (sub (finite k p) (finite l q)) (finite k p) ≡ true)
unfolding sub
sub_finite k l p q = (make-IsNonneg (k - l) 1 unit_pos, make_le (k - l) k p (omega arith))

pub sub_bounds :
    (x y : Double) (n : ℕ)
    → n ≤ u64_max
    → le x (of_u64 n) ≡ true
    → le y x ≡ true
    → (le (finite 0 zero-IsDouble) (sub x y) ≡ true) × (le (sub x y) x ≡ true)
sub_bounds x y n h below less =
    let (k, p, e) = below_finite x (of_u64 n) below (of_u64-IsFinite n h) in
    let (l, q, e') =
      below_finite y (of_u64 n) (le_trans y x (of_u64 n) less below) (of_u64-IsFinite n h) in
    rw (e, e') (sub_finite k l p q)

quotient_mono : (k m l : ℕ) → k ≤ m → le (quotient k (suc l)) (quotient m (suc l)) ≡ true
quotient_mono k m l h =
    make_mono (k * one) (suc l) (m * one) (suc l) (suc_pos l) (suc_pos l)
      (mul-le-mul_right (suc l) (mul-le-mul_right one h))

div_finite :
    (k m : ℕ) (p : IsDouble k) (q : IsDouble m) (r : Double)
    → k ≤ m
    → le r (finite 0 zero-IsDouble) ≡ false
    → le (finite 0 zero-IsDouble) r ≡ true
    → (le (finite 0 zero-IsDouble) (div (finite k p) r) ≡ true)
      × (le (div (finite k p) r) (div (finite m q) r) ≡ true)
unfolding div le
div_finite k m p q (finite zero s) h not_zero nonneg = cc
div_finite k m p q (finite (suc l) s) h not_zero nonneg =
    (make-IsNonneg (k * one) (suc l) (suc_pos l), quotient_mono k m l h)
div_finite k m p q infinite h not_zero nonneg = (refl, refl)
div_finite k m p q nan h not_zero nonneg = cc

pub div_mono :
    (x : Double) (m : ℕ) (r : Double)
    → m ≤ u64_max
    → le x (of_u64 m) ≡ true
    → le (finite 0 zero-IsDouble) r ≡ true
    → le r (finite 0 zero-IsDouble) ≡ false
    → (le (finite 0 zero-IsDouble) (div x r) ≡ true) × (le (div x r) (div (of_u64 m) r) ≡ true)
div_mono x m r h below nonneg not_zero =
    let (k, p, e) = below_finite x (of_u64 m) below (of_u64-IsFinite m h) in
    let (l, q, e') = finite_form (of_u64 m) (of_u64-IsFinite m h) in
    rw (e, e') (div_finite k l p q r (le_numbers k l p q (rw (e, e') at below)) not_zero nonneg)

pub from_secs_nan : (x r : Double) → le r r ≡ false → from_secs_f64 (div x r) ≡ none
unfolding le div from_secs_f64
from_secs_nan x (finite l q) h = ground arith
from_secs_nan x infinite h = cc
from_secs_nan (finite k p) nan h = refl
from_secs_nan infinite nan h = refl
from_secs_nan nan nan h = refl

add-IsNonneg :
    (x y : Double)
    → le (finite 0 zero-IsDouble) x ≡ true
    → le (finite 0 zero-IsDouble) y ≡ true
    → le (finite 0 zero-IsDouble) (add x y) ≡ true
unfolding add le
add-IsNonneg (finite k p) (finite l q) h i = make-IsNonneg (k + l) 1 unit_pos
add-IsNonneg (finite k p) infinite h i = refl
add-IsNonneg (finite k p) nan h i = cc
add-IsNonneg infinite (finite l q) h i = refl
add-IsNonneg infinite infinite h i = refl
add-IsNonneg infinite nan h i = cc
add-IsNonneg nan y h i = cc

pub quotient_made : (k l : ℕ) (h : 0 < l) → quotient k l ≡ make (k * one) l h
quotient_made k zero h = absurd (omega arith)
quotient_made k (suc l) h = make_any (k * one) (suc l) (suc_pos l) h

pub nanos_pos : 0 < nanos_per_sec * one
nanos_pos = omega arith

-- The nanoseconds of a duration as seconds.
pub nanos_made :
    (r : ℕ)
    → r < nanos_per_sec
    → div (of_u64 r) (of_u64 nanos_per_sec) ≡ make (r * one * one) (nanos_per_sec * one) nanos_pos
unfolding div
nanos_made r h =
    rw (of_u64_exact r (omega arith), of_u64_exact nanos_per_sec (omega arith))
      (quotient_made (r * one) (nanos_per_sec * one) nanos_pos)

pub as_secs_made :
    (d : Duration)
    → as_secs_f64 d
      ≡ add
          (make (as_secs d * one) 1 unit_pos)
          (make (subsec_nanos d * one * one) (nanos_per_sec * one) nanos_pos)
unfolding as_secs_f64
as_secs_made d =
    rw (nanos_made (subsec_nanos d) (mod-lt d (omega arith)), of_u64_made (as_secs d)) refl

pub as_secs_nonneg : (d : Duration) → le (finite 0 zero-IsDouble) (as_secs_f64 d) ≡ true
as_secs_nonneg d =
    rw (as_secs_made d)
      (add-IsNonneg _ _ (make-IsNonneg _ _ unit_pos) (make-IsNonneg _ _ nanos_pos))
