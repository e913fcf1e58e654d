-- ===== src/Float/Binary/Order.antt =====
-- The facts of IEEE 754 on comparisons, minima and conversions, of binary64.
use trillium_ratelimit.Common.{
  ℕ, ◌-◌, ◌*◌, ◌/◌, ◌^◌, ◌≤◌, ◌<◌, ◌≡◌, ◌∙◌, refl, true, false, some, leb→le, arith, subst, ap, sym,
  u64_max,
}
use native.Mathlib.Nat.{mul-le-mul_right}
use trillium_ratelimit.Time.{Duration, nanos_per_sec}
use trillium_ratelimit.Float.{exact_max}
use trillium_ratelimit.Float.Binary.Nearest.{half_even, half_even_mono}
use trillium_ratelimit.Float.Binary.Round.{round, round_mono, round_exact}
use trillium_ratelimit.Float.Binary.Defs.{
  one, IsDouble, Double, finite, infinite, nan, make, of_u64, le, sub, min, floor_u64,
  from_secs_f64, unit_pos,
}
use trillium_ratelimit.Float.Binary.Made.{fits, overflows, make-IsMade, make_mono, make_self}

pub le_trans : (x y z : Double) → le x y ≡ true → le y z ≡ true → le x z ≡ true
unfolding le
le_trans (finite a p) (finite b q) (finite c r) h k = ground arith
le_trans (finite a p) infinite (finite c r) h k = cc
le_trans (finite a p) nan z h k = cc
le_trans (finite a p) y infinite h k = refl
le_trans (finite a p) (finite b q) nan h k = cc
le_trans (finite a p) infinite nan h k = cc
le_trans infinite (finite b q) z h k = cc
le_trans infinite infinite z h k = k
le_trans infinite nan z h k = cc
le_trans nan y z h k = cc

pub le_refl_of : (x y : Double) → le x y ≡ true → le x x ≡ true
unfolding le
le_refl_of (finite a p) y h = ground arith
le_refl_of infinite y h = refl
le_refl_of nan y h = cc

pub le_total : (x y : Double) → le x x ≡ true → le y y ≡ true → le x y ≡ false → le y x ≡ true
unfolding le
le_total (finite a p) (finite b q) h k l = ground arith
le_total (finite a p) infinite h k l = cc
le_total (finite a p) nan h k l = cc
le_total infinite (finite b q) h k l = refl
le_total infinite infinite h k l = cc
le_total infinite nan h k l = cc
le_total nan y h k l = cc

pub of_u64_mono : (m n : ℕ) → m ≤ n → le (of_u64 m) (of_u64 n) ≡ true
unfolding of_u64
of_u64_mono m n h = make_mono (m * one) 1 (n * one) 1 _ _ (omega arith)

pub whole-IsDouble : (n : ℕ) → n ≤ exact_max → IsDouble (n * one)
whole-IsDouble n h = ground (arith, same)
  where
    unit : n * 2 ^ 1074 * 1 ≡ n * one
    unit = omega arith

    same : round (n * one) 1 ≡ n * one
    same = subst (λ (t : ℕ). round t 1 ≡ n * one) unit (round_exact n 1074 1 (omega arith) h)

-- Whole numbers up to 2^53 are not rounded.
pub of_u64_exact : (n : ℕ) (h : n ≤ exact_max) → of_u64 n ≡ finite (n * one) (whole-IsDouble n h)
unfolding of_u64
of_u64_exact n h = make_self (n * one) unit_pos (whole-IsDouble n h)

pub of_u64_made : (n : ℕ) → of_u64 n ≡ make (n * one) 1 unit_pos
unfolding of_u64
of_u64_made n = refl

-- A `u64` does not overflow.
pub data IsFinite : Double → Type 0 where
  number : (k : ℕ) (p : IsDouble k) → k ≤ 2 ^ 1138 → IsFinite (finite k p)

pub of_u64-IsFinite : (n : ℕ) → n ≤ u64_max → IsFinite (of_u64 n)
unfolding of_u64
of_u64-IsFinite n h = elim (make-IsMade (n * one) 1 unit_pos) [
  | fits s e ↦ rw e (number _ _ below)
  | overflows s e ↦ absurd (omega (arith, s, below))
]
  where
    unit : 1 * 2 ^ 1138 * 1 ≡ 2 ^ 1138
    unit = omega arith

    top : round (2 ^ 1138) 1 ≡ 2 ^ 1138
    top =
        subst (λ (t : ℕ). round t 1 ≡ 2 ^ 1138) unit
          (round_exact 1 1138 1 (omega arith) (omega arith))

    below : round (n * one) 1 ≤ 2 ^ 1138
    below =
        omega (
          arith,
          top,
          round_mono (n * one) 1 (2 ^ 1138) 1 (omega arith) (omega arith) (omega arith),
        )

pub min-le_right : (x y : Double) → le y y ≡ true → le (min x y) y ≡ true
unfolding le min
min-le_right (finite a p) (finite b q) h = ground arith
min-le_right (finite a p) infinite h = refl
min-le_right (finite a p) nan h = cc
min-le_right infinite (finite b q) h = h
min-le_right infinite infinite h = refl
min-le_right infinite nan h = cc
min-le_right nan y h = h

pub min_nan : (x y : Double) → le x x ≡ false → min x y ≡ y
unfolding le min
min_nan (finite a p) y h = ground arith
min_nan infinite y h = cc
min_nan nan y h = refl

pub le-min : (x y z : Double) → le z x ≡ true → le z y ≡ true → le z (min x y) ≡ true
unfolding min le
le-min x y z h k = ground arith

pub min-of_le : (x y : Double) → le x y ≡ true → min x y ≡ x
unfolding min le
min-of_le (finite a p) (finite b q) h = rw h refl
min-of_le (finite a p) infinite h = refl
min-of_le (finite a p) nan h = refl
min-of_le infinite (finite b q) h = cc
min-of_le infinite infinite h = refl
min-of_le infinite nan h = refl
min-of_le nan y h = cc

div_le : (a b : ℕ) → a ≤ b → a / one ≤ b / one
div_le a b h = omega arith

pub floor_mono : (x y : Double) → le x y ≡ true → floor_u64 x ≤ floor_u64 y
unfolding le floor_u64
floor_mono (finite a p) (finite b q) h = ground (arith, div_le a b (leb→le _ _ h))
floor_mono (finite a p) infinite h = ground arith
floor_mono (finite a p) nan h = cc
floor_mono infinite (finite b q) h = cc
floor_mono infinite infinite h = omega arith
floor_mono infinite nan h = cc
floor_mono nan y h = cc

pub floor-of_u64 : (n : ℕ) → n ≤ exact_max → floor_u64 (of_u64 n) ≡ n
unfolding floor_u64
floor-of_u64 n h =
    let whole : n * one / one ≡ n = omega arith in rw (of_u64_exact n h) (ground (arith, whole))

pub lt-of_u64 : (m n : ℕ) → n ≤ exact_max → m < n → le (of_u64 n) (of_u64 m) ≡ false
unfolding le
lt-of_u64 m n h k = rw (of_u64_exact n h, of_u64_exact m (omega arith)) (ground arith)

pub sub-of_u64 : (m n : ℕ) → n ≤ exact_max → m ≤ n → sub (of_u64 n) (of_u64 m) ≡ of_u64 (n - m)
unfolding sub
sub-of_u64 m n h k =
    let same : n * one - m * one ≡ (n - m) * one = omega arith in
    rw (of_u64_exact n h, of_u64_exact m (omega arith))
      (ap (λ (t : ℕ). make t 1 unit_pos) same ∙ sym (of_u64_made (n - m)))

pub from_secs_mono :
    (x y : Double) (d : Duration)
    → le x y ≡ true
    → from_secs_f64 y ≡ some d
    → (e : Duration) × (from_secs_f64 x ≡ some e) × (e ≤ d)
unfolding le from_secs_f64
from_secs_mono (finite a p) (finite b q) d h k =
    let below : half_even (a * nanos_per_sec) one ≤ half_even (b * nanos_per_sec) one =
      half_even_mono (a * nanos_per_sec) one (b * nanos_per_sec) one (omega arith) (omega arith)
        (mul-le-mul_right one (mul-le-mul_right nanos_per_sec (leb→le a b h))) in
    (half_even (a * nanos_per_sec) one, ground (arith, below), ground (arith, below))
from_secs_mono (finite a p) infinite d h k = cc
from_secs_mono (finite a p) nan d h k = cc
from_secs_mono infinite (finite b q) d h k = cc
from_secs_mono infinite infinite d h k = cc
from_secs_mono infinite nan d h k = cc
from_secs_mono nan y d h k = cc
