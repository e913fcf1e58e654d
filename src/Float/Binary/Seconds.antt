-- ===== src/Float/Binary/Seconds.antt =====
-- The seconds of a duration, and a rate over it, in binary64.
use trillium_ratelimit.Common.{ℕ, ◌+◌, ◌-◌, ◌*◌, ◌^◌, ◌≤◌, ◌<◌, ◌≡◌, arith, subst, u64_max}
use native.Mathlib.Nat.{mod-lt, mod-add-div'}
use trillium_ratelimit.Time.{Duration, nanos_per_sec, max_duration, as_secs, subsec_nanos}
use trillium_ratelimit.Float.Binary.Exponent.{full}
use trillium_ratelimit.Float.Binary.Round.{round, round_mono, round_exact}
use trillium_ratelimit.Float.Binary.Defs.{
  one, Double, finite, infinite, nan, make, of_u64, add, mul, div, as_secs_f64, zero-IsDouble,
  unit_pos, one_pos, quotient,
}
use trillium_ratelimit.Float.Binary.Made.{IsMade, fits, overflows, make-IsMade}
use trillium_ratelimit.Float.Binary.Order.{IsFinite, number, of_u64-IsFinite}
use trillium_ratelimit.Float.Binary.Arithmetic.{nanos_pos, as_secs_made, quotient_made}
use trillium_ratelimit.Float.Binary.Bounds.{
  AtMost, AtLeast, AtMost-trans, AtLeast-trans, make-AtMost, make-AtLeast, make_zero,
}
use trillium_ratelimit.Float.Binary.Errors.{add-AtMost, add-AtLeast}

split : (t : Duration) → as_secs t * nanos_per_sec + subsec_nanos t ≡ t
split t = omega (arith, mod-add-div' t nanos_per_sec)

module _ (t : Duration) (h : t ≤ max_duration) where
  secs_le : as_secs t ≤ u64_max
  secs_le = omega (arith, split t)

  nanos_le : subsec_nanos t < nanos_per_sec
  nanos_le = mod-lt t (omega arith)

  pub as_secs-AtMost : AtMost (as_secs_f64 t) (t * (full + 3)) (nanos_per_sec * full)
  as_secs-AtMost = rw (as_secs_made t) (
      AtMost-trans _ _ _ _ _ (omega arith) (omega (arith, split t)) (
        add-AtMost _ _ (as_secs t * nanos_per_sec * (full + 1)) (subsec_nanos t * (full + 1))
          (nanos_per_sec * full) (omega arith) (omega (arith, secs_le)) (omega (arith, nanos_le))
          (omega arith)
          (AtMost-trans _ _ _ _ _ (omega arith) (omega arith) (
            make-AtMost (as_secs t * one) 1 (as_secs t) 1 unit_pos unit_pos (omega (arith, secs_le))
              (omega arith) (omega arith)))
          (make-AtMost (subsec_nanos t * one * one) (nanos_per_sec * one) (subsec_nanos t)
            nanos_per_sec nanos_pos (omega arith) (omega (arith, nanos_le)) (omega arith)
            (omega arith))))

  pub as_secs-AtLeast : AtLeast (as_secs_f64 t) (t * (full - 2)) (nanos_per_sec * full)
  as_secs-AtLeast = rw (as_secs_made t) (
      AtLeast-trans _ _ _ _ _ (omega arith) (omega (arith, split t)) (
        add-AtLeast _ _ (as_secs t * nanos_per_sec * (full - 1)) (subsec_nanos t * (full - 1))
          (nanos_per_sec * full) (omega arith) (omega (arith, secs_le)) (omega (arith, nanos_le))
          (omega arith)
          (AtLeast-trans _ _ _ _ _ (omega arith) (omega arith) (
            make-AtLeast (as_secs t * one) 1 (as_secs t) 1 unit_pos unit_pos
              (omega (arith, secs_le)) (omega arith) (omega arith)))
          (make-AtLeast (subsec_nanos t * one * one) (nanos_per_sec * one) (subsec_nanos t)
            nanos_per_sec nanos_pos (omega arith) (omega (arith, nanos_le)) (omega arith)
            (omega arith))))

-- A `u64` by a number that is not small does not overflow.
quotient_zero :
    (k l : ℕ)
    → k ≤ 2 ^ 1138
    → 2 ^ 1040 ≤ l
    → mul (finite 0 zero-IsDouble) (quotient k l) ≡ finite 0 zero-IsDouble
unfolding mul
quotient_zero k l h low =
    rw (quotient_made k l positive) (product (make-IsMade (k * one) l positive))
  where
    positive : 0 < l
    positive = omega arith

    unit : 1 * 2 ^ 1200 * 1 ≡ 2 ^ 1200
    unit = omega arith

    top : round (2 ^ 1200) 1 ≡ 2 ^ 1200
    top =
        subst (λ (t : ℕ). round t 1 ≡ 2 ^ 1200) unit
          (round_exact 1 1200 1 (omega arith) (omega arith))

    below : round (k * one) l ≤ 2 ^ 1200
    below =
        omega (arith, top, round_mono (k * one) l (2 ^ 1200) 1 positive (omega arith) (omega arith))

    product :
        IsMade (k * one) l positive
        → mul (finite 0 zero-IsDouble) (make (k * one) l positive) ≡ finite 0 zero-IsDouble
    product (fits s e) = rw e (
        let none_left : 0 * round (k * one) l ≡ 0 = omega arith in
        rw none_left (make_zero one one_pos))
    product (overflows s e) = absurd (omega (arith, s, below))

rate_zero :
    (x y : Double) (d : Duration)
    → IsFinite x
    → 0 < d
    → AtLeast y (d * (full - 2)) (nanos_per_sec * full)
    → mul (finite 0 zero-IsDouble) (div x y) ≡ finite 0 zero-IsDouble
unfolding mul div
rate_zero x (finite l q) d (number k p h) positive low = quotient_zero k l h (omega arith)
rate_zero x infinite d (number k p h) positive low = make_zero one one_pos
rate_zero x nan d f positive low = absurd low

pub mul_nought :
    (n : ℕ) (d : Duration)
    → n ≤ u64_max
    → 0 < d
    → d ≤ max_duration
    → mul (finite 0 zero-IsDouble) (div (of_u64 n) (as_secs_f64 d)) ≡ finite 0 zero-IsDouble
mul_nought n d fit positive h =
    rate_zero _ _ d (of_u64-IsFinite n fit) positive (as_secs-AtLeast d h)

pub as_secs_zero : as_secs_f64 0 ≡ finite 0 zero-IsDouble
unfolding add
as_secs_zero =
    rw (as_secs_made 0, make_zero 1 unit_pos, make_zero (nanos_per_sec * one) nanos_pos)
      (make_zero 1 unit_pos)
