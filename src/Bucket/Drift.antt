-- ===== src/Bucket/Drift.antt =====
-- src/bucket.rs: how far rounding lets the level of a bucket drift upwards in one call.
use trillium_ratelimit.Common.{
  ℕ, ◌+◌, ◌-◌, ◌*◌, ◌≤◌, ◌<◌, ◌≡◌, true, Bool-cases, inl, inr, some, arith, leb, if◌then◌else◌, min,
}
use native.Mathlib.Nat.{mul-le-mul_right, mul-le-mul}
use trillium_ratelimit.Time.{
  Instant, Duration, max_duration, nanos_per_sec, saturating_duration_since,
}
use trillium_ratelimit.Quota.{Quota}
use trillium_ratelimit.Float.{F64, IsIeee, IsNonneg, exact_max}
use trillium_ratelimit.Float.Rounded.{IsRounded, precision}
use trillium_ratelimit.Bucket.{Bucket, Decision, refill_per_second, refilled, charged, try_consume}
use trillium_ratelimit.Bucket.Bounds.{IsValid, try_consume-Outcome, refilled_bounds}

-- One rounding of a fraction.
over_scale :
    (x y s : ℕ)
    → x * (precision + 1) ≤ y * precision
    → x * (precision + 1) * s ≤ y * (s * precision)
over_scale x y s h = omega (arith, mul-le-mul_right s h)

module _ (f : F64) (ieee : IsIeee f) (rounded : IsRounded f) (q : Quota)
    (count_le : q.count ≤ exact_max) (window_le : q.window ≤ max_duration)
    (positive : 0 < q.window) where
  open f use {Value, of_u64, add, sub, mul, div, le, as_secs_f64}
  open rounded use {
    AtMost, AtLeast, AtMost-trans, div-AtMost, mul-AtMost, as_secs-AtMost, as_secs-AtLeast,
    AtMost-number,
  }

  rate-AtMost :
      AtMost
        (refill_per_second f q)
        (q.count * nanos_per_sec * (precision + 4))
        (q.window * precision)
  unfolding refill_per_second
  rate-AtMost = AtMost-trans _ _ _ _ _ (omega arith) (omega arith) (omega arith) (
      div-AtMost q.count (as_secs_f64 q.window) (q.window * (precision - 2))
        (nanos_per_sec * precision) count_le (omega arith) (omega arith) (omega arith) (omega arith)
        (as_secs-AtLeast q.window window_le))

  rate-IsNonneg : IsNonneg f (refill_per_second f q)
  unfolding refill_per_second
  rate-IsNonneg = elim (ieee.div_nonneg q.count q.window) [
    | inl h ↦ h
    | inr nan ↦ cc (AtMost-number _ _ _ rate-AtMost, nan)
  ]

  gain-AtMost :
      (t : Duration)
      → t ≤ max_duration
      → AtMost
          (mul (as_secs_f64 t) (refill_per_second f q))
          (t * q.count * (precision + 9))
          (q.window * precision)
  gain-AtMost t h = AtMost-trans _ _ _ _ _ (omega arith) (omega arith) (omega arith) (
      mul-AtMost _ _ _ _ _ _ (omega arith) (omega arith) (omega arith) (omega arith) (omega arith)
        (omega arith) (ieee.as_secs_nonneg t) rate-IsNonneg (as_secs-AtMost t h) rate-AtMost)

  -- One token.
  abbrev scale : ℕ
  scale = q.window * precision

  since_le_max : (now t : Instant) → saturating_duration_since now t ≤ max_duration
  unfolding saturating_duration_since
  since_le_max now t = ground arith

  module _ (burst_le : q.burst ≤ exact_max) where
    full_le : q.burst * q.window ≤ exact_max * max_duration
    full_le = mul-le-mul burst_le window_le

    -- The refill, before it is capped.
    refilled-AtMost :
        (b : Bucket f) (now : Instant) (n : ℕ)
        → n ≤ q.burst * scale
        → AtMost b.tokens n scale
        → AtMost
            (refilled f b now q)
            (n
              + saturating_duration_since now b.last_update * q.count * (precision + 11)
              + q.burst * q.window)
            scale
    unfolding refilled
    refilled-AtMost b now n h at =
        let t = saturating_duration_since now b.last_update in
        let short = since_le_max now b.last_update in
        let grown : t * q.count ≤ max_duration * exact_max = mul-le-mul short count_le in
        rounded.min-AtMost _ _ _ _ (
          AtMost-trans _ _ _ _ _ (omega arith) (omega arith) (over_scale _ _ scale (omega arith)) (
            rounded.add-AtMost _ _ n (t * q.count * (precision + 9)) scale (omega arith)
              (omega (arith, full_le)) (omega arith) (omega arith) at (gain-AtMost t short)))

    burst-AtMost : (x : Value) → le x (of_u64 q.burst) ≡ true → AtMost x (q.burst * scale) scale
    burst-AtMost x h =
        AtMost-trans x q.burst 1 _ _ (omega arith) (omega arith) (omega arith)
          (rounded.AtMost-le x (of_u64 q.burst) _ _ h (rounded.of_u64-AtMost q.burst burst_le))

    min-AtMost :
        (x : Value) (m n : ℕ) → AtMost x m scale → AtMost x n scale → AtMost x (min m n) scale
    min-AtMost x m n h k = elim (Bool-cases (leb m n)) [
      | inl e ↦ let same : min m n ≡ m = ground arith in rw same h
      | inr e ↦ let same : min m n ≡ n = ground arith in rw same k
    ]

    -- What is left is at most what it was, less the cost of an admitted call.
    charged-AtMost :
        (x : Value) (n cost : ℕ)
        → cost ≤ exact_max
        → n ≤ q.burst * scale
        → AtMost x n scale
        → (m : ℕ) × AtMost (charged f x cost) m scale
          × (m + (if le (of_u64 cost) x then cost else 0) * scale ≤ n + q.burst * q.window)
    unfolding charged
    charged-AtMost x n cost fits h at = elim (Bool-cases (le (of_u64 cost) x)) [
      | inl paid ↦
          let covered = rounded.AtMost-covers cost x n scale fits (omega arith) paid at in
          rw paid (
            n - cost * scale + q.burst * q.window,
            AtMost-trans _ _ _ _ _ (omega arith) (omega arith) (over_scale _ _ scale (omega arith))
                (rounded.sub-AtMost x cost n scale fits (omega arith) (omega (arith, full_le))
                  (omega arith) covered at),
            omega (arith, covered),
          )
      | inr refused ↦ rw refused (n, at, omega arith)
    ]

    -- One call on a bucket in range. Its level is `n` parts of which a token has `scale`; a level
    -- that rounding has lifted above the burst in these parts is cut off there.
    pub consume-AtMost :
        (b : Bucket f) (now : Instant) (cost : ℕ) (b' : Bucket f) (d : Decision) (n : ℕ)
        → cost ≤ exact_max
        → IsValid f q b
        → AtMost b.tokens n scale
        → try_consume f b now q cost ≡ some (b', d)
        → (m : ℕ) × AtMost b'.tokens m scale
          × (m + (if d.allowed then cost else 0) * scale
              ≤ n
                + saturating_duration_since now b.last_update * q.count * (precision + 11)
                + 2 * q.burst * q.window)
    consume-AtMost b now cost b' d n fits valid at e =
        let o = try_consume-Outcome f b now q cost b' d e in
        let cap = q.burst * scale in
        let start = min-AtMost b.tokens n cap at (burst-AtMost b.tokens valid.level-le-burst) in
        let full =
          min-AtMost (refilled f b now q) _ cap
            (refilled-AtMost b now (min n cap) (omega arith) start)
            (burst-AtMost _ (refilled_bounds f ieee b now q valid.level_nonneg).1) in
        let (m, at', le') = charged-AtMost _ _ cost fits (omega arith) full in
        (m, rw o.level at', rw o.admits (omega arith))
