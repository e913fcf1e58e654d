-- ===== src/Bucket/Bounds.antt =====
-- src/bucket.rs: `try_consume` on every branch, and the bounds on the level.
use trillium_ratelimit.Common.{
  ℕ, ◌≤◌, ◌≡◌, inl, inr, true, Bool-cases, Option-cases, List, ◌∷◌, none, some, if◌then◌else◌,
  arith, u64_max, subst,
}
use mathlib.Core.Option
use trillium_ratelimit.Time.{Instant}
use trillium_ratelimit.Quota.{Quota}
use trillium_ratelimit.Float.{F64, IsIeee, IsNonneg, IsNonnegOrNan, exact_max}
use trillium_ratelimit.Bucket.{
  Bucket, Decision, fresh, refill_per_second, seconds_to_refill, refilled, charged, try_consume,
  run,
}

module _ (f : F64) where
  open f use {Value, of_u64, nought, add, sub, mul, le, floor_u64, as_secs_f64}

  -- The level lies between zero and the burst.
  pub record IsValid (quota : Quota) (bucket : Bucket f) : Type 0 where
    pub level_nonneg : IsNonneg f bucket.tokens
    pub level-le-burst : le bucket.tokens (of_u64 quota.burst) ≡ true

  -- What a call that returns did, field by field.
  pub record Outcome (b : Bucket f) (now : Instant) (q : Quota) (cost : ℕ) (b' : Bucket f)
      (d : Decision) : Type 0 where
    pub stamped : b'.last_update ≡ now
    pub level : b'.tokens ≡ charged f (refilled f b now q) cost
    pub admits : d.allowed ≡ le (of_u64 cost) (refilled f b now q)
    pub reports : d.remaining ≡ floor_u64 b'.tokens
    pub fills :
        seconds_to_refill f (sub (of_u64 q.burst) b'.tokens) (refill_per_second f q)
        ≡ some d.time_to_full
    -- no wait for an admitted call, and the wait for what it lacks otherwise
    pub asks :
        (if d.allowed
          then some none
          else Option.map some
              (seconds_to_refill f (sub (of_u64 cost) b'.tokens) (refill_per_second f q)))
        ≡ some d.retry_after

  pub try_consume-Outcome :
      (b : Bucket f) (now : Instant) (q : Quota) (cost : ℕ) (b' : Bucket f) (d : Decision)
      → try_consume f b now q cost ≡ some (b', d)
      → Outcome b now q cost b' d
  unfolding try_consume charged
  try_consume-Outcome b now q cost b' d h = ground arith

  -- A sequence of attempts that returns is its first attempt and the rest.
  pub run-cons :
      (b : Bucket f) (q : Quota) (now : Instant) (cost : ℕ) (calls : List (Instant × ℕ))
      (b' : Bucket f) (ds : List Decision)
      → run f b q ((now, cost) ∷ calls) ≡ some (b', ds)
      → (next : Bucket f) × (d : Decision) × (rest : List Decision) × (try_consume f b now q cost
          ≡ some (next, d))
        × (run f next q calls ≡ some (b', rest))
        × (ds ≡ d ∷ rest)
  unfolding run
  run-cons b q now cost calls b' ds h = elim (Option-cases (try_consume f b now q cost)) [
    | inl e ↦ cc (rw e at h)
    | inr ((next, d), e) ↦ elim (Option-cases (run f next q calls)) [
      | inl e' ↦ cc (rw (e, e') at h)
      | inr ((last, rest), e') ↦
          let same = rw (e, e') at h in (next, d, rest, e, cc (same, e'), cc same)
    ]
  ]

  module _ (ieee : IsIeee f) where
    open ieee use {le_trans, le_total, of_u64_mono, of_u64_zero, min-le_right, min_nan, le-min}
    open ieee use {
      add_nonneg, mul_nonneg, div_nonneg, as_secs_nonneg, sub_bounds, floor_mono, floor-of_u64,
    }

    pub of_u64-IsNonneg : (n : ℕ) → IsNonneg f (of_u64 n)
    of_u64-IsNonneg n =
        subst (λ z. le z (of_u64 n) ≡ true) of_u64_zero (of_u64_mono 0 n (omega arith))

    min-IsNonneg : (x : Value) (n : ℕ) → IsNonnegOrNan f x → IsNonneg f (f.min x (of_u64 n))
    min-IsNonneg x n (inl h) = le-min x (of_u64 n) nought h (of_u64-IsNonneg n)
    min-IsNonneg x n (inr h) = rw (min_nan x (of_u64 n) h) (of_u64-IsNonneg n)

    -- Whatever the time that passed, and also where the rate is infinite or NaN.
    pub refilled_bounds :
        (b : Bucket f) (now : Instant) (q : Quota)
        → IsNonneg f b.tokens
        → IsNonneg f (refilled f b now q) × (le (refilled f b now q) (of_u64 q.burst) ≡ true)
    unfolding refilled refill_per_second
    refilled_bounds b now q h = (
      min-IsNonneg _ q.burst
          (add_nonneg _ _ h (mul_nonneg _ _ (as_secs_nonneg _) (div_nonneg q.count q.window))),
      min-le_right _ q.burst,
    )

    pub charged_bounds :
        (x : Value) (q : Quota) (cost : ℕ)
        → q.burst ≤ u64_max
        → IsNonneg f x
        → le x (of_u64 q.burst) ≡ true
        → IsNonneg f (charged f x cost) × (le (charged f x cost) (of_u64 q.burst) ≡ true)
    unfolding charged
    charged_bounds x q cost r h k = elim (Bool-cases (le (of_u64 cost) x)) [
      | inl paid ↦
          let (low, high) = sub_bounds x (of_u64 cost) q.burst r k (of_u64-IsNonneg cost) paid in
          rw paid (low, le_trans _ _ _ high k)
      | inr refused ↦ rw refused (h, k)
    ]

    pub fresh-IsValid : (now : Instant) (q : Quota) → IsValid q (fresh f now q)
    unfolding fresh
    fresh-IsValid now q = record {
      level_nonneg = of_u64-IsNonneg q.burst;
      level-le-burst = of_u64_mono q.burst q.burst (omega arith);
    }

    next_bounds :
        (b : Bucket f) (now : Instant) (q : Quota) (cost : ℕ) (b' : Bucket f) (d : Decision)
        → q.burst ≤ u64_max
        → IsNonneg f b.tokens
        → try_consume f b now q cost ≡ some (b', d)
        → IsValid q b'
    next_bounds b now q cost b' d r v h =
        let o = try_consume-Outcome b now q cost b' d h in
        let (low, high) = refilled_bounds b now q v in
        let (low', high') = charged_bounds (refilled f b now q) q cost r low high in
        record { level_nonneg = rw o.level low'; level-le-burst = rw o.level high' }

    pub try_consume-IsNonneg :
        (b : Bucket f) (now : Instant) (q : Quota) (cost : ℕ) (b' : Bucket f) (d : Decision)
        → q.burst ≤ u64_max
        → IsNonneg f b.tokens
        → try_consume f b now q cost ≡ some (b', d)
        → IsNonneg f b'.tokens
    try_consume-IsNonneg b now q cost b' d r v h =
        (next_bounds b now q cost b' d r v h).level_nonneg

    -- Every call that returns leaves the level between zero and the burst, under the rounding of
    -- binary64, at any time, cost, rate and window. The burst is a `u64`. The level was in range
    -- before.
    pub try_consume-IsValid :
        (b : Bucket f) (now : Instant) (q : Quota) (cost : ℕ) (b' : Bucket f) (d : Decision)
        → q.burst ≤ u64_max
        → IsValid q b
        → try_consume f b now q cost ≡ some (b', d)
        → IsValid q b'
    try_consume-IsValid b now q cost b' d r v h = next_bounds b now q cost b' d r v.level_nonneg h

    -- The whole tokens that a call reports never exceed the burst. The call returns, the level was
    -- in range, and the burst is a whole number that binary64 represents.
    pub remaining-le-burst :
        (b : Bucket f) (now : Instant) (q : Quota) (cost : ℕ) (b' : Bucket f) (d : Decision)
        → q.burst ≤ exact_max
        → IsValid q b
        → try_consume f b now q cost ≡ some (b', d)
        → d.remaining ≤ q.burst
    remaining-le-burst b now q cost b' d r v h =
        let o = try_consume-Outcome b now q cost b' d h in
        let v' = try_consume-IsValid b now q cost b' d (omega arith) v h in
        omega (
          arith,
          o.reports,
          floor_mono b'.tokens (of_u64 q.burst) v'.level-le-burst,
          floor-of_u64 q.burst r,
        )
