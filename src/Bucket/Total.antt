-- ===== src/Bucket/Total.antt =====
-- src/bucket.rs: when `try_consume` returns, `Duration::from_secs_f64` being the one call that can
-- panic.
use trillium_ratelimit.Common.{
  ℕ, ◌≤◌, ◌≡◌, ◌⊎◌, inl, inr, true, false, Bool-cases, none, some, List, [], ◌∷◌, All, arith,
  u64_max, refl,
}
use trillium_ratelimit.Time.{Instant, Duration}
use trillium_ratelimit.Quota.{Quota}
use trillium_ratelimit.Float.{F64, IsIeee, IsNonneg, IsNonnegOrNan}
use trillium_ratelimit.Bucket.{
  Bucket, Decision, refill_per_second, seconds_to_refill, refilled, charged, try_consume, run,
}
use trillium_ratelimit.Bucket.Bounds.{of_u64-IsNonneg, refilled_bounds, try_consume-IsNonneg}

module _ (f : F64) (ieee : IsIeee f) where
  open f use {Value, of_u64, nought, sub, div, le, floor_u64, from_secs_f64}
  open ieee use {le_trans, div_mono, div_nonneg, from_secs_nan, from_secs_mono, sub_bounds}
  open ieee use {le_total, le_refl_of, of_u64_mono}

  -- A refill of fewer tokens takes no longer, and is representable if that of more tokens is.
  pub seconds_to_refill_mono :
      (x : Value) (m : ℕ) (r : Value) (d : Duration)
      → m ≤ u64_max
      → IsNonneg f x
      → le x (of_u64 m) ≡ true
      → IsNonnegOrNan f r
      → seconds_to_refill f (of_u64 m) r ≡ some d
      → (e : Duration) × (seconds_to_refill f x r ≡ some e) × (e ≤ d)
  unfolding seconds_to_refill
  seconds_to_refill_mono x m r d fits nonneg below rate full = elim (Bool-cases (le x nought)) [
    | inl empty ↦ rw empty (0, refl, omega arith)
    | inr needs ↦ elim (Bool-cases (le r nought)) [
      | inl idle ↦ rw (needs, idle) (0, refl, omega arith)
      | inr flows ↦ rw (needs, flows) (slower rate flows (some_needed needs))
    ]
  ]
    where
      some_needed : le x nought ≡ false → le (of_u64 m) nought ≡ false
      some_needed needs = elim (Bool-cases (le (of_u64 m) nought)) [
        | inl zero ↦ cc (le_trans x (of_u64 m) nought below zero)
        | inr e ↦ e
      ]

      slower :
          IsNonnegOrNan f r
          → le r nought ≡ false
          → le (of_u64 m) nought ≡ false
          → (e : Duration) × (from_secs_f64 (div x r) ≡ some e) × (e ≤ d)
      slower (inl positive) flows needs =
          let (low, high) = div_mono x m r fits nonneg below positive flows in
          from_secs_mono _ _ d low high (ground arith)
      slower (inr undefined) flows needs = ground (arith, from_secs_nan (of_u64 m) r undefined)

  module _ (q : Quota) (m : ℕ) (d : Duration) (fits : m ≤ u64_max)
      (full : seconds_to_refill f (of_u64 m) (refill_per_second f q) ≡ some d) where
    -- The refill of what `x` lacks to `n` tokens.
    gap :
        (x : Value) (n : ℕ)
        → n ≤ m
        → IsNonneg f x
        → le x (of_u64 n) ≡ true
        → (e : Duration) × (seconds_to_refill f (sub (of_u64 n) x) (refill_per_second f q) ≡ some e)
          × (e ≤ d)
    unfolding refill_per_second
    gap x n h low high =
        let (nonneg, below) =
          sub_bounds (of_u64 n) x n (omega arith) (of_u64_mono n n (omega arith)) low high in
        seconds_to_refill_mono _ m _ d fits nonneg (le_trans _ _ _ below (of_u64_mono n m h))
          (div_nonneg q.count q.window) full

    refused-le :
        (x : Value) (cost : ℕ)
        → IsNonneg f x
        → le x (of_u64 q.burst) ≡ true
        → le (of_u64 cost) x ≡ false
        → le x (of_u64 cost) ≡ true
    refused-le x cost low high refused =
        le_total (of_u64 cost) x (of_u64_mono cost cost (omega arith)) (le_refl_of x _ high) refused

    -- `try_consume` returns, with a next level and a decision, for every bucket whose level is not
    -- negative, provided that the time in which `m` tokens accrue is representable, `m` being at
    -- least the burst and the cost. Neither the time to full nor the wait that it reports is longer
    -- than that time. `m` is a `u64`, and `f64` any arithmetic that meets the facts of IEEE 754.
    pub try_consume_total :
        (b : Bucket f) (now : Instant) (cost : ℕ)
        → q.burst ≤ m
        → cost ≤ m
        → IsNonneg f b.tokens
        → (b' : Bucket f) × (r : Decision) × (try_consume f b now q cost ≡ some (b', r))
          × (r.time_to_full ≤ d)
          × ((r.retry_after ≡ none) ⊎ ((e : Duration) × (r.retry_after ≡ some e) × (e ≤ d)))
    unfolding try_consume charged
    try_consume_total b now cost burst-le cost-le nonneg =
        elim (Bool-cases (le (of_u64 cost) level)) [
          | inl paid ↦
              let (low, high) =
                sub_bounds level _ q.burst (omega arith) range.1 (of_u64-IsNonneg f ieee cost)
                  paid in
              let (t, e, h) = gap left q.burst burst-le low (le_trans _ _ _ high range.1) in
              (
                record { tokens = left; last_update = now },
                record {
                  allowed = true;
                  remaining = floor_u64 left;
                  time_to_full = t;
                  retry_after = none;
                },
                rw (paid, e) refl,
                h,
                inl refl,
              )
          | inr refused ↦
              let (t, e, h) = gap level q.burst burst-le range.0 range.1 in
              let (w, e', h') =
                gap level cost cost-le range.0 (refused-le level cost range.0 range.1 refused) in
              (
                record { tokens = level; last_update = now },
                record {
                  allowed = false;
                  remaining = floor_u64 level;
                  time_to_full = t;
                  retry_after = some w;
                },
                rw (refused, e', e) refl,
                h,
                inr (w, refl, h'),
              )
        ]
      where
        level : Value
        level = refilled f b now q

        range : IsNonneg f level × (le level (of_u64 q.burst) ≡ true)
        range = refilled_bounds f ieee b now q nonneg

        left : Value
        left = sub level (of_u64 cost)

    -- So a sequence of attempts returns, however it goes.
    pub run_total :
        (b : Bucket f) (calls : List (Instant × ℕ))
        → q.burst ≤ m
        → All (λ call. call.1 ≤ m) calls
        → IsNonneg f b.tokens
        → (b' : Bucket f) × (rs : List Decision) × (run f b q calls ≡ some (b', rs))
    unfolding run
    run_total b [] burst-le costs nonneg = (b, [], refl)
    run_total b ((now, cost) ∷ calls) burst-le (c, costs) nonneg =
        let (b', r, e, _, _) = try_consume_total b now cost burst-le c nonneg in
        let level = try_consume-IsNonneg f ieee b now q cost b' r (omega arith) nonneg e in
        let (b'', rs, e') = run_total b' calls burst-le costs level in (b'', r ∷ rs, rw (e, e'))
