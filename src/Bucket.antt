-- ===== src/Bucket.antt =====
-- src/bucket.rs: the token bucket, over any `f64`. A panic of `Duration::from_secs_f64` is `none`.
pub mod Bounds
pub mod Total
pub mod Drain
pub mod Scaled
pub mod Rate
pub mod Rewind
pub mod Retry
pub mod Drift
pub mod RoundedRate
use trillium_ratelimit.Common.{
  ℕ, Bool, true, Option, none, some, List, [], ◌∷◌, if◌then◌else◌, ◌||◌, ◌>>=◌,
}
use trillium_ratelimit.Time.{Duration, Instant, saturating_duration_since}
use trillium_ratelimit.Quota.{Quota}
use trillium_ratelimit.Float.{F64}

pub record Decision : Type 0 where
  pub allowed : Bool
  pub remaining : ℕ
  pub time_to_full : Duration
  pub retry_after : Option Duration

module _ (f : F64) where
  open f use {
    Value, of_u64, nought, add, sub, mul, div, min, le, floor_u64, as_secs_f64, from_secs_f64,
  }

  pub record Bucket : Type 0 where
    pub tokens : Value
    pub last_update : Instant

  -- `Bucket::new`
  unfoldable pub fresh : Instant → Quota → Bucket
  fresh now quota = record { tokens = of_u64 quota.burst; last_update = now }

  unfoldable pub refill_per_second : Quota → Value
  refill_per_second quota = div (of_u64 quota.count) (as_secs_f64 quota.window)

  unfoldable pub seconds_to_refill : Value → Value → Option Duration
  seconds_to_refill tokens_needed rate =
      if le tokens_needed nought || le rate nought
      then some 0
      else from_secs_f64 (div tokens_needed rate)

  -- The level after the refill for the time that has passed.
  unfoldable pub refilled : Bucket → Instant → Quota → Value
  unfolding refill_per_second
  refilled bucket now quota =
      let elapsed = as_secs_f64 (saturating_duration_since now bucket.last_update) in
      min (add bucket.tokens (mul elapsed (refill_per_second quota))) (of_u64 quota.burst)

  -- The level after the attempt to take `cost`.
  unfoldable pub charged : Value → ℕ → Value
  charged tokens cost = if le (of_u64 cost) tokens then sub tokens (of_u64 cost) else tokens

  unfoldable pub try_consume : Bucket → Instant → Quota → ℕ → Option (Bucket × Decision)
  try_consume bucket now quota cost = do
    let rate = refill_per_second quota
    let tokens = refilled bucket now quota
    let allowed = le (of_u64 cost) tokens
    let left = charged tokens cost
    retry_after ←
        if allowed
        then some none
        else (do wait ← seconds_to_refill (sub (of_u64 cost) left) rate; some (some wait))
    time_to_full ← seconds_to_refill (sub (of_u64 quota.burst) left) rate
    some (
      record { tokens = left; last_update = now },
      record {
        allowed = allowed;
        remaining = floor_u64 left;
        time_to_full = time_to_full;
        retry_after = retry_after;
      },
    )

  -- One attempt after another on a bucket, each at its own time.
  unfoldable pub run : Bucket → Quota → List (Instant × ℕ) → Option (Bucket × List Decision)
  run bucket quota [] = some (bucket, [])
  run bucket quota ((now, cost) ∷ rest) = do
    (next, decision) ← try_consume bucket now quota cost
    (last, decisions) ← run next quota rest
    some (last, decision ∷ decisions)
