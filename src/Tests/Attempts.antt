-- ===== src/Tests/Attempts.antt =====
-- Attempts on buckets of src/bucket.rs, one at a time.
use trillium_ratelimit.Common.{◌≡◌, refl, true, false, none, some, arith}
use trillium_ratelimit.Time.{Instant, saturating_duration_since}
use trillium_ratelimit.Quota.{Quota, IsInRange}
use trillium_ratelimit.Float.Exact.{
  exact, frac, of_u64, le, add, sub, mul, div, min, floor_u64, as_secs_f64, from_secs_f64, nearest,
}
use trillium_ratelimit.Bucket.{
  Bucket, Decision, try_consume, refilled, charged, seconds_to_refill, refill_per_second,
}
use trillium_ratelimit.Bucket.Bounds.{IsValid}

-- Two requests a second, both at once if need be.
abbrev pub two_per_second : Quota
two_per_second = record { count = 2; window = 1_000_000_000; burst = 2 }

pub two_per_second-IsInRange : IsInRange two_per_second
two_per_second-IsInRange = record {
  count_le = omega arith;
  window_le = omega arith;
  burst_le = omega arith;
}

abbrev pub full_at : Instant → Bucket exact
full_at now = record { tokens = frac 2 0; last_update = now }

abbrev pub empty_at : Instant → Bucket exact
empty_at now = record { tokens = frac 0 0; last_update = now }

abbrev pub one_at : Instant → Bucket exact
one_at now = record { tokens = frac 1 0; last_update = now }

abbrev pub one_left : Decision
one_left = record { allowed = true; remaining = 1; time_to_full = 500_000_000; retry_after = none }

abbrev pub too_many : Decision
too_many = record {
  allowed = false;
  remaining = 0;
  time_to_full = 1_000_000_000;
  retry_after = some 500_000_000;
}

pub accrues :
    seconds_to_refill exact (exact.of_u64 2) (refill_per_second exact two_per_second)
    ≡ some 1_000_000_000
unfolding seconds_to_refill refill_per_second of_u64 le div as_secs_f64 from_secs_f64 nearest
accrues = refl

pub admits_one : try_consume exact (full_at 7) 7 two_per_second 1 ≡ some (one_at 7, one_left)
unfolding try_consume refilled charged seconds_to_refill refill_per_second of_u64 le add sub mul div
    min floor_u64 as_secs_f64 from_secs_f64 nearest saturating_duration_since
admits_one = refl

pub refuses_one : try_consume exact (empty_at 7) 7 two_per_second 1 ≡ some (empty_at 7, too_many)
unfolding try_consume refilled charged seconds_to_refill refill_per_second of_u64 le add sub mul div
    min floor_u64 as_secs_f64 from_secs_f64 nearest saturating_duration_since
refuses_one = refl

pub full_at-IsValid : IsValid exact two_per_second (full_at 7)
unfolding of_u64 le
full_at-IsValid = record { level_nonneg = refl; level-le-burst = refl }

-- One nanosecond after the wait.
abbrev pub barely_one_at : Instant → Bucket exact
barely_one_at now = record {
  tokens = frac 2_000_000_000 999_999_999_999_999_999;
  last_update = now;
}

abbrev pub barely : Decision
barely = record { allowed = true; remaining = 0; time_to_full = 999_999_999; retry_after = none }

pub admits_later :
    try_consume exact (empty_at 7) 500_000_008 two_per_second 1
    ≡ some (barely_one_at 500_000_008, barely)
unfolding try_consume refilled charged seconds_to_refill refill_per_second of_u64 le add sub mul div
    min floor_u64 as_secs_f64 from_secs_f64 nearest saturating_duration_since
admits_later = refl

-- One request a second, two at once after a pause.
abbrev pub one_per_second : Quota
one_per_second = record { count = 1; window = 1_000_000_000; burst = 2 }

-- One token, as the code's arithmetic leaves it.
abbrev pub refilled_one_at : Instant → Bucket exact
refilled_one_at now = record {
  tokens = frac 1_000_000_000_000_000_000 999_999_999_999_999_999;
  last_update = now;
}

abbrev pub short_of_burst : Decision
short_of_burst = record {
  allowed = false;
  remaining = 1;
  time_to_full = 1_000_000_000;
  retry_after = some 1_000_000_000;
}

abbrev pub whole_burst : Decision
whole_burst = record {
  allowed = true;
  remaining = 0;
  time_to_full = 2_000_000_000;
  retry_after = none;
}

pub admits_refilled :
    try_consume exact (empty_at 7) 1_000_000_007 two_per_second 1
    ≡ some (refilled_one_at 1_000_000_007, one_left)
unfolding try_consume refilled charged seconds_to_refill refill_per_second of_u64 le add sub mul div
    min floor_u64 as_secs_f64 from_secs_f64 nearest saturating_duration_since
admits_refilled = refl

pub admits_fresh :
    try_consume exact (full_at 1_000_000_007) 1_000_000_007 two_per_second 1
    ≡ some (one_at 1_000_000_007, one_left)
unfolding try_consume refilled charged seconds_to_refill refill_per_second of_u64 le add sub mul div
    min floor_u64 as_secs_f64 from_secs_f64 nearest saturating_duration_since
admits_fresh = refl

pub refuses_burst :
    try_consume exact (empty_at 7) 1_000_000_007 one_per_second 2
    ≡ some (refilled_one_at 1_000_000_007, short_of_burst)
unfolding try_consume refilled charged seconds_to_refill refill_per_second of_u64 le add sub mul div
    min floor_u64 as_secs_f64 from_secs_f64 nearest saturating_duration_since
refuses_burst = refl

pub admits_burst :
    try_consume exact (full_at 1_000_000_007) 1_000_000_007 one_per_second 2
    ≡ some (empty_at 1_000_000_007, whole_burst)
unfolding try_consume refilled charged seconds_to_refill refill_per_second of_u64 le add sub mul div
    min floor_u64 as_secs_f64 from_secs_f64 nearest saturating_duration_since
admits_burst = refl

pub admits_after_a_second :
    try_consume exact (empty_at 7) 1_000_000_008 two_per_second 1
    ≡ some (one_at 1_000_000_008, one_left)
unfolding try_consume refilled charged seconds_to_refill refill_per_second of_u64 le add sub mul div
    min floor_u64 as_secs_f64 from_secs_f64 nearest saturating_duration_since
admits_after_a_second = refl
