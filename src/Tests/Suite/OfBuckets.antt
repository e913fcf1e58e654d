-- ===== src/Tests/Suite/OfBuckets.antt =====
-- The unit tests of src/bucket.rs, over binary64.
use trillium_ratelimit.Common.{◌+◌, ◌≡◌, refl, ◌&&◌, not, Option, some, ◌==◌, ltb, leb, ◌>>=◌}
use trillium_ratelimit.Time.{Instant, from_secs}
use trillium_ratelimit.Quota.{Quota, per_second, allow_burst}
use trillium_ratelimit.Float.Binary.{binary64}
use trillium_ratelimit.Bucket.{Bucket, fresh, try_consume}
use trillium_ratelimit.Tests.Suite.Computing.{consuming}
use trillium_ratelimit.Tests.Suite.Base.{Test, passed, assert, repeat, from_millis}

abbrev quota : Quota
quota = per_second 10

abbrev consume_one : Instant → Bucket binary64 → Option (Bucket binary64)
consume_one now bucket = do (next, decision) ← try_consume binary64 bucket now quota 1; some next

abbrev starts_full_then_denies : Instant → Test
starts_full_then_denies t0 = do
  bucket ←
      repeat 10
        (λ b. do
          (next, decision) ← try_consume binary64 b t0 quota 1
          _ ← assert decision.allowed
          some next)
        (fresh binary64 t0 quota)
  (_, denied) ← try_consume binary64 bucket t0 quota 1
  _ ← assert (not denied.allowed)
  _ ← assert (denied.remaining == 0)
  retry ← denied.retry_after
  assert (ltb 0 retry && leb retry (from_millis 100))

starts_full_then_denies_passes : starts_full_then_denies 7 ≡ passed
unfolding consuming
starts_full_then_denies_passes = refl

abbrev refills_fully_over_one_window : Instant → Test
refills_fully_over_one_window t0 = do
  bucket ← repeat 10 (consume_one t0) (fresh binary64 t0 quota)
  (bucket, refused) ← try_consume binary64 bucket t0 quota 1
  _ ← assert (not refused.allowed)
  (_, later) ← try_consume binary64 bucket (t0 + from_secs 1) quota 1
  _ ← assert later.allowed
  assert (later.remaining == 9)

refills_fully_over_one_window_passes : refills_fully_over_one_window 7 ≡ passed
unfolding consuming
refills_fully_over_one_window_passes = refl

abbrev refills_partially : Instant → Test
refills_partially t0 = do
  bucket ← repeat 10 (consume_one t0) (fresh binary64 t0 quota)
  (_, half) ← try_consume binary64 bucket (t0 + from_millis 500) quota 1
  _ ← assert half.allowed
  assert (half.remaining == 4)

refills_partially_passes : refills_partially 7 ≡ passed
unfolding consuming
refills_partially_passes = refl

abbrev refill_is_capped_at_burst : Instant → Test
refill_is_capped_at_burst t0 = do
  let q = allow_burst (per_second 10) 20
  let bucket = fresh binary64 t0 q
  (_, after_idle) ← try_consume binary64 bucket (t0 + from_secs 100) q 1
  assert (after_idle.remaining == 19)

refill_is_capped_at_burst_passes : refill_is_capped_at_burst 7 ≡ passed
unfolding consuming
refill_is_capped_at_burst_passes = refl

abbrev cost_greater_than_one : Instant → Test
cost_greater_than_one t0 = do
  (bucket, five) ← try_consume binary64 (fresh binary64 t0 quota) t0 quota 5
  _ ← assert five.allowed
  _ ← assert (five.remaining == 5)
  (_, six) ← try_consume binary64 bucket t0 quota 6
  _ ← assert (not six.allowed)
  assert (six.remaining == 5)

cost_greater_than_one_passes : cost_greater_than_one 7 ≡ passed
unfolding consuming
cost_greater_than_one_passes = refl
