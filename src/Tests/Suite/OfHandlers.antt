-- ===== src/Tests/Suite/OfHandlers.antt =====
-- The unit tests of src/limiter.rs that send requests, over binary64, on a cache that drops
-- nothing. The first request comes at the time `t`, each later one a millisecond after the one before.
use trillium_ratelimit.Common.{
  ℕ, ◌+◌, ◌==◌, ◌>>=◌, ◌≡◌, refl, Option, none, some, [], ◌∷◌, Text, text_eq, codes,
}
use trillium_ratelimit.Time.{Instant}
use trillium_ratelimit.Quota.{Quota, per_minute}
use trillium_ratelimit.Float.Binary.{binary64}
use trillium_ratelimit.Limiter.{
  RateLimiter, reject, shared, new, from_state, with_missing_key, with_status,
}
use trillium_ratelimit.Tests.Samples.{Exchange, exchange_api, first_request}
use trillium_ratelimit.Tests.Suite.Base.{Test, passed, assert, repeat, from_millis}
use trillium_ratelimit.Tests.Suite.Computing.{serving}
use trillium_ratelimit.Tests.Suite.Server.{
  partitions, get, header, contains, assert_status, assert_header, assert_no_header, assert_body,
}

abbrev keyed : Exchange → Option Text
keyed conn = some (codes "shared-test-key")

abbrev keyless : Exchange → Option Text
keyless conn = none

abbrev limiter :
    ℕ → (Exchange → Option Text) → RateLimiter binary64 (partitions text_eq) exchange_api
limiter n extractor = new binary64 (partitions text_eq) exchange_api (per_minute n) extractor

abbrev allows_and_advertises_within_quota : Instant → Test
allows_and_advertises_within_quota t = do
  let app = limiter 5 keyed ∷ []
  (app, conn) ← get text_eq app first_request t
  _ ← assert_status conn 200
  _ ← assert_body conn (codes "ok")
  policy ← header conn (codes "RateLimit-Policy")
  _ ← assert (contains (codes "q=5") policy)
  limit ← header conn (codes "RateLimit")
  assert (contains (codes "r=") limit)

allows_and_advertises_within_quota_passes : allows_and_advertises_within_quota 7 ≡ passed
unfolding serving
allows_and_advertises_within_quota_passes = refl

abbrev denies_over_quota_with_retry_after : Instant → Test
denies_over_quota_with_retry_after t = do
  let app = limiter 1 keyed ∷ []
  (app, conn) ← get text_eq app first_request t
  _ ← assert_status conn 200
  (app, conn) ← get text_eq app first_request (t + from_millis 1)
  _ ← assert_status conn 429
  assert_header conn (codes "Retry-After") (codes "60")

denies_over_quota_with_retry_after_passes : denies_over_quota_with_retry_after 7 ≡ passed
unfolding serving
denies_over_quota_with_retry_after_passes = refl

abbrev skip_passes_keyless_through_unmetered : Instant → Test
skip_passes_keyless_through_unmetered t = do
  let app = limiter 1 keyless ∷ []
  _ ←
      repeat 3
        (λ (app, now). do
          (app, conn) ← get text_eq app first_request now
          _ ← assert_status conn 200
          _ ← assert_no_header conn (codes "RateLimit")
          some (app, now + from_millis 1))
        (app, t)
  passed

skip_passes_keyless_through_unmetered_passes : skip_passes_keyless_through_unmetered 7 ≡ passed
unfolding serving
skip_passes_keyless_through_unmetered_passes = refl

abbrev reject_blocks_keyless : Instant → Test
reject_blocks_keyless t = do
  let app =
      with_missing_key binary64 (partitions text_eq) exchange_api (limiter 1 keyless) reject ∷ []
  (app, conn) ← get text_eq app first_request t
  assert_status conn 429

reject_blocks_keyless_passes : reject_blocks_keyless 7 ≡ passed
unfolding serving
reject_blocks_keyless_passes = refl

abbrev shared_meters_keyless_together : Instant → Test
shared_meters_keyless_together t = do
  let app =
      with_missing_key binary64 (partitions text_eq) exchange_api (limiter 1 keyless) shared ∷ []
  (app, conn) ← get text_eq app first_request t
  _ ← assert_status conn 200
  (app, conn) ← get text_eq app first_request (t + from_millis 1)
  assert_status conn 429

shared_meters_keyless_together_passes : shared_meters_keyless_together 7 ≡ passed
unfolding serving
shared_meters_keyless_together_passes = refl

abbrev custom_status : Instant → Test
custom_status t = do
  let app = with_status binary64 (partitions text_eq) exchange_api (limiter 1 keyed) 503 ∷ []
  (app, conn) ← get text_eq app first_request t
  _ ← assert_status conn 200
  (app, conn) ← get text_eq app first_request (t + from_millis 1)
  assert_status conn 503

custom_status_passes : custom_status 7 ≡ passed
unfolding serving
custom_status_passes = refl

-- `UserId`
abbrev users : Quota → RateLimiter binary64 (partitions ◌==◌) exchange_api
users quota = from_state binary64 (partitions ◌==◌) exchange_api (λ conn. conn.user) quota

abbrev from_state_keys_on_state_value : Instant → Test
from_state_keys_on_state_value t = do
  -- `State::new(UserId(1))`
  let request = record first_request { user = some 1 }
  let metered = users (per_minute 1) ∷ []
  (metered, conn) ← get ◌==◌ metered request t
  _ ← assert_status conn 200
  (metered, conn) ← get ◌==◌ metered request (t + from_millis 1)
  _ ← assert_status conn 429
  let keyless = users (per_minute 1) ∷ []
  (keyless, conn) ← get ◌==◌ keyless first_request (t + from_millis 2)
  _ ← assert_status conn 200
  (keyless, conn) ← get ◌==◌ keyless first_request (t + from_millis 3)
  assert_status conn 200

from_state_keys_on_state_value_passes : from_state_keys_on_state_value 7 ≡ passed
unfolding serving
from_state_keys_on_state_value_passes = refl
