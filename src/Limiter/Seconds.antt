-- ===== src/Limiter/Seconds.antt =====
-- src/limiter.rs: `secs_ceil`, the whole seconds that the headers report.
use trillium_ratelimit.Common.{
  ℕ, ◌+◌, ◌≤◌, ◌<◌, ◌≡◌, Option, none, some, ltb, leb, if◌then◌else◌, u64_max, arith,
}
use trillium_ratelimit.Time.{Duration, max_duration, from_secs, as_secs, subsec_nanos}

-- `none` is the panic of an addition of `u64` that overflows.
unfoldable pub secs_ceil : Duration → Option ℕ
secs_ceil duration =
    let secs = as_secs duration + (if ltb 0 (subsec_nanos duration) then 1 else 0) in
    if leb secs u64_max then some secs else none

-- Up to one second below the greatest duration, the whole seconds are at least the duration and
-- less than one second more.
pub secs_ceil-bounds :
    (d : Duration)
    → d + from_secs 1 ≤ max_duration
    → (n : ℕ) × (secs_ceil d ≡ some n) × (d ≤ from_secs n) × (from_secs n < d + from_secs 1)
unfolding secs_ceil
secs_ceil-bounds d h = (
  as_secs d + (if ltb 0 (subsec_nanos d) then 1 else 0),
  ground arith,
  ground arith,
  ground arith,
)
