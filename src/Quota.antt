-- ===== src/Quota.antt =====
-- src/headers/quota.rs: the quota that limiter and throttle share, and the unit of a policy.
pub mod Units
use trillium_ratelimit.Common.{
  ℕ, ◌*◌, ◌≤◌, ◌≡◌, arith, Text, codes, text_eq, text_eq_sound, if◌then◌else◌, u64_max,
}
use trillium_ratelimit.Time.{Duration, from_secs, max_duration}

pub record Quota : Type 0 where
  pub count : ℕ
  pub window : Duration
  pub burst : ℕ

unfoldable pub per : ℕ → Duration → Quota
per count window = record { count = count; window = window; burst = count }

unfoldable pub per_second : ℕ → Quota
unfolding per
per_second count = per count (from_secs 1)

unfoldable pub per_minute : ℕ → Quota
unfolding per
per_minute count = per count (from_secs 60)

unfoldable pub per_hour : ℕ → Quota
unfolding per
per_hour count = per count (from_secs (60 * 60))

unfoldable pub allow_burst : Quota → ℕ → Quota
allow_burst quota burst = record quota { burst = burst }

-- The getters.
abbrev pub count : Quota → ℕ
count q = q.count

abbrev pub window : Quota → Duration
window q = q.window

abbrev pub burst : Quota → ℕ
burst q = q.burst

-- The fields hold what their Rust types can hold.
pub record IsInRange (q : Quota) : Type 0 where
  pub count_le : q.count ≤ u64_max
  pub window_le : q.window ≤ max_duration
  pub burst_le : q.burst ≤ u64_max

pub data QuotaUnit : Type 0 where
  requests : QuotaUnit
  content_bytes : QuotaUnit
  concurrent_requests : QuotaUnit
  other : Text → QuotaUnit

unfoldable pub as_str : QuotaUnit → Text
as_str requests = codes "requests"
as_str content_bytes = codes "content-bytes"
as_str concurrent_requests = codes "concurrent-requests"
as_str (other t) = t

unfoldable pub from_cow : Text → QuotaUnit
from_cow value =
    if text_eq value (codes "requests")
    then requests
    else if text_eq value (codes "content-bytes")
    then content_bytes
    else if text_eq value (codes "concurrent-requests")
    then concurrent_requests
    else other value

unfoldable pub from_token : Text → QuotaUnit
unfolding from_cow
from_token token = from_cow token

-- The text of a unit has no owner in the model.
unfoldable pub into_owned : QuotaUnit → QuotaUnit
into_owned requests = requests
into_owned content_bytes = content_bytes
into_owned concurrent_requests = concurrent_requests
into_owned (other t) = other t

-- No information is lost when a unit is read: its wire token is the text it was read from.
pub as_str-from_token : (t : Text) → as_str (from_token t) ≡ t
unfolding as_str from_token
as_str-from_token t = ground (
  arith,
  text_eq_sound t (codes "requests"),
  text_eq_sound t (codes "content-bytes"),
  text_eq_sound t (codes "concurrent-requests"),
)
