-- ===== src/Tests/Suite/OfPolicies.antt =====
-- The unit tests of src/headers/rate_limit_policy.rs, on a parser of a part of RFC 9651.
use trillium_ratelimit.Common.{
  ◌≡◌, refl, ◌&&◌, Bool, true, false, Option, none, some, length, get_elem?, ◌==◌, ◌>>=◌, Text,
  text_eq, codes,
}
use trillium_ratelimit.Time.{from_secs}
use trillium_ratelimit.Quota.{QuotaUnit, requests, content_bytes, concurrent_requests, other}
use trillium_ratelimit.Headers.Policy.{
  RateLimitPolicy, name, quota, unit, window, partition_key, policy, with_window, parse_list,
  display,
}
use trillium_ratelimit.Tests.Reader.{reader}
use trillium_ratelimit.Tests.Suite.Computing.{reading}
use trillium_ratelimit.Tests.Suite.Base.{Test, passed, assert, is_empty, option_eq, unwrap, only}

abbrev one : Text → Option RateLimitPolicy
one input = do policies ← unwrap (parse_list reader input); only policies

-- `==` of two units
abbrev unit_eq : QuotaUnit → QuotaUnit → Bool
unit_eq requests requests = true
unit_eq content_bytes content_bytes = true
unit_eq concurrent_requests concurrent_requests = true
unit_eq (other a) (other b) = text_eq a b
unit_eq u v = false

abbrev basic : Test
basic = do
  policy ← one (codes "\"default\";q=100;w=10")
  _ ← assert (text_eq (name policy) (codes "default"))
  _ ← assert (quota policy == 100)
  _ ← assert (option_eq ◌==◌ (window policy) (some (from_secs 10)))
  _ ← assert (unit_eq (unit policy) requests)
  assert (option_eq text_eq (partition_key policy) none)

basic_passes : basic ≡ passed
unfolding reading
basic_passes = refl

abbrev multiple_policies : Test
multiple_policies = do
  policies ← unwrap (parse_list reader (codes "\"permin\";q=50;w=60,\"perhr\";q=1000;w=3600"))
  _ ← assert (length policies == 2)
  first ← get_elem? policies 0
  second ← get_elem? policies 1
  _ ← assert (text_eq (name first) (codes "permin"))
  _ ← assert (text_eq (name second) (codes "perhr"))
  assert (quota second == 1000)

multiple_policies_passes : multiple_policies ≡ passed
unfolding reading
multiple_policies_passes = refl

abbrev unit_and_partition_key : Test
unit_and_partition_key = do
  policy ← one (codes "\"peruser\";q=65535;qu=\"content-bytes\";w=10;pk=:sdfjLJUOUH==:")
  _ ← assert (unit_eq (unit policy) content_bytes)
  assert (option_eq text_eq (partition_key policy) (some (codes "sdfjLJUOUH==")))

unit_and_partition_key_passes : unit_and_partition_key ≡ passed
unfolding reading
unit_and_partition_key_passes = refl

abbrev window_is_optional : Test
window_is_optional = do
  policy ← one (codes "\"default\";q=999;pk=:dHJpYWwxMjEzMjM=:")
  _ ← assert (option_eq ◌==◌ (window policy) none)
  assert (option_eq text_eq (partition_key policy) (some (codes "dHJpYWwxMjEzMjM=")))

window_is_optional_passes : window_is_optional ≡ passed
unfolding reading
window_is_optional_passes = refl

abbrev unknown_parameters_are_ignored : Test
unknown_parameters_are_ignored = do
  policy ← one (codes "\"x\";q=5;acme-burst=10")
  assert (quota policy == 5)

unknown_parameters_are_ignored_passes : unknown_parameters_are_ignored ≡ passed
unfolding reading
unknown_parameters_are_ignored_passes = refl

abbrev item_without_quota_is_skipped : Test
item_without_quota_is_skipped = do
  policies ← unwrap (parse_list reader (codes "\"x\";w=5"))
  assert (is_empty policies)

item_without_quota_is_skipped_passes : item_without_quota_is_skipped ≡ passed
unfolding reading
item_without_quota_is_skipped_passes = refl

abbrev escaped_name : Test
escaped_name = do
  policy ← one (codes "\"a\\\"b\";q=1")
  assert (text_eq (name policy) (codes "a\"b"))

escaped_name_passes : escaped_name ≡ passed
unfolding reading
escaped_name_passes = refl

-- `==` of two policies
abbrev policy_eq : RateLimitPolicy → RateLimitPolicy → Bool
policy_eq p q =
    text_eq p.name q.name
    && p.quota == q.quota
    && unit_eq p.unit q.unit
    && option_eq ◌==◌ p.window q.window
    && option_eq text_eq p.partition_key q.partition_key

abbrev round_trips : Text → Test
round_trips input = do
  policy ← one input
  again ← one (display policy)
  assert (policy_eq policy again)

abbrev display_round_trips : Test
display_round_trips = do
  _ ← round_trips (codes "\"default\";q=100;w=10")
  _ ← round_trips (codes "\"peruser\";q=65535;qu=\"content-bytes\";w=10;pk=:sdfjLJUOUH==:")
  round_trips (codes "\"default\";q=999;pk=:dHJpYWwxMjEzMjM=:")

display_round_trips_passes : display_round_trips ≡ passed
unfolding reading
display_round_trips_passes = refl

abbrev builder_formats : Test
builder_formats = assert (
    text_eq (display (with_window (policy (codes "default") 100) (from_secs 60)))
      (codes "\"default\";q=100;w=60"))

builder_formats_passes : builder_formats ≡ passed
unfolding reading
builder_formats_passes = refl
