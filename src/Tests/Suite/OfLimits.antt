-- ===== src/Tests/Suite/OfLimits.antt =====
-- The unit tests of src/headers/rate_limit.rs, on a parser of a part of RFC 9651.
use trillium_ratelimit.Common.{
  ◌≡◌, refl, ◌&&◌, Bool, Option, none, some, length, get_elem?, ◌==◌, ◌>>=◌, Text, text_eq, codes,
}
use trillium_ratelimit.Time.{from_secs}
use trillium_ratelimit.Headers.Limit.{
  RateLimit, name, remaining, reset, partition_key, limit, with_reset, parse_list, display,
}
use trillium_ratelimit.Tests.Reader.{reader}
use trillium_ratelimit.Tests.Suite.Computing.{reading}
use trillium_ratelimit.Tests.Suite.Base.{Test, passed, assert, is_empty, option_eq, unwrap, only}

abbrev one : Text → Option RateLimit
one input = do limits ← unwrap (parse_list reader input); only limits

abbrev basic : Test
basic = do
  limit ← one (codes "\"default\";r=50;t=30")
  _ ← assert (text_eq (name limit) (codes "default"))
  _ ← assert (remaining limit == 50)
  _ ← assert (option_eq ◌==◌ (reset limit) (some (from_secs 30)))
  assert (option_eq text_eq (partition_key limit) none)

basic_passes : basic ≡ passed
unfolding reading
basic_passes = refl

abbrev throttled_zero_remaining : Test
throttled_zero_remaining = do
  limit ← one (codes "\"default\";r=0;t=5")
  _ ← assert (remaining limit == 0)
  assert (option_eq ◌==◌ (reset limit) (some (from_secs 5)))

throttled_zero_remaining_passes : throttled_zero_remaining ≡ passed
unfolding reading
throttled_zero_remaining_passes = refl

abbrev reset_is_optional : Test
reset_is_optional = do
  limit ← one (codes "\"default\";r=999;pk=:dHJpYWwxMjEzMjM=:")
  _ ← assert (option_eq ◌==◌ (reset limit) none)
  assert (option_eq text_eq (partition_key limit) (some (codes "dHJpYWwxMjEzMjM=")))

reset_is_optional_passes : reset_is_optional ≡ passed
unfolding reading
reset_is_optional_passes = refl

abbrev multiple_limits : Test
multiple_limits = do
  limits ← unwrap (parse_list reader (codes "\"a\";r=1;t=2,\"b\";r=3"))
  _ ← assert (length limits == 2)
  second ← get_elem? limits 1
  _ ← assert (text_eq (name second) (codes "b"))
  _ ← assert (remaining second == 3)
  assert (option_eq ◌==◌ (reset second) none)

multiple_limits_passes : multiple_limits ≡ passed
unfolding reading
multiple_limits_passes = refl

abbrev item_without_remaining_is_skipped : Test
item_without_remaining_is_skipped = do
  limits ← unwrap (parse_list reader (codes "\"x\";t=5"))
  assert (is_empty limits)

item_without_remaining_is_skipped_passes : item_without_remaining_is_skipped ≡ passed
unfolding reading
item_without_remaining_is_skipped_passes = refl

-- `==` of two limits
abbrev limit_eq : RateLimit → RateLimit → Bool
limit_eq l m =
    text_eq l.name m.name
    && l.remaining == m.remaining
    && option_eq ◌==◌ l.reset m.reset
    && option_eq text_eq l.partition_key m.partition_key

abbrev round_trips : Text → Test
round_trips input = do limit ← one input; again ← one (display limit); assert (limit_eq limit again)

abbrev display_round_trips : Test
display_round_trips = do
  _ ← round_trips (codes "\"default\";r=50;t=30")
  _ ← round_trips (codes "\"default\";r=0;t=5")
  round_trips (codes "\"default\";r=999;pk=:dHJpYWwxMjEzMjM=:")

display_round_trips_passes : display_round_trips ≡ passed
unfolding reading
display_round_trips_passes = refl

abbrev builder_formats : Test
builder_formats = assert (
    text_eq (display (with_reset (limit (codes "default") 50) (from_secs 30)))
      (codes "\"default\";r=50;t=30"))

builder_formats_passes : builder_formats ≡ passed
unfolding reading
builder_formats_passes = refl
