-- ===== src/Tests/Suite/Computing.antt =====
-- The definitions that the unit tests compute with.
use trillium_ratelimit.Quota.{as_str, from_cow}
use trillium_ratelimit.Quota
use trillium_ratelimit.Time.{saturating_duration_since}
use trillium_ratelimit.Float.Binary.{
  of_u64, le, add, sub, mul, div, min, floor_u64, as_secs_f64, from_secs_f64, make, round, exponent,
  half_even,
}
use trillium_ratelimit.Float.Exact
use trillium_ratelimit.Bucket.{
  fresh, try_consume, refilled, charged, seconds_to_refill, refill_per_second,
}
use trillium_ratelimit.Store
use trillium_ratelimit.Limiter
use trillium_ratelimit.Limiter.Network.{network_key, to_ipv4_mapped}
use trillium_ratelimit.Limiter.Seconds.{secs_ceil}
use trillium_ratelimit.Limiter.Handler
use trillium_ratelimit.Client.Throttle
use trillium_ratelimit.Client.Handler as Hooks
use trillium_ratelimit.Client.Signals.{
  parse_u64, parse_digits, server_backoff, longest_reset, retry_after, trim, trim_start,
  is_whitespace,
}
use trillium_ratelimit.Headers.Sf.{
  slice, string_value, unescape, write_sf_string, escaped, skip_item, drain_params,
  drain_inner_list,
}
use trillium_ratelimit.Headers.Items.{params, item, items}
use trillium_ratelimit.Headers.Decimal.{decimal, digits}
use trillium_ratelimit.Headers.Limit
use trillium_ratelimit.Headers.Policy
use trillium_ratelimit.Headers.Fields.{limits_from_headers, policies_from_headers, parse_lines}
use trillium_ratelimit.Headers.Grammar.{number}
use trillium_ratelimit.Tests.Reader.{read_item, read_params, value_at, split_at, string_end, blanks}

unfoldable pub reading : Unit {0}
unfolding as_str from_cow slice string_value unescape write_sf_string escaped skip_item drain_params
    drain_inner_list params item items decimal digits Limit.limit Limit.with_reset Limit.keep_param
    Limit.finish Limit.parse_list Limit.reset_text Limit.key_text Limit.display Policy.policy
    Policy.with_window Policy.keep_param Policy.finish Policy.parse_list Policy.unit_text
    Policy.window_text Policy.key_text Policy.display limits_from_headers policies_from_headers
    parse_lines read_item read_params value_at split_at number string_end blanks
reading = tt

unfoldable pub consuming : Unit {0}
unfolding fresh try_consume refilled charged seconds_to_refill refill_per_second of_u64 le add sub
    mul div min floor_u64 as_secs_f64 from_secs_f64 make round exponent half_even
    saturating_duration_since Quota.per Quota.per_second Quota.per_minute Quota.per_hour
    Quota.allow_burst Store.new Store.consume Store.bucket_or_fresh Exact.of_u64 Exact.le Exact.add
    Exact.sub Exact.mul Exact.div Exact.min Exact.floor_u64 Exact.as_secs_f64 Exact.from_secs_f64
    Exact.nearest
consuming = tt

unfoldable pub serving : Unit {0}
unfolding consuming reading network_key to_ipv4_mapped secs_ceil Handler.run Handler.course
    Handler.wire_key Handler.respond Handler.annotated Handler.refused Handler.policy_item
    Handler.limit_item Limiter.new Limiter.from_state Limiter.by_network Limiter.with_policy_name
    Limiter.with_missing_key Limiter.with_status Limiter.with_jitter Limiter.with_partition_key
    Limiter.random_jitter parse_u64 parse_digits
serving = tt

unfoldable pub pacing : Unit {0}
unfolding consuming reading Throttle.tolerance_of Throttle.new Throttle.with_scope
    Throttle.proceed_at Throttle.next_tat Throttle.claim Throttle.back_off Hooks.origin_scope
    Hooks.run Hooks.after_response server_backoff longest_reset retry_after trim trim_start
    is_whitespace parse_u64 parse_digits
pacing = tt
