-- ===== src/Tests/OfClient.antt =====
-- Runs of src/client.rs.
use trillium_ratelimit.Common.{
  ◌⊎◌, false, u64_max, ◌<◌, ◌+◌, ◌*◌, ◌-◌, ◌≤◌, ◌≡◌, refl, inl, true, none, some, List, [], ◌∷◌,
  Text, codes, arith, replicate, get_elem?,
}
use trillium_ratelimit.Time.{Instant, Duration, from_secs, saturating_duration_since}
use trillium_ratelimit.Float.Exact.{exact, of_u64, div, as_secs_f64, from_secs_f64, nearest}
use trillium_ratelimit.Client.Interval.{new-interval}
use trillium_ratelimit.Client.Throttle.{
  new, Throttle, tolerance_of, proceed_at, next_tat, claim, back_off, insert,
}
use trillium_ratelimit.Client.Pacing.{claims, claims_pace}
use trillium_ratelimit.Client.Burst.{burst_then_paced}
use trillium_ratelimit.Client.Order.{Ascends, starts_ascend}
use trillium_ratelimit.Client.Scopes.{all_claims, times_of, starts_of, scopes_independent}
use trillium_ratelimit.Client.Backoff.{backed_off_starts, Covers, server_backoff-Covers}
use trillium_ratelimit.Client.Signals.{
  server_backoff, retry_after, longest_reset, trim, trim_start, is_whitespace, parse_u64,
  parse_digits,
}
use trillium_ratelimit.Client.RetryAfter.{retry_after-decimal}
use trillium_ratelimit.Client.Slower.{
  Event, request, push_back, AllAtMost, starts, signals_only_slow,
}
use trillium_ratelimit.Client.Handler.{after_response}
use trillium_ratelimit.Client.Responses.{after_response-cases, huge_retry_after_panics}
use trillium_ratelimit.Headers.Outcome.{ok, panic}
use trillium_ratelimit.Tests.OfHeaders.{cut_off, cut_off_replies, cut_off-IsLocated}
use trillium_ratelimit.Headers.Decimal.{decimal}
use trillium_ratelimit.Headers.Fields.{HeaderMap, limits_from_headers, parse_lines}
use trillium_ratelimit.Tests.Samples.{replying-IsConsuming, replying}
use trillium_ratelimit.Tests.Attempts.{two_per_second}

abbrev pub last_instant : Instant
last_instant = 1_000_000_000_000_000_000

abbrev pub site : Text
site = codes "https://docs.rs"

abbrev pub paced : Throttle Text
paced = record {
  quota = two_per_second;
  interval = 500_000_000;
  tolerance = 500_000_000;
  scope = λ url. url;
  honor_server_signals = true;
  state = λ key. none;
}

abbrev at_seven : List Instant
at_seven = 7 ∷ 7 ∷ 7 ∷ []

seven_starts : (claims last_instant paced site at_seven).1 ≡ 7 ∷ 7 ∷ 500_000_007 ∷ []
unfolding claims claim proceed_at next_tat saturating_duration_since
seven_starts = refl

claims_pace_example : 7 + 2 * paced.interval ≤ 500_000_007 + paced.tolerance
unfolding claims claim proceed_at next_tat saturating_duration_since
claims_pace_example =
    claims_pace last_instant (omega arith) site paced 7 7 at_seven 0 2 7 500_000_007 refl
      (omega arith) (omega arith, (omega arith, (omega arith, tt))) (omega arith) refl refl

burst_then_paced_example :
    get_elem? (claims last_instant paced site (replicate 3 7)).1 2
    ≡ some (7 + (2 + 1 - 2) * 500_000_000)
unfolding tolerance_of
burst_then_paced_example =
    burst_then_paced last_instant (omega arith) site 7 paced 3 2 refl refl (omega arith)
      (omega arith) (omega arith) (omega arith) (omega arith)

starts_ascend_example : Ascends 7 (claims last_instant paced site (7 ∷ 7 ∷ 9 ∷ [])).1
starts_ascend_example =
    starts_ascend last_instant (omega arith) site paced 7 7 9 (7 ∷ 9 ∷ []) refl (omega arith)
      (omega arith) (omega arith, (omega arith, tt)) (omega arith, (omega arith, tt)) (omega arith)

abbrev interleaved : List (Text × Instant)
interleaved = (site, 7) ∷ (codes "https://crates.io", 7) ∷ (site, 8) ∷ (site, 9) ∷ []

scopes_independent_example :
    starts_of site interleaved (all_claims last_instant paced interleaved)
    ≡ (claims last_instant paced site (times_of site interleaved)).1
scopes_independent_example = scopes_independent last_instant paced site interleaved

abbrev backed_off : Throttle Text
backed_off = record paced { state = insert site 30_500_000_007 paced.state }

asked_to_wait : back_off last_instant paced site (from_secs 30) 7 ≡ some backed_off
unfolding back_off
asked_to_wait = refl

backed_off_starts_example : 7 + from_secs 30 + 1 * 500_000_000 ≤ 30_500_000_007
unfolding claims claim proceed_at next_tat saturating_duration_since
backed_off_starts_example =
    backed_off_starts last_instant paced backed_off site (from_secs 30) 7 30_500_000_007
      (8 ∷ 9 ∷ []) 1 30_500_000_007 (omega arith) asked_to_wait (omega arith)
      (omega arith, (omega arith, tt)) (omega arith) refl

-- A response with `Retry-After: 30` alone.
abbrev only_retry_after : HeaderMap
only_retry_after = record {
  Headers = Unit;
  get_values = λ headers name. none;
  get_str = λ headers name. some (codes " 30 ");
}

server_backoff-Covers_example : Covers (from_secs 30) (some (from_secs 30))
unfolding server_backoff retry_after longest_reset trim trim_start is_whitespace parse_u64
    parse_digits limits_from_headers parse_lines
server_backoff-Covers_example =
    server_backoff-Covers only_retry_after (replying λ text. []) tt [] (from_secs 30)
      (some (from_secs 30)) refl refl (inl refl)

pub new_throttle : new exact (λ url. url) two_per_second ≡ some paced
unfolding new tolerance_of of_u64 div as_secs_f64 from_secs_f64 nearest
new_throttle = refl

new-interval_example :
    (2 * (paced.interval * 2) ≤ 2 * 1_000_000_000 + 2)
    × (2 * 1_000_000_000 < 2 * (paced.interval * 2) + 2)
new-interval_example = new-interval (λ url. url) two_per_second paced (omega arith) new_throttle

retry_after-decimal_example : retry_after (some (decimal 86_400)) ≡ some (from_secs 86_400)
retry_after-decimal_example = retry_after-decimal 86_400 (omega arith)

-- A server that asks for a wait of two seconds between the requests.
abbrev pushed_back : List Event
pushed_back = request 7 ∷ request 7 ∷ push_back (from_secs 2) 8 ∷ request 9 ∷ []

pushed_starts : starts last_instant site paced pushed_back ≡ some (7 ∷ 7 ∷ 2_000_000_008 ∷ [])
unfolding starts claim back_off proceed_at next_tat saturating_duration_since
pushed_starts = refl

signals_only_slow_example :
    AllAtMost (claims last_instant paced site (7 ∷ 7 ∷ 9 ∷ [])).1 (7 ∷ 7 ∷ 2_000_000_008 ∷ [])
signals_only_slow_example =
    signals_only_slow last_instant site (omega arith) 500_000_000 500_000_000 paced pushed_back
      (7 ∷ 7 ∷ 2_000_000_008 ∷ []) 2_500_000_008 refl refl (omega arith)
      (omega arith, (omega arith, (omega arith, (omega arith, tt)))) (omega arith) pushed_starts

-- A response with a malformed `RateLimit` field and the longest `Retry-After` that is read.
abbrev hostile : HeaderMap
hostile = record {
  Headers = Unit;
  get_values = λ headers name. some (some (codes "{") ∷ []);
  get_str = λ headers name. some (decimal u64_max);
}

huge_retry_after_panics_example :
    after_response last_instant hostile cut_off paced site tt 8 ≡ panic
huge_retry_after_panics_example =
    huge_retry_after_panics hostile cut_off (replying-IsConsuming cut_off_replies) cut_off-IsLocated
      last_instant paced site tt 8 u64_max refl (omega arith) refl (omega arith)

after_response-cases_example :
    (((true ≡ false) ⊎ (server_backoff hostile cut_off tt ≡ ok none))
      × (after_response last_instant hostile cut_off paced site tt 8 ≡ ok paced))
    ⊎ ((b : Duration) × (true ≡ true)
        × (server_backoff hostile cut_off tt ≡ ok (some b))
        × (((t' : Throttle Text) × (8 + b + 500_000_000 ≤ last_instant)
              × (back_off last_instant paced site b 8 ≡ some t')
              × (after_response last_instant hostile cut_off paced site tt 8 ≡ ok t'))
            ⊎ ((last_instant < 8 + b + 500_000_000)
                × (after_response last_instant hostile cut_off paced site tt 8 ≡ panic))))
after_response-cases_example =
    after_response-cases hostile cut_off (replying-IsConsuming cut_off_replies) cut_off-IsLocated
      last_instant paced site tt 8
