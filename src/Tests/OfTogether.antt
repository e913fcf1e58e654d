-- ===== src/Tests/OfTogether.antt =====
-- Runs of src/limiter.rs, src/headers/ and src/client.rs together.

use mathlib.Core.Bool.{Bool-discrete}
use mathlib.Core.Option
use trillium_ratelimit.Common.{
  ℕ, ◌+◌, ◌≤◌, ◌<◌, ◌≡◌, refl, ap, true, none, some, [], ◌∷◌, ◌++◌, map, Text, codes, arith,
}
use trillium_ratelimit.Time.{from_secs, saturating_duration_since}
use trillium_ratelimit.Float.Exact.{exact}
use trillium_ratelimit.Headers.Outcome.{ok}
use trillium_ratelimit.Headers.Fields.{limits_from_headers, parse_lines}
use trillium_ratelimit.Headers.Decimal.{decimal, digits}
use trillium_ratelimit.Headers.Limit
use trillium_ratelimit.Headers.LimitRoundTrip.{IsSendable, in_seconds}
use trillium_ratelimit.Headers.Grammar.{IsBase64, number}
use trillium_ratelimit.Headers.Limit.{RateLimit, rate_limit_header}
use trillium_ratelimit.Headers.Policy
use trillium_ratelimit.Headers.Policy.{policy_header}
use trillium_ratelimit.Headers.Sf.{write_sf_string, escaped, string_value, slice, unescape}
use trillium_ratelimit.Headers.Items.{items, item, params}
use trillium_ratelimit.Limiter.{random_jitter}
use trillium_ratelimit.Limiter.Seconds.{secs_ceil}
use trillium_ratelimit.Limiter.Handler.{
  course, wire_key, policy_item, limit_item, annotated, refused, respond, run, retry_after_header,
}
use trillium_ratelimit.Limiter.Honest.{retry_after-admits}
use trillium_ratelimit.Store.{bucket_or_fresh}
use trillium_ratelimit.Client.Throttle.{Throttle, back_off, insert, claim, proceed_at, next_tat}
use trillium_ratelimit.Client.Pacing.{claims}
use trillium_ratelimit.Client.Signals.{
  server_backoff, retry_after, longest_reset, trim, trim_start, is_whitespace, parse_u64,
  parse_digits,
}
use trillium_ratelimit.Client.Handler.{after_response}
use trillium_ratelimit.Together.Refusal.{Delivers, refused_client_waits}
use trillium_ratelimit.Together.Stacked.{stacked_items}
use trillium_ratelimit.Tests.Samples.{
  head, delivered, kept-IsKeeping, exchange_api, exchange_api-IsConn, Exchange, first_request,
}
use trillium_ratelimit.Tests.Attempts.{empty_at, full_at, one_at, one_left, too_many}
use trillium_ratelimit.Tests.Reader.{
  reader, reader-IsConsuming, read_item, read_params, value_at, split_at, string_end,
}
use trillium_ratelimit.Tests.OfLimiter.{
  cache, limiter, after, refuses_first, admits_first, admits_later, later_served,
}
use trillium_ratelimit.Tests.Conforming.{reader-ReadsRfc}
use trillium_ratelimit.Limiter.Announced.{announced_limit}
use trillium_ratelimit.Tests.OfClient.{last_instant, site, paced}

abbrev refusal : Exchange
refusal = exchange_api.halt (
    exchange_api.with_status
      (exchange_api.insert
        (exchange_api.append
          (exchange_api.append first_request policy_header (codes "\"default\";q=2;w=1"))
          rate_limit_header (codes "\"default\";r=0;t=2"))
        retry_after_header (codes "1"))
      429)

refuses :
    run exact cache exchange_api
      (λ bound. bound)
      (λ key. key)
      (limiter (empty_at 7))
      first_request
      7
    ≡ some (record (limiter (empty_at 7)) { store = after (empty_at 7) (empty_at 7) }, refusal)
unfolding run course wire_key random_jitter respond annotated refused secs_ceil decimal digits
    policy_item limit_item Policy.display Limit.display Policy.window_text Policy.key_text
    Policy.unit_text Limit.reset_text Limit.key_text write_sf_string escaped
refuses = rw refuses_first refl

-- The second request, which comes as late as the response asks for.
abbrev welcome : Exchange
welcome =
    exchange_api.append
      (exchange_api.append first_request policy_header (codes "\"default\";q=2;w=1"))
      rate_limit_header (codes "\"default\";r=1;t=1")

admits_again :
    run exact cache exchange_api
      (λ bound. bound)
      (λ key. key)
      (record (limiter (empty_at 7)) { store = after (empty_at 7) (empty_at 7) })
      first_request
      1_000_000_008
    ≡ some (record (limiter (empty_at 7)) { store = later_served }, welcome)
unfolding run course wire_key random_jitter respond annotated refused secs_ceil decimal digits
    policy_item limit_item Policy.display Limit.display Policy.window_text Policy.key_text
    Policy.unit_text Limit.reset_text Limit.key_text write_sf_string escaped
admits_again = rw admits_later refl

retry_after-admits_example : welcome.stopped ≡ first_request.stopped
unfolding course bucket_or_fresh decimal digits
retry_after-admits_example =
    retry_after-admits cache (kept-IsKeeping (Option.discrete Bool-discrete)) exchange_api
      exchange_api-IsConn (λ bound. bound) (λ bound. omega arith) (λ key. key)
      (limiter (empty_at 7))
      (record (limiter (empty_at 7)) { store = after (empty_at 7) (empty_at 7) })
      (record (limiter (empty_at 7)) { store = later_served }) first_request first_request refusal
      welcome 7 1_000_000_008 (some true) 0 1 (after (empty_at 7) (empty_at 7)) 500_000_000 too_many
      (omega arith) (omega arith) (omega arith) refl refl refuses_first refl refl (omega arith)
      (omega arith) refuses refl refl (omega arith) (omega arith) admits_again

-- It waits for the longer of the two waits that the response names.
abbrev waiting : Throttle Text
waiting = record paced { state = insert site 2_500_000_008 paced.state }

waits_for_both : after_response last_instant delivered reader paced site refusal 8 ≡ ok waiting
unfolding after_response server_backoff retry_after longest_reset trim trim_start is_whitespace
    parse_u64 parse_digits limits_from_headers parse_lines Limit.parse_list items item params
    Limit.keep_param Limit.finish string_value slice unescape back_off read_item read_params
    value_at split_at number string_end
waits_for_both = refl

delivered-Delivers : Delivers exchange_api delivered refusal refusal
delivered-Delivers value e = ap head e

refused_client_waits_example : 8 + 500_000_000 ≤ 2_000_000_008
unfolding course claims claim proceed_at next_tat saturating_duration_since
refused_client_waits_example =
    refused_client_waits exact cache exchange_api exchange_api-IsConn (λ bound. bound) (λ key. key)
      (λ bound. omega arith) delivered reader last_instant (limiter (empty_at 7))
      (record (limiter (empty_at 7)) { store = after (empty_at 7) (empty_at 7) }) first_request
      refusal 7 (some true) (after (empty_at 7) (empty_at 7)) too_many 500_000_000 refusal paced
      waiting site 8 2_500_000_008 (9 ∷ 10 ∷ []) 0 2_000_000_008 refl refuses_first refl refl
      (omega arith) (omega arith) refuses delivered-Delivers refl waits_for_both (omega arith)
      (omega arith) (omega arith, (omega arith, tt)) (omega arith) refl

-- What a limiter in front of this one has written.
abbrev edge : RateLimit
edge = record {
  name = codes "edge";
  remaining = 9;
  reset = some (from_secs 4);
  partition_key = none;
}

abbrev through_edge : Exchange
through_edge = exchange_api.append first_request rate_limit_header (codes "\"edge\";r=9;t=4")

edge_wrote : through_edge.fields rate_limit_header ≡ map Limit.display (edge ∷ [])
unfolding Limit.display Limit.reset_text Limit.key_text write_sf_string escaped decimal digits
edge_wrote = refl

edge-IsSendable : IsSendable edge
edge-IsSendable = ((refl, (refl, (refl, (refl, tt)))), omega arith, omega arith, tt)

abbrev admission : Exchange
admission =
    exchange_api.append
      (exchange_api.append through_edge policy_header (codes "\"default\";q=2;w=1"))
      rate_limit_header (codes "\"default\";r=1;t=1")

admits :
    run exact cache exchange_api
      (λ bound. bound)
      (λ text. codes "AA==")
      (limiter (full_at 7))
      through_edge
      7
    ≡ some (record (limiter (full_at 7)) { store = after (full_at 7) (one_at 7) }, admission)
unfolding run course wire_key random_jitter respond annotated refused secs_ceil decimal digits
    policy_item limit_item Policy.display Limit.display Policy.window_text Policy.key_text
    Policy.unit_text Limit.reset_text Limit.key_text write_sf_string escaped
admits = rw admits_first refl

-- The limiter has no renderer, so that nothing is encoded.
zero-IsBase64 : IsBase64 (codes "AA==")
zero-IsBase64 = (codes "AA", 2, refl, (refl, (refl, tt)), refl)

stacked_items_example :
    (secs : ℕ) × (limits_from_headers delivered reader admission
      ≡ ok (
          map in_seconds (edge ∷ [])
          ++ (announced_limit exact cache exchange_api
                (λ text. codes "AA==")
                (limiter (full_at 7))
                (some true)
                one_left
                secs
              ∷ [])))
    × (500_000_000 ≤ from_secs secs)
    × (from_secs secs < 500_000_000 + 3 + from_secs 1)
unfolding course
stacked_items_example =
    stacked_items exact cache exchange_api exchange_api-IsConn (λ bound. bound)
      (λ text. codes "AA==") (λ bound. omega arith) delivered reader reader-IsConsuming
      reader-ReadsRfc (λ t. zero-IsBase64) (limiter (full_at 7))
      (record (limiter (full_at 7)) { store = after (full_at 7) (one_at 7) }) through_edge admission
      7 (some true) (after (full_at 7) (one_at 7)) one_left admission (edge ∷ []) refl admits_first
      refl (refl, (refl, (refl, (refl, (refl, (refl, (refl, tt))))))) (omega arith) (omega arith)
      admits edge_wrote refl (edge-IsSendable, tt)
