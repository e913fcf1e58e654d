-- ===== src/Tests/OfLimiter.antt =====
-- Runs of src/limiter.rs.
use mathlib.Core.Bool.{Bool-discrete}
use mathlib.Core.Option
use trillium_ratelimit.Common.{
  ℕ, ◌+◌, ◌≤◌, ◌<◌, ◌≡◌, ◌↔◌, refl, Bool, true, false, Option, none, some, List, [], ◌∷◌, ◌*◌, ◌-◌,
  ◌++◌, codes, arith,
}
use trillium_ratelimit.Time.{Instant, from_secs}
use trillium_ratelimit.Float.Exact.{exact, exact-IsIeee}
use trillium_ratelimit.Bucket.{Bucket}
use trillium_ratelimit.Store.{Store, consume, bucket_or_fresh}
use trillium_ratelimit.Store.Moka.{keeping-IsLossy, Cache, IsLossy}
use trillium_ratelimit.Headers.Decimal.{decimal}
use trillium_ratelimit.Headers.Limit
use trillium_ratelimit.Headers.Limit.{rate_limit_header}
use trillium_ratelimit.Headers.Policy
use trillium_ratelimit.Headers.Policy.{policy_header}
use trillium_ratelimit.Limiter
use trillium_ratelimit.Limiter.Total.{run_total}
use trillium_ratelimit.Store.Validity.{Inv, new-Inv}
use trillium_ratelimit.Limiter.{RateLimiter, skip}
use trillium_ratelimit.Limiter.Network.{
  IpAddr, v4, v6, network_key, SameNetwork, network_key-SameNetwork,
}
use trillium_ratelimit.Limiter.Handler.{course, run, retry_after_header}
use trillium_ratelimit.Limiter.Answer.{run_refused, run_admitted}
use trillium_ratelimit.Limiter.Announced.{announced_policy, announced_limit}
use trillium_ratelimit.Limiter.Serve.{through, serve}
use trillium_ratelimit.Limiter.Served.{served-le-rate}
use trillium_ratelimit.Limiter.Built.{new, next, capacity_set, status_set, Serving, Built-Serving}
use trillium_ratelimit.Tests.Samples.{
  kept, kept-IsKeeping, exchange_api, exchange_api-IsConn, Exchange, first_request,
}
use trillium_ratelimit.Tests.Attempts.{
  two_per_second, full_at, empty_at, one_at, one_left, too_many, accrues, admits_one, refuses_one,
  admits_after_a_second,
}

abbrev mapped : IpAddr
mapped = v6 (record { a = 0; b = 0; c = 0; d = 0; e = 0; f = 0xffff; g = 0xc000; h = 0x0201 })

network_key-SameNetwork_example :
    (network_key mapped ≡ network_key (v4 0xc0000201)) ↔ SameNetwork mapped (v4 0xc0000201)
network_key-SameNetwork_example = network_key-SameNetwork mapped (v4 0xc0000201)

abbrev pub cache : Cache (Option Bool) (Bucket exact)
cache = kept (Option.discrete Bool-discrete)

abbrev pub holding : Bucket exact → Store exact cache
holding b = record { cache = λ k. some b; quota = two_per_second }

abbrev pub limiter : Bucket exact → RateLimiter exact cache exchange_api
limiter b = record {
  store = holding b;
  extractor = λ conn. some true;
  quota = two_per_second;
  policy_name = codes "default";
  missing_key = skip;
  status = 429;
  jitter = 3;
  partition_key = none;
}

abbrev pub after : Bucket exact → Bucket exact → Store exact cache
after b b' = record { cache = cache.put (holding b).cache (some true) b'; quota = two_per_second }

pub refuses_first :
    consume exact cache (holding (empty_at 7)) 7 (some true) 1
    ≡ some (after (empty_at 7) (empty_at 7), too_many)
unfolding consume bucket_or_fresh
refuses_first = rw refuses_one refl

pub admits_first :
    consume exact cache (holding (full_at 7)) 7 (some true) 1
    ≡ some (after (full_at 7) (one_at 7), one_left)
unfolding consume bucket_or_fresh
admits_first = rw admits_one refl

run_refused_example :
    (answer : Exchange) × (n : ℕ) × (run exact cache exchange_api
        (λ bound. bound)
        (λ key. key)
        (limiter (empty_at 7))
        first_request
        7
      ≡ some (record (limiter (empty_at 7)) { store = after (empty_at 7) (empty_at 7) }, answer))
    × (answer.stopped ≡ true)
    × (answer.code ≡ some 429)
    × (answer.fields retry_after_header ≡ decimal n ∷ [])
    × (500_000_000 ≤ from_secs n)
    × (from_secs n < 500_000_000 + 3 + from_secs 1)
unfolding course
run_refused_example =
    run_refused exact cache exchange_api exchange_api-IsConn (λ bound. bound) (λ key. key)
      (λ bound. omega arith) (limiter (empty_at 7)) first_request 7 (some true)
      (after (empty_at 7) (empty_at 7)) too_many 500_000_000 refl refuses_first refl refl
      (omega arith) (omega arith)

run_admitted_example :
    (answer : Exchange) × (n : ℕ) × (run exact cache exchange_api
        (λ bound. bound)
        (λ key. key)
        (limiter (full_at 7))
        first_request
        7
      ≡ some (record (limiter (full_at 7)) { store = after (full_at 7) (one_at 7) }, answer))
    × (answer.stopped ≡ false)
    × (answer.fields policy_header
        ≡ []
          ++ (Policy.display (
                announced_policy exact cache exchange_api
                  (λ key. key)
                  (limiter (full_at 7))
                  (some true))
              ∷ []))
    × (answer.fields rate_limit_header
        ≡ []
          ++ (Limit.display (
                announced_limit exact cache exchange_api
                  (λ key. key)
                  (limiter (full_at 7))
                  (some true)
                  one_left
                  n)
              ∷ []))
    × (answer.fields retry_after_header ≡ [])
    × (500_000_000 ≤ from_secs n)
    × (from_secs n < 500_000_000 + 3 + from_secs 1)
unfolding course
run_admitted_example =
    run_admitted exact cache exchange_api exchange_api-IsConn (λ bound. bound) (λ key. key)
      (λ bound. omega arith) (limiter (full_at 7)) first_request 7 (some true)
      (after (full_at 7) (one_at 7)) one_left refl admits_first refl (omega arith)

abbrev pub later_served : Store exact cache
later_served = record {
  cache = cache.put (after (empty_at 7) (empty_at 7)).cache (some true) (one_at 1_000_000_008);
  quota = two_per_second;
}

pub admits_later :
    consume exact cache (after (empty_at 7) (empty_at 7)) 1_000_000_008 (some true) 1
    ≡ some (later_served, one_left)
unfolding consume bucket_or_fresh
admits_later =
    let keeps = kept-IsKeeping (Option.discrete Bool-discrete) in
    let hit = keeps.put_self (holding (empty_at 7)).cache (some true) (empty_at 7) in
    rw (consume, hit, bucket_or_fresh, admits_after_a_second) refl

cache-IsLossy : IsLossy cache
cache-IsLossy = keeping-IsLossy cache (kept-IsKeeping (Option.discrete Bool-discrete))

abbrev pub new_limiter : RateLimiter exact cache exchange_api
new_limiter = Limiter.new exact cache exchange_api two_per_second (λ conn. some true)

new_limiter-Inv :
    Inv exact cache exact-IsIeee cache-IsLossy
      (Option.discrete Bool-discrete)
      two_per_second
      new_limiter.store
unfolding Limiter.new
new_limiter-Inv =
    new-Inv exact cache exact-IsIeee cache-IsLossy (Option.discrete Bool-discrete) two_per_second
      100_000

run_total_example :
    (l' : RateLimiter exact cache exchange_api) × (answer : Exchange) × (run exact cache
        exchange_api
        (λ bound. bound)
        (λ key. key)
        new_limiter
        first_request
        7
      ≡ some (l', answer))
    × Inv exact cache exact-IsIeee cache-IsLossy
        (Option.discrete Bool-discrete)
        two_per_second
        l'.store
    × (l'.jitter ≡ 0)
unfolding Limiter.new
run_total_example =
    run_total exact cache exchange_api exact-IsIeee cache-IsLossy exchange_api-IsConn
      (Option.discrete Bool-discrete) two_per_second 2 1_000_000_000 (omega arith) (omega arith)
      (omega arith) accrues (λ bound. bound) (λ bound. omega arith) (λ key. key) new_limiter
      first_request 7 new_limiter-Inv (omega arith)

abbrev pub three_requests : List (Instant × Exchange)
three_requests = (7, first_request) ∷ (7, first_request) ∷ (8, first_request) ∷ []

served-le-rate_example :
    (l' : RateLimiter exact cache exchange_api) × (answers : List Exchange) × (serve exact cache
        exchange_api
        (λ bound. bound)
        (λ key. key)
        new_limiter
        three_requests
      ≡ some (l', answers))
    × (through exchange_api new_limiter.extractor skip
            (Option.discrete Bool-discrete)
            (some true)
            three_requests
            answers
          * 1_000_000_000
        ≤ 2 * 1_000_000_000 + (8 - 7) * 2)
unfolding Limiter.new
served-le-rate_example =
    served-le-rate cache (kept-IsKeeping (Option.discrete Bool-discrete))
      (Option.discrete Bool-discrete) exchange_api exchange_api-IsConn (λ bound. bound)
      (λ bound. omega arith) (λ key. key) two_per_second 2 1_000_000_000 (omega arith) (omega arith)
      (omega arith) accrues new_limiter 100_000 7 8 three_requests (some true) refl (omega arith)
      (omega arith) (omega arith, (omega arith, (omega arith, omega arith)))
      (refl, (refl, (refl, tt)))

-- A new limiter whose capacity and status are set.
abbrev built_limiter : RateLimiter exact cache exchange_api
built_limiter =
    Limiter.with_status exact cache exchange_api
      (Limiter.with_capacity exact cache exchange_api new_limiter 10) 503

Built-Serving_example :
    Serving exact cache exchange_api
      (λ bound. bound)
      (λ key. key)
      exact-IsIeee
      cache-IsLossy
      exchange_api-IsConn
      (Option.discrete Bool-discrete)
      two_per_second
      (omega arith)
      built_limiter
Built-Serving_example =
    Built-Serving exact cache exchange_api (λ bound. bound) (λ key. key) exact-IsIeee cache-IsLossy
      exchange_api-IsConn (Option.discrete Bool-discrete) two_per_second (omega arith) built_limiter
      (next (next (new (λ conn. some true)) (capacity_set 10)) (status_set 503))
