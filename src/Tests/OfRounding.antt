-- ===== src/Tests/OfRounding.antt =====
-- Runs of src/bucket.rs and src/limiter.rs over binary64, for the results on rounding.
use mathlib.Core.Bool.{Bool-discrete}
use mathlib.Core.Option
use trillium_ratelimit.Common.{
  ◌+◌, ◌-◌, ◌*◌, ◌^◌, ◌≤◌, ◌≡◌, refl, Bool, true, Option, some, List, length, arith,
}
use trillium_ratelimit.Time.{from_secs}
use trillium_ratelimit.Quota.{Quota}
use trillium_ratelimit.Float.Binary.{
  binary64, binary64-IsIeee, binary64-IsRounded, of_u64, le, add, div, as_secs_f64, from_secs_f64,
  make, round, exponent, half_even,
}
use trillium_ratelimit.Bucket.{Bucket, Decision, fresh, run, seconds_to_refill, refill_per_second}
use trillium_ratelimit.Bucket.Rate.{admitted}
use trillium_ratelimit.Bucket.RoundedRate.{admitted-le-rounded_rate}
use trillium_ratelimit.Store.Moka.{Cache}
use trillium_ratelimit.Limiter
use trillium_ratelimit.Limiter.{RateLimiter, skip}
use trillium_ratelimit.Limiter.Serve.{through, serve}
use trillium_ratelimit.Limiter.RoundedServed.{served-le-rounded_rate}
use trillium_ratelimit.Tests.Samples.{
  kept, kept-IsKeeping, exchange_api, exchange_api-IsConn, Exchange,
}
use trillium_ratelimit.Tests.OfBucket.{three_calls}
use trillium_ratelimit.Tests.OfLimiter.{three_requests}

-- Its rate, three sevenths of a token a second, is no binary fraction.
abbrev three_per_seven : Quota
three_per_seven = record { count = 3; window = from_secs 7; burst = 3 }

accrues_in_seven :
    seconds_to_refill binary64 (binary64.of_u64 3) (refill_per_second binary64 three_per_seven)
    ≡ some 7_000_000_000
unfolding seconds_to_refill refill_per_second of_u64 le div as_secs_f64 add from_secs_f64 make round
    exponent half_even
accrues_in_seven = refl

admitted-le-rounded_rate_example :
    (b' : Bucket binary64) × (ds : List Decision) × (run binary64
        (fresh binary64 7 three_per_seven)
        three_per_seven
        three_calls
      ≡ some (b', ds))
    × (admitted three_calls ds * (7_000_000_000 * 2 ^ 53)
        ≤ 3 * (7_000_000_000 * 2 ^ 53)
          + (500_000_007 - 7) * 3 * (2 ^ 53 + 11)
          + 2 * length three_calls * 3 * 7_000_000_000)
admitted-le-rounded_rate_example =
    admitted-le-rounded_rate binary64 binary64-IsIeee binary64-IsRounded three_per_seven
      (omega arith) (omega arith) (omega arith) 7 500_000_007 three_calls 3 7_000_000_000
      (omega arith) (omega arith) (omega arith, (omega arith, (omega arith, tt))) accrues_in_seven
      (omega arith, (omega arith, (omega arith, omega arith)))

abbrev cache : Cache (Option Bool) (Bucket binary64)
cache = kept (Option.discrete Bool-discrete)

abbrev new_limiter : RateLimiter binary64 cache exchange_api
new_limiter = Limiter.new binary64 cache exchange_api three_per_seven (λ conn. some true)

served-le-rounded_rate_example :
    (l' : RateLimiter binary64 cache exchange_api) × (answers : List Exchange) × (serve binary64
        cache exchange_api
        (λ bound. bound)
        (λ key. key)
        new_limiter
        three_requests
      ≡ some (l', answers))
    × (through exchange_api new_limiter.extractor skip
            (Option.discrete Bool-discrete)
            (some true)
            three_requests
            answers
          * (7_000_000_000 * 2 ^ 53)
        ≤ 3 * (7_000_000_000 * 2 ^ 53)
          + (8 - 7) * 3 * (2 ^ 53 + 11)
          + 2 * length three_requests * 3 * 7_000_000_000)
unfolding Limiter.new
served-le-rounded_rate_example =
    served-le-rounded_rate binary64 binary64-IsIeee binary64-IsRounded three_per_seven (omega arith)
      (omega arith) (omega arith) cache (kept-IsKeeping (Option.discrete Bool-discrete))
      (Option.discrete Bool-discrete) exchange_api exchange_api-IsConn (λ bound. bound)
      (λ bound. omega arith) (λ key. key) 3 7_000_000_000 new_limiter 100_000 7 8 three_requests
      (some true) (omega arith) (omega arith) (omega arith) accrues_in_seven refl (omega arith)
      (omega arith, (omega arith, (omega arith, omega arith))) (refl, (refl, (refl, tt)))
