-- ===== src/Tests/OfPacing.antt =====
-- Runs of src/client.rs against src/limiter.rs and src/bucket.rs, the quota being one.
use trillium_ratelimit.Common.{
  ℕ, Bool, false, Option, ◌≤◌, ◌≡◌, refl, true, none, some, List, [], ◌∷◌, Text, arith, replicate,
}
use mathlib.Core.Bool.{Bool-discrete}
use mathlib.Core.Option
use trillium_ratelimit.Time.{Instant, saturating_duration_since}
use trillium_ratelimit.Quota.{Quota}
use trillium_ratelimit.Float.Exact.{exact, of_u64, le, div, as_secs_f64, from_secs_f64, nearest}
use trillium_ratelimit.Bucket.{Bucket, Decision, fresh, seconds_to_refill, refill_per_second, run}
use trillium_ratelimit.Bucket.Rate.{admitted}
use trillium_ratelimit.Store.Partitions.{calls_of}
use trillium_ratelimit.Limiter
use trillium_ratelimit.Limiter.{RateLimiter, skip}
use trillium_ratelimit.Limiter.Handler.{course}
use trillium_ratelimit.Limiter.Serve.{metered_calls, through, serve}
use trillium_ratelimit.Client.Throttle.{claim, proceed_at, next_tat, Throttle, new, tolerance_of}
use trillium_ratelimit.Client.Pacing.{claims}
use trillium_ratelimit.Together.Paced.{arrivals}
use trillium_ratelimit.Together.Unrefused.{paced_client_served}
use trillium_ratelimit.Together.Rounding.{rounded_down_refused}
use trillium_ratelimit.Tests.Samples.{
  kept-IsKeeping, exchange_api, exchange_api-IsConn, Exchange, first_request,
}
use trillium_ratelimit.Tests.Attempts.{two_per_second, accrues}
use trillium_ratelimit.Tests.OfLimiter.{cache}
use trillium_ratelimit.Tests.OfClient.{last_instant, site, paced, new_throttle}

abbrev unmarked : Option ℕ → Bool
unmarked none = true
unmarked (some code) = false

abbrev same_flag : (a b : Option Bool) → Dec (a ≡ b)
same_flag none none = yes refl
same_flag none (some b) = no (λ h. cc h)
same_flag (some a) none = no (λ h. cc h)
same_flag (some true) (some true) = yes refl
same_flag (some true) (some false) = no (λ h. cc h)
same_flag (some false) (some true) = no (λ h. cc h)
same_flag (some false) (some false) = yes refl

-- A limiter that tells marked requests from others.
abbrev by_mark : RateLimiter exact cache exchange_api
by_mark = Limiter.new exact cache exchange_api two_per_second (λ conn. some (unmarked conn.code))

abbrev marked_request : Exchange
marked_request = record first_request { code = some 1 }

-- Four requests of a paced client, and two of others.
abbrev shared_use : List (Instant × Exchange)
shared_use =
    (10, first_request)
    ∷ (10, marked_request)
    ∷ (10, first_request)
    ∷ (500_000_010, first_request)
    ∷ (500_000_010, marked_request)
    ∷ (1_000_000_010, first_request)
    ∷ []

from_client :
    calls_of same_flag (some true) (metered_calls exchange_api by_mark.extractor skip shared_use)
    ≡ arrivals 3 (claims last_instant paced site (7 ∷ 7 ∷ 7 ∷ 9 ∷ [])).1
unfolding calls_of metered_calls course claims claim proceed_at next_tat saturating_duration_since
    Limiter.new
from_client = refl

paced_client_served_example :
    (l' : RateLimiter exact cache exchange_api) × (answers : List Exchange) × (serve exact cache
        exchange_api
        (λ bound. bound)
        (λ key. key)
        by_mark
        shared_use
      ≡ some (l', answers))
    × (through exchange_api by_mark.extractor skip same_flag (some true) shared_use answers ≡ 4)
unfolding Limiter.new
paced_client_served_example =
    paced_client_served cache (kept-IsKeeping (Option.discrete Bool-discrete)) same_flag
      exchange_api exchange_api-IsConn (λ bound. bound) (λ bound. omega arith) (λ key. key)
      (λ url. url) two_per_second paced site 3 1_000_000_000 last_instant 9 7 (7 ∷ 7 ∷ 9 ∷ [])
      by_mark 100_000 shared_use (some true) refl new_throttle (omega arith) (omega arith)
      (omega arith) accrues (omega arith) (omega arith) (omega arith) (omega arith)
      (omega arith, (omega arith, (omega arith, tt))) (omega arith)
      (refl, (refl, (refl, (refl, (refl, (refl, tt)))))) from_client

abbrev three_per_second : Quota
three_per_second = record { count = 3; window = 1_000_000_000; burst = 3 }

abbrev thirds : Throttle Text
thirds = record {
  quota = three_per_second;
  interval = 333_333_333;
  tolerance = 666_666_666;
  scope = λ url. url;
  honor_server_signals = true;
  state = λ key. none;
}

new_thirds : new exact (λ url. url) three_per_second ≡ some thirds
unfolding new tolerance_of of_u64 div as_secs_f64 from_secs_f64 nearest
new_thirds = refl

three_accrue :
    seconds_to_refill exact (exact.of_u64 3) (refill_per_second exact three_per_second)
    ≡ some 1_000_000_000
unfolding seconds_to_refill refill_per_second of_u64 le div as_secs_f64 from_secs_f64 nearest
three_accrue = refl

rounded_down_refused_example :
    (b' : Bucket exact) × (ds : List Decision) × (run exact
        (fresh exact 10 three_per_second)
        three_per_second
        (arrivals 3 (claims last_instant thirds site (replicate 4 7)).1)
      ≡ some (b', ds))
    × (admitted (arrivals 3 (claims last_instant thirds site (replicate 4 7)).1) ds ≤ 3)
rounded_down_refused_example =
    rounded_down_refused (λ url. url) three_per_second thirds site 3 1_000_000_000 last_instant 7
      new_thirds (omega arith) (omega arith) (omega arith) three_accrue (omega arith) (omega arith)
      (omega arith) (omega arith)
