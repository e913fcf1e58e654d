-- ===== src/Limiter/Handler.antt =====
-- src/limiter.rs: `Handler::run`. A panic of a step is `none`.
use trillium_ratelimit.Common.{ℕ, Option, none, some, ◌>>=◌, Text, codes, if◌then◌else◌}
use trillium_ratelimit.Time.{Instant, Duration, add_duration, from_secs}
use trillium_ratelimit.Float.{F64}
use trillium_ratelimit.Bucket.{Bucket, Decision}
use trillium_ratelimit.Store.Moka.{Cache}
use trillium_ratelimit.Store.{consume}
use trillium_ratelimit.Headers.Decimal.{decimal}
use trillium_ratelimit.Headers.Limit
use trillium_ratelimit.Headers.Limit.{RateLimit, limit, with_reset, rate_limit_header}
use trillium_ratelimit.Headers.Policy
use trillium_ratelimit.Headers.Policy.{RateLimitPolicy, policy, with_window, policy_header}
use trillium_ratelimit.Limiter.{RateLimiter, MissingKey, skip, reject, shared, random_jitter}
use trillium_ratelimit.Limiter.Trillium.{ConnApi}
use trillium_ratelimit.Limiter.Seconds.{secs_ceil}

abbrev pub retry_after_header : Text
retry_after_header = codes "Retry-After"

-- What becomes of a request: it passes through, it is rejected, or it is metered under a key.
pub data Course (K : Type 0) : Type 0 where
  passed : Course K
  rejected : Course K
  metered : Option K → Course K

unfoldable pub course : {K : Type 0} → Option K → MissingKey → Course K
course (some key) missing_key = metered (some key)
course none skip = passed
course none reject = rejected
course none shared = metered none

-- The key on the wire: only where a renderer is set and the request has a key.
unfoldable pub wire_key :
    {K : Type 0} → (encode : Text → Text) → Option (K → Text) → Option K → Option Text
wire_key encode none key = none
wire_key encode (some render) none = none
wire_key encode (some render) (some key) = some (encode (render key))

-- `decision.retry_after.unwrap_or_default()`
abbrev pub or_zero : Option Duration → Duration
or_zero none = 0
or_zero (some d) = d

abbrev pub keyed_policy : RateLimitPolicy → Option Text → RateLimitPolicy
keyed_policy p none = p
keyed_policy p (some key) = Policy.with_partition_key p key

abbrev pub keyed_limit : RateLimit → Option Text → RateLimit
keyed_limit l none = l
keyed_limit l (some key) = Limit.with_partition_key l key

module _ (f : F64) {K : Type 0} (moka : Cache (Option K) (Bucket f)) (api : ConnApi) where
  open api use {Conn, append, insert, with_status, halt}

  -- The two items of the response.
  unfoldable pub policy_item : RateLimiter f moka api → Option Text → RateLimitPolicy
  unfolding policy with_window Policy.with_partition_key
  policy_item limiter pk =
      keyed_policy
        (with_window (policy limiter.policy_name limiter.quota.count) limiter.quota.window) pk

  unfoldable pub limit_item : RateLimiter f moka api → Option Text → Decision → ℕ → RateLimit
  unfolding limit with_reset Limit.with_partition_key
  limit_item limiter pk decision secs =
      keyed_limit (with_reset (limit limiter.policy_name decision.remaining) (from_secs secs)) pk

  unfoldable pub annotated : RateLimiter f moka api → Conn → Option Text → Decision → ℕ → Conn
  unfolding Policy.display Limit.display
  annotated limiter conn pk decision secs =
      append (append conn policy_header (Policy.display (policy_item limiter pk))) rate_limit_header
        (Limit.display (limit_item limiter pk decision secs))

  -- The response to a request over the quota.
  unfoldable pub refused : RateLimiter f moka api → Conn → Decision → Duration → Option Conn
  unfolding decimal secs_ceil
  refused limiter answer decision jitter = do
    wait ← add_duration (or_zero decision.retry_after) jitter
    retry_after ← secs_ceil wait
    some
        (halt (with_status (insert answer retry_after_header (decimal retry_after)) limiter.status))

  -- The response to a request that was metered.
  unfoldable pub respond :
      RateLimiter f moka api → Conn → Option Text → Decision → Duration → Option Conn
  unfolding annotated secs_ceil refused
  respond limiter conn pk decision jitter = do
    until_full ← add_duration decision.time_to_full jitter
    secs ← secs_ceil until_full
    let answer = annotated limiter conn pk decision secs
    if decision.allowed then some answer else refused limiter answer decision jitter

  -- `Handler::run`, at the time `now` that the store reads
  unfoldable pub run :
      (random : ℕ → ℕ) (encode : Text → Text)
      → RateLimiter f moka api
      → Conn
      → Instant
      → Option (RateLimiter f moka api × Conn)
  unfolding course wire_key random_jitter respond
  run random encode limiter conn now = elim (course (limiter.extractor conn) limiter.missing_key) [
    | passed ↦ some (limiter, conn)
    | rejected ↦ some (limiter, halt (with_status conn limiter.status))
    | metered key ↦ do
      let pk = wire_key encode limiter.partition_key key
      (store, decision) ← consume f moka limiter.store now key 1
      let jitter = random_jitter f moka api random limiter
      answer ← respond limiter conn pk decision jitter
      some (record limiter { store = store }, answer)
  ]
