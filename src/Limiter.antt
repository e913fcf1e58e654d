-- ===== src/Limiter.antt =====
-- src/limiter.rs: the server's handler, over any cache, any `f64` and any connection.
pub mod Trillium
pub mod Network
pub mod Seconds
pub mod Handler
pub mod Announced
pub mod Answer
pub mod Total
pub mod Serve
pub mod Through
pub mod Alone
pub mod Served
pub mod RoundedServed
pub mod Built
pub mod Honest
pub mod Debug
use trillium_ratelimit.Common.{
  ℕ, Option, none, some, Text, codes, min, u64_max, ◌==◌, if◌then◌else◌,
}
use mathlib.Core.Option
use trillium_ratelimit.Time.{Duration}
use trillium_ratelimit.Quota.{Quota}
use trillium_ratelimit.Float.{F64}
use trillium_ratelimit.Bucket.{Bucket}
use trillium_ratelimit.Store.Moka.{Cache}
use trillium_ratelimit.Store
use trillium_ratelimit.Store.{Store}
use Trillium.{ConnApi}
use Network.{IpAddr, network_key}

abbrev pub default_max_partitions : ℕ
default_max_partitions = 100_000

abbrev pub default_policy_name : Text
default_policy_name = codes "default"

pub data MissingKey : Type 0 where
  skip : MissingKey
  reject : MissingKey
  shared : MissingKey

module _ (f : F64) {K : Type 0} (moka : Cache (Option K) (Bucket f)) (api : ConnApi) where
  open api use {Conn, Status, too_many_requests, peer_ip}

  pub record RateLimiter : Type 0 where
    pub store : Store f moka
    pub extractor : Conn → Option K
    pub quota : Quota
    pub policy_name : Text
    pub missing_key : MissingKey
    pub status : Status
    pub jitter : Duration
    pub partition_key : Option (K → Text)

  -- `RateLimiter::new`
  unfoldable pub new : Quota → (Conn → Option K) → RateLimiter
  new quota extractor = record {
    store = Store.new f moka quota default_max_partitions;
    extractor = extractor;
    quota = quota;
    policy_name = default_policy_name;
    missing_key = skip;
    status = too_many_requests;
    jitter = 0;
    partition_key = none;
  }

  -- `state` is `conn.state::<K>().cloned()`
  unfoldable pub from_state : (state : Conn → Option K) → Quota → RateLimiter
  unfolding new
  from_state state quota = new quota (λ conn. state conn)

  unfoldable pub with_policy_name : RateLimiter → Text → RateLimiter
  with_policy_name limiter policy_name = record limiter { policy_name = policy_name }

  unfoldable pub with_missing_key : RateLimiter → MissingKey → RateLimiter
  with_missing_key limiter missing_key = record limiter { missing_key = missing_key }

  unfoldable pub with_status : RateLimiter → Status → RateLimiter
  with_status limiter status = record limiter { status = status }

  -- A new store, whatever the old one held.
  unfoldable pub with_capacity : RateLimiter → ℕ → RateLimiter
  with_capacity limiter max_partitions = record limiter {
    store = Store.new f moka limiter.quota max_partitions;
  }

  unfoldable pub with_jitter : RateLimiter → Duration → RateLimiter
  with_jitter limiter jitter = record limiter { jitter = jitter }

  unfoldable pub with_partition_key : RateLimiter → (K → Text) → RateLimiter
  with_partition_key limiter render = record limiter { partition_key = some render }

  -- `random max` is what `fastrand::u64(0..=max)` draws.
  unfoldable pub random_jitter : (random : ℕ → ℕ) → RateLimiter → Duration
  random_jitter random limiter =
      if limiter.jitter == 0 then 0 else random (min limiter.jitter u64_max)

module _ (f : F64) (moka : Cache (Option IpAddr) (Bucket f)) (api : ConnApi) where
  -- `RateLimiter::by_network`
  unfoldable pub by_network : Quota → RateLimiter f moka api
  unfolding new network_key
  by_network quota = new f moka api quota (λ conn. Option.map network_key (api.peer_ip conn))
