-- ===== src/Store.antt =====
-- src/store.rs: one bucket for each partition key, in a moka cache.
pub mod Moka
pub mod Partitions
pub mod Concurrency
pub mod Validity
pub mod Total
pub mod Expiry
use trillium_ratelimit.Common.{ℕ, Option, some, none, List, [], ◌∷◌, ◌>>=◌}
use trillium_ratelimit.Time.{Instant}
use trillium_ratelimit.Quota.{Quota}
use trillium_ratelimit.Float.{F64}
use trillium_ratelimit.Bucket.{Bucket, Decision, fresh, try_consume}
use Moka.{Cache}

-- `unwrap_or_else(|| Bucket::new(now, quota))`
unfoldable pub bucket_or_fresh : (f : F64) → Option (Bucket f) → Instant → Quota → Bucket f
bucket_or_fresh f (some bucket) now quota = bucket
bucket_or_fresh f none now quota = fresh f now quota

module _ (f : F64) {K : Type 0} (moka : Cache K (Bucket f)) where
  open moka use {State, build, find, put}

  pub record Store : Type 0 where
    pub cache : State
    pub quota : Quota

  -- `Store::new`
  unfoldable pub new : Quota → ℕ → Store
  new quota max_partitions = record { cache = build max_partitions quota.window; quota = quota }

  -- One atomic read-modify-write of the key's bucket; a panic leaves the store as it was.
  unfoldable pub consume : Store → Instant → K → ℕ → Option (Store × Decision)
  unfolding bucket_or_fresh
  consume store now key cost = do
    let bucket = bucket_or_fresh f (find store.cache key) now store.quota
    (next, decision) ← try_consume f bucket now store.quota cost
    some (record store { cache = put store.cache key next }, decision)
