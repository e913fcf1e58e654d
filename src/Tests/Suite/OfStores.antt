-- ===== src/Tests/Suite/OfStores.antt =====
-- The unit tests of src/store.rs, over exact arithmetic and on a cache that drops nothing. The clock
-- stands still, as the tests' long window has it. Threads run in any order: their calls are equal.
use trillium_ratelimit.Common.{
  ℕ, ◌+◌, ◌≡◌, refl, not, Option, some, ◌==◌, ◌>>=◌, if◌then◌else◌, Text, text_eq, codes,
}
use trillium_ratelimit.Time.{Instant}
use trillium_ratelimit.Quota.{per_hour}
use trillium_ratelimit.Float.Exact.{exact}
use trillium_ratelimit.Bucket.{Bucket}
use trillium_ratelimit.Store
use trillium_ratelimit.Store.{Store, consume, bucket_or_fresh}
use trillium_ratelimit.Store.Moka.{Cache}
use trillium_ratelimit.Tests.Suite.Computing.{consuming}
use trillium_ratelimit.Tests.Suite.Base.{Test, passed, assert, repeat, entries}

abbrev cache : Cache Text (Bucket exact)
cache = entries text_eq

-- What the threads share: the store and the number of admitted calls.
abbrev Shared : Type 0
Shared = Store exact cache × ℕ

abbrev one_call : Instant → Shared → Option Shared
one_call now (store, admitted) = do
  (next, decision) ← consume exact cache store now (codes "shared-key") 1
  some (next, if decision.allowed then admitted + 1 else admitted)

abbrev concurrent_consume_admits_exactly_burst : Instant → Test
concurrent_consume_admits_exactly_burst now = do
  let store = Store.new exact cache (per_hour 100) 1000
  (_, admitted) ← repeat 16 (repeat 50 (one_call now)) (store, 0)
  assert (admitted == 100)

concurrent_consume_admits_exactly_burst_passes : concurrent_consume_admits_exactly_burst 7 ≡ passed
unfolding consuming
concurrent_consume_admits_exactly_burst_passes = refl

abbrev distinct_keys_have_independent_buckets : Instant → Test
distinct_keys_have_independent_buckets now = do
  let store = Store.new exact cache (per_hour 1) 1000
  (store, first) ← consume exact cache store now (codes "a") 1
  _ ← assert first.allowed
  (store, second) ← consume exact cache store now (codes "b") 1
  _ ← assert second.allowed
  (store, third) ← consume exact cache store now (codes "a") 1
  _ ← assert (not third.allowed)
  (store, fourth) ← consume exact cache store now (codes "b") 1
  assert (not fourth.allowed)

distinct_keys_have_independent_buckets_passes : distinct_keys_have_independent_buckets 7 ≡ passed
unfolding consuming
distinct_keys_have_independent_buckets_passes = refl
