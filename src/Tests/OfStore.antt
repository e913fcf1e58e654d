-- ===== src/Tests/OfStore.antt =====
-- Runs of src/store.rs.
use mathlib.Core.Bool.{Bool-discrete}
use trillium_ratelimit.Common.{
  ℕ, ◌≡◌, refl, Bool, true, false, none, some, List, [], ◌∷◌, map, min, arith,
}
use trillium_ratelimit.Time.{Instant}
use trillium_ratelimit.Float.Exact.{exact, exact-IsIeee, of_u64}
use trillium_ratelimit.Bucket.{Bucket, Decision, fresh}
use trillium_ratelimit.Bucket.Bounds.{IsValid}
use trillium_ratelimit.Bucket.Drain.{count_true}
use trillium_ratelimit.Store.{Store, new, consume, bucket_or_fresh}
use trillium_ratelimit.Store.Moka.{keeping-IsLossy, Cache, IsLossy}
use trillium_ratelimit.Store.Validity.{here, next, call, Reach-AllValid}
use trillium_ratelimit.Store.Partitions.{
  calls_of, decisions_of, run_key, run_store, run_store-run_key,
}
use trillium_ratelimit.Store.Concurrency.{requests_at, occurrences, concurrent_admits_burst}
use trillium_ratelimit.Store.Expiry.{expiry_lossless, expiry_gains}
use trillium_ratelimit.Tests.Samples.{kept, kept-IsKeeping}
use trillium_ratelimit.Tests.Attempts.{
  two_per_second, two_per_second-IsInRange, empty_at, one_at, one_left, accrues, admits_one,
  refilled_one_at, one_per_second, short_of_burst, whole_burst, admits_refilled, admits_fresh,
  refuses_burst, admits_burst,
}

abbrev cache : Cache Bool (Bucket exact)
cache = kept Bool-discrete

abbrev keys : List Bool
keys = true ∷ false ∷ true ∷ true ∷ []

concurrent_admits_burst_example :
    (s' : Store exact cache) × (ds : List Decision) × (run_store exact cache
        (new exact cache two_per_second 10)
        (requests_at 7 keys)
      ≡ some (s', ds))
    × ((k : Bool)
        → count_true (map (λ r. r.allowed) (decisions_of Bool-discrete k (requests_at 7 keys) ds))
          ≡ min (occurrences Bool-discrete k keys) 2)
concurrent_admits_burst_example =
    concurrent_admits_burst exact cache Bool-discrete (kept-IsKeeping Bool-discrete) exact-IsIeee
      two_per_second 2 1_000_000_000 10 7 keys two_per_second-IsInRange (omega arith) (omega arith)
      (omega arith) (omega arith) accrues

cache-IsLossy : IsLossy cache
cache-IsLossy = keeping-IsLossy cache (kept-IsKeeping Bool-discrete)

abbrev start : Store exact cache
start = new exact cache two_per_second 10

abbrev used : Store exact cache
used = record {
  cache = cache.put (cache.build 10 1_000_000_000) true (one_at 7);
  quota = two_per_second;
}

first_call : consume exact cache start 7 true 1 ≡ some (used, one_left)
unfolding consume bucket_or_fresh new fresh of_u64
first_call = rw admits_one refl

Reach-AllValid_example : IsValid exact two_per_second (one_at 7)
Reach-AllValid_example =
    Reach-AllValid exact cache exact-IsIeee cache-IsLossy Bool-discrete two_per_second 10 used
      (omega arith) (next here (call 7 true 1 first_call)) true (one_at 7) refl

abbrev two_calls : List (Instant × Bool × ℕ)
two_calls = (7, false, 1) ∷ (7, true, 1) ∷ []

abbrev both_used : Store exact cache
both_used = record {
  cache = cache.put (cache.put (cache.build 10 1_000_000_000) false (one_at 7)) true (one_at 7);
  quota = two_per_second;
}

both_calls : run_store exact cache start two_calls ≡ some (both_used, one_left ∷ one_left ∷ [])
unfolding run_store consume bucket_or_fresh new fresh of_u64
both_calls = rw (admits_one, admits_one) refl

run_store-run_key_example :
    run_key exact none two_per_second ((7, 1) ∷ []) ≡ some (some (one_at 7), one_left ∷ [])
unfolding new calls_of decisions_of
run_store-run_key_example =
    run_store-run_key exact cache Bool-discrete (kept-IsKeeping Bool-discrete) start both_used
      two_calls (one_left ∷ one_left ∷ []) true both_calls

expiry_lossless_example :
    (one_left.allowed ≡ one_left.allowed) × (one_left.remaining ≡ one_left.remaining)
unfolding bucket_or_fresh fresh of_u64
expiry_lossless_example =
    expiry_lossless two_per_second (omega arith) (empty_at 7) (refilled_one_at 1_000_000_007)
      (one_at 1_000_000_007) 1_000_000_007 0 1 one_left one_left (omega arith) (omega arith) refl
      (omega arith) admits_refilled admits_fresh

expiry_gains_example : (short_of_burst.allowed ≡ false) × (whole_burst.allowed ≡ true)
unfolding bucket_or_fresh fresh of_u64
expiry_gains_example =
    expiry_gains one_per_second (omega arith) (empty_at 7) (refilled_one_at 1_000_000_007)
      (empty_at 1_000_000_007) 1_000_000_007 0 short_of_burst whole_burst (omega arith)
      (omega arith) refl (omega arith) refuses_burst admits_burst
