-- ===== src/Limiter/Served.antt =====
-- src/limiter.rs over exact arithmetic: what the handler lets through over time.
use trillium_ratelimit.Common.{
  ℕ, ◌+◌, ◌-◌, ◌*◌, ◌≤◌, ◌<◌, ◌≡◌, false, Option, none, some, List, [], ◌∷◌, Text, All, arith,
  u64_max,
}
use native.Mathlib.Nat.{mul-le-mul_right}
use trillium_ratelimit.Time.{Instant, Duration, from_secs, max_duration}
use trillium_ratelimit.Quota.{Quota}
use trillium_ratelimit.Float.Exact.{exact, exact-IsIeee}
use trillium_ratelimit.Bucket.{Bucket, Decision, fresh, seconds_to_refill, refill_per_second}
use trillium_ratelimit.Bucket.Rate.{admitted, Ordered, run_le}
use trillium_ratelimit.Bucket.Scaled.{fresh-Amount}
use trillium_ratelimit.Store
use trillium_ratelimit.Store.{Store, bucket_or_fresh}
use trillium_ratelimit.Store.Moka.{Cache, IsKeeping}
use trillium_ratelimit.Store.Partitions.{run_key}
use trillium_ratelimit.Limiter.{RateLimiter}
use trillium_ratelimit.Limiter.Trillium.{ConnApi, IsConn}
use trillium_ratelimit.Limiter.Serve.{through, serve}
use trillium_ratelimit.Limiter.Alone.{InOrder, run-run_key, metered_calls-Ordered, served_alone}

-- Of a key that the store does not hold.
run_key-le :
    (q : Quota) (start end : Instant) (calls : List (Instant × ℕ)) (o : Option (Bucket exact))
    (ds : List Decision)
    → 0 < q.window
    → run_key exact none q calls ≡ some (o, ds)
    → Ordered start calls end
    → admitted calls ds * q.window ≤ q.burst * q.window + (end - start) * q.count
unfolding run_key bucket_or_fresh fresh
run_key-le q start end [] o ds positive h ordered = omega arith
run_key-le q start end ((now, cost) ∷ calls) o ds positive h (first, ordered) =
    let (b', e) = run-run_key exact (fresh exact now q) q ((now, cost) ∷ calls) o ds h in
    let bound =
      run_le q positive (fresh exact now q) b' _ ((now, cost) ∷ calls) ds end
        (fresh-Amount q positive now) (omega arith, ordered) e in
    let later : (end - now) * q.count ≤ (end - start) * q.count =
      mul-le-mul_right q.count (omega arith) in
    omega (arith, bound, later)

module _ {K : Type 0} (moka : Cache (Option K) (Bucket exact)) (keeps : IsKeeping moka)
    (same : Discrete (Option K)) (api : ConnApi) (conns : IsConn api) (random : ℕ → ℕ)
    (draws : (max : ℕ) → random max ≤ max) (encode : Text → Text) where
  open api use {Conn, is_halted}
  open moka use {find}

  module _ (q : Quota) (m : ℕ) (d : Duration) (fits : m ≤ u64_max) (burst-le : q.burst ≤ m)
      (one : 1 ≤ m)
      (full : seconds_to_refill exact (exact.of_u64 m) (refill_per_second exact q) ≡ some d) where
    -- The handler keeps its promise to what it guards: over exact arithmetic, every request on a
    -- limiter with a new store is answered, and the requests under one key that go through up to a
    -- time are at most the burst and what accrues at the quota's rate until then, whatever the
    -- other keys ask. Both sides are multiplied by the window. The requests come in the order of
    -- their times, none is halted before, the connection meets its laws, `fastrand` stays in its
    -- bounds, the cache drops nothing meanwhile, the window is not zero, and the time in which `m`
    -- tokens accrue, with the jitter and a second, is representable, `m` being a `u64` and at least
    -- 1 and the burst.
    pub served-le-rate :
        (l : RateLimiter exact moka api) (cap : ℕ) (start end : Instant)
        (requests : List (Instant × Conn)) (k : Option K)
        → l.store ≡ Store.new exact moka q cap
        → 0 < q.window
        → d + l.jitter + from_secs 1 ≤ max_duration
        → InOrder start requests end
        → All (λ request. is_halted request.1 ≡ false) requests
        → (l' : RateLimiter exact moka api) × (answers : List Conn) × (serve exact moka api random
              encode l requests
            ≡ some (l', answers))
          × (through api l.extractor l.missing_key same k requests answers * q.window
              ≤ q.burst * q.window + (end - start) * q.count)
    served-le-rate l cap start end requests k built positive room order fresh =
        let (l', answers, e, o, ds, mine, counted) =
          served_alone exact exact-IsIeee moka keeps same api conns random draws encode q m d fits
            burst-le one full l cap requests k built room fresh in
        let bound =
          run_key-le q start end _ o ds positive mine
            (metered_calls-Ordered same k api l.extractor l.missing_key start end requests order) in
        (l', answers, e, rw counted bound)
