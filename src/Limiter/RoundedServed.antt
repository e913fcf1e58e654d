-- ===== src/Limiter/RoundedServed.antt =====
-- src/limiter.rs over binary64 with its rounding errors: what the handler lets through over time.
use trillium_ratelimit.Common.{
  ℕ, suc, ◌+◌, ◌-◌, ◌*◌, ◌≤◌, ◌<◌, ◌≡◌, false, Option, none, some, List, [], ◌∷◌, Text, All, length,
  arith,
}
use mathlib.Core.Logic.{if_pos, if_neg}
use native.Mathlib.Nat.{mul-le-mul_right}
use trillium_ratelimit.Time.{Instant, Duration, from_secs, max_duration}
use trillium_ratelimit.Quota.{Quota}
use trillium_ratelimit.Float.{F64, IsIeee, exact_max}
use trillium_ratelimit.Float.Rounded.{IsRounded, precision}
use trillium_ratelimit.Bucket.{Bucket, Decision, fresh, seconds_to_refill, refill_per_second}
use trillium_ratelimit.Bucket.Bounds.{fresh-IsValid}
use trillium_ratelimit.Bucket.Rate.{admitted, Ordered}
use trillium_ratelimit.Bucket.RoundedRate.{run-AtMost, fresh-AtMost}
use trillium_ratelimit.Store
use trillium_ratelimit.Store.{bucket_or_fresh}
use trillium_ratelimit.Store.Moka.{Cache, IsKeeping}
use trillium_ratelimit.Store.Partitions.{calls_of, run_key}
use trillium_ratelimit.Limiter.{RateLimiter, MissingKey}
use trillium_ratelimit.Limiter.Trillium.{ConnApi, IsConn}
use trillium_ratelimit.Limiter.Handler.{Course, course, passed, rejected, metered}
use trillium_ratelimit.Limiter.Serve.{call_of, metered_calls, through, serve}
use trillium_ratelimit.Limiter.Alone.{InOrder, run-run_key, metered_calls-Ordered, served_alone}

-- Calls for one token, of which there are at most `n`.
abbrev Singles : ℕ → List (Instant × ℕ) → Type 0
Singles n calls = All (λ call. call.1 ≤ exact_max) calls × (length calls ≤ n)

module _ {K : Type 0} (same : Discrete (Option K)) (k : Option K) where
  call_of-Singles :
      (n : ℕ) (now : Instant) (c : Course K) (calls : List (Instant × Option K × ℕ))
      → Singles n (calls_of same k calls)
      → Singles (suc n) (calls_of same k (call_of now c calls))
  unfolding calls_of
  call_of-Singles n now passed calls (h, l) = (h, omega arith)
  call_of-Singles n now rejected calls (h, l) = (h, omega arith)
  call_of-Singles n now (metered key) calls (h, l) = elim (same key k) [
    | yes p ↦ rw (if_pos _ p) ((omega arith, h), omega arith)
    | no p ↦ rw (if_neg _ p) (h, omega arith)
  ]

  metered_calls-Singles :
      (api : ConnApi) (extractor : api.Conn → Option K) (missing_key : MissingKey)
      (requests : List (Instant × api.Conn))
      → Singles
          (length requests)
          (calls_of same k (metered_calls api extractor missing_key requests))
  unfolding metered_calls calls_of
  metered_calls-Singles api extractor missing_key [] = (tt, omega arith)
  metered_calls-Singles api extractor missing_key ((now, conn) ∷ requests) =
      call_of-Singles _ now (course (extractor conn) missing_key) _
        (metered_calls-Singles api extractor missing_key requests)

module _ (f : F64) (ieee : IsIeee f) (rounded : IsRounded f) (q : Quota)
    (count_le : q.count ≤ exact_max) (window_le : q.window ≤ max_duration)
    (positive : 0 < q.window) where
  -- Of a key that the store does not hold.
  run_key-le :
      (start end : Instant) (calls : List (Instant × ℕ)) (o : Option (Bucket f))
      (ds : List Decision)
      → q.burst ≤ exact_max
      → All (λ call. call.1 ≤ exact_max) calls
      → run_key f none q calls ≡ some (o, ds)
      → Ordered start calls end
      → admitted calls ds * (q.window * precision)
        ≤ q.burst * (q.window * precision)
          + (end - start) * q.count * (precision + 11)
          + 2 * length calls * q.burst * q.window
  unfolding run_key bucket_or_fresh fresh
  run_key-le start end [] o ds burst_le fits h ordered = omega arith
  run_key-le start end ((now, cost) ∷ calls) o ds burst_le fits h (first, ordered) =
      let (b', e) = run-run_key f (fresh f now q) q ((now, cost) ∷ calls) o ds h in
      let bound =
        run-AtMost f ieee rounded q count_le window_le positive (fresh f now q) b' _
          ((now, cost) ∷ calls) ds end burst_le fits (fresh-IsValid f ieee now q)
          (fresh-AtMost f ieee rounded q count_le window_le positive now burst_le)
          (omega arith, ordered) e in
      let later : (end - now) * q.count ≤ (end - start) * q.count =
        mul-le-mul_right q.count (omega arith) in
      omega (arith, bound, later)

  module _ {K : Type 0} (moka : Cache (Option K) (Bucket f)) (keeps : IsKeeping moka)
      (same : Discrete (Option K)) (api : ConnApi) (conns : IsConn api) (random : ℕ → ℕ)
      (draws : (max : ℕ) → random max ≤ max) (encode : Text → Text) where
    open api use {Conn, is_halted}

    -- The handler keeps its promise to what it guards under the rounding of binary64 too: every
    -- request on a limiter with a new store is answered, and the requests under one key that go
    -- through up to a time are at most the burst, what accrues at the quota's rate until then and
    -- eleven parts in 2^53 of that, and two parts in 2^53 of the burst for each request, whatever
    -- the other keys ask. Both sides are multiplied by the window and by 2^53. The requests come in
    -- the order of their times, none is halted before, the connection meets its laws, `fastrand`
    -- stays in its bounds, the cache drops nothing meanwhile, the window is a duration and not
    -- zero, the count is a whole number that binary64 represents, and the time in which `m` tokens
    -- accrue, with the jitter and a second, is representable, `m` being such a number too and at
    -- least 1 and the burst. `f64` is any arithmetic that meets the facts of IEEE 754 and its
    -- error bounds.
    pub served-le-rounded_rate :
        (m : ℕ) (d : Duration) (l : RateLimiter f moka api) (cap : ℕ) (start end : Instant)
        (requests : List (Instant × Conn)) (k : Option K)
        → m ≤ exact_max
        → q.burst ≤ m
        → 1 ≤ m
        → seconds_to_refill f (f.of_u64 m) (refill_per_second f q) ≡ some d
        → l.store ≡ Store.new f moka q cap
        → d + l.jitter + from_secs 1 ≤ max_duration
        → InOrder start requests end
        → All (λ request. is_halted request.1 ≡ false) requests
        → (l' : RateLimiter f moka api) × (answers : List Conn) × (serve f moka api random encode l
              requests
            ≡ some (l', answers))
          × (through api l.extractor l.missing_key same k requests answers * (q.window * precision)
              ≤ q.burst * (q.window * precision)
                + (end - start) * q.count * (precision + 11)
                + 2 * length requests * q.burst * q.window)
    served-le-rounded_rate m d l cap start end requests k fits burst-le one full built room order
          fresh =
        let (l', answers, e, o, ds, mine, counted) =
          served_alone f ieee moka keeps same api conns random draws encode q m d (omega arith)
            burst-le one full l cap requests k built room fresh in
        let (costs, few) = metered_calls-Singles same k api l.extractor l.missing_key requests in
        let bound =
          run_key-le start end _ o ds (omega arith) costs mine
            (metered_calls-Ordered same k api l.extractor l.missing_key start end requests order) in
        (
          l',
          answers,
          e,
          rw counted (omega (arith, bound, mul-le-mul_right (q.burst * q.window) few)),
        )
