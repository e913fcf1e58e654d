-- ===== src/Bucket/RoundedRate.antt =====
-- src/bucket.rs over binary64 with its rounding errors: what a bucket admits over time.
use trillium_ratelimit.Common.{
  ℕ, ◌+◌, ◌-◌, ◌*◌, ◌≤◌, ◌<◌, ◌≡◌, some, List, [], ◌∷◌, All, length, arith,
}
use native.Mathlib.Nat.{mul-le-mul_right}
use trillium_ratelimit.Time.{Instant, Duration, max_duration, saturating_duration_since}
use trillium_ratelimit.Quota.{Quota}
use trillium_ratelimit.Float.{F64, IsIeee, exact_max}
use trillium_ratelimit.Float.Rounded.{IsRounded, precision}
use trillium_ratelimit.Bucket.{Bucket, Decision, fresh, seconds_to_refill, refill_per_second, run}
use trillium_ratelimit.Bucket.Bounds.{
  IsValid, run-cons, of_u64-IsNonneg, try_consume-Outcome, try_consume-IsValid, fresh-IsValid,
}
use trillium_ratelimit.Bucket.Total.{run_total}
use trillium_ratelimit.Bucket.Rate.{Ordered, Ordered-le, admitted, since_le}
use trillium_ratelimit.Bucket.Drift.{consume-AtMost}

costs_fit :
    (m : ℕ) (calls : List (Instant × ℕ))
    → m ≤ exact_max
    → All (λ call. call.1 ≤ m) calls
    → All (λ call. call.1 ≤ exact_max) calls
costs_fit m [] fits h = tt
costs_fit m (call ∷ calls) fits (h, hs) = (omega arith, costs_fit m calls fits hs)

module _ (f : F64) (ieee : IsIeee f) (rounded : IsRounded f) (q : Quota)
    (count_le : q.count ≤ exact_max) (window_le : q.window ≤ max_duration)
    (positive : 0 < q.window) where
  open rounded use {AtMost, AtMost-trans, of_u64-AtMost}

  pub run-AtMost :
      (b b' : Bucket f) (n : ℕ) (calls : List (Instant × ℕ)) (ds : List Decision) (end : Instant)
      → q.burst ≤ exact_max
      → All (λ call. call.1 ≤ exact_max) calls
      → IsValid f q b
      → AtMost b.tokens n (q.window * precision)
      → Ordered b.last_update calls end
      → run f b q calls ≡ some (b', ds)
      → admitted calls ds * (q.window * precision)
        ≤ n
          + (end - b.last_update) * q.count * (precision + 11)
          + 2 * length calls * q.burst * q.window
  unfolding run
  run-AtMost b b' n [] ds end burst_le fits valid at o e = omega arith
  run-AtMost b b' n ((now, cost) ∷ calls) ds end burst_le (fit, fits) valid at (o, os) e =
      let (next, d, rest, first, others, all) = run-cons f b q now cost calls b' ds e in
      let (m, at', le') =
        consume-AtMost f ieee rounded q count_le window_le positive burst_le b now cost next d n fit
          valid at first in
      let valid' = try_consume-IsValid f ieee b now q cost next d (omega arith) valid first in
      let stamp = (try_consume-Outcome f b now q cost next d first).stamped in
      let later =
        run-AtMost next b' m calls rest end burst_le fits valid' at' (rw stamp os) others in
      let passed : saturating_duration_since now b.last_update + (end - now) ≤ end - b.last_update =
        omega (arith, since_le now b.last_update, Ordered-le now calls end os) in
      rw all (omega (arith, le', rw stamp at later, mul-le-mul_right q.count passed))

  pub fresh-AtMost :
      (now : Instant)
      → q.burst ≤ exact_max
      → AtMost (fresh f now q).tokens (q.burst * (q.window * precision)) (q.window * precision)
  unfolding fresh
  fresh-AtMost now burst_le =
      AtMost-trans _ q.burst 1 _ _ (omega arith) (omega arith) (omega arith)
        (of_u64-AtMost q.burst burst_le)

  -- Conformance to the rate under rounding: a fresh bucket answers every call, and the cost that it
  -- admits up to a time is at most the burst, what accrues at the quota's rate until then and eleven
  -- parts in 2^53 of that, and two parts in 2^53 of the burst for each call. Both sides are
  -- multiplied by the window and by 2^53. The calls come in the order of their times, the window is
  -- a duration and not zero, the count is a whole number that binary64 represents, the time in
  -- which `m` tokens accrue is representable, `m` being such a number too and at least the burst
  -- and each cost, and `f64` any arithmetic that meets the facts of IEEE 754 and its error bounds.
  pub admitted-le-rounded_rate :
      (start end : Instant) (calls : List (Instant × ℕ)) (m : ℕ) (d : Duration)
      → m ≤ exact_max
      → q.burst ≤ m
      → All (λ call. call.1 ≤ m) calls
      → seconds_to_refill f (f.of_u64 m) (refill_per_second f q) ≡ some d
      → Ordered start calls end
      → (b' : Bucket f) × (ds : List Decision) × (run f (fresh f start q) q calls ≡ some (b', ds))
        × (admitted calls ds * (q.window * precision)
            ≤ q.burst * (q.window * precision)
              + (end - start) * q.count * (precision + 11)
              + 2 * length calls * q.burst * q.window)
  unfolding fresh
  admitted-le-rounded_rate start end calls m d fits burst-le costs full o =
      let b : Bucket f = fresh f start q in
      let (b', ds, e) =
        run_total f ieee q m d (omega arith) full b calls burst-le costs
          (of_u64-IsNonneg f ieee q.burst) in
      (
        b',
        ds,
        e,
        run-AtMost b b' _ calls ds end (omega arith) (costs_fit m calls fits costs)
            (fresh-IsValid f ieee start q) (fresh-AtMost start (omega arith)) o e,
      )
