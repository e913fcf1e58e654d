-- ===== src/Bucket/Rate.antt =====
-- src/bucket.rs over exact arithmetic: what a bucket admits over time.
use trillium_ratelimit.Common.{
  ℕ, ◌+◌, ◌-◌, ◌*◌, ◌≤◌, ◌<◌, ◌≡◌, Bool-cases, inl, inr, ap, leb→le, some, List, [], ◌∷◌, arith,
  leb, if◌then◌else◌, All, u64_max,
}
use native.Mathlib.Nat.{mul-le-mul_right, le_trans}
use trillium_ratelimit.Time.{Instant, Duration, saturating_duration_since}
use trillium_ratelimit.Quota.{Quota}
use trillium_ratelimit.Float.Exact.{exact, exact-IsIeee}
use trillium_ratelimit.Bucket.{Bucket, Decision, fresh, seconds_to_refill, refill_per_second, run}
use trillium_ratelimit.Bucket.Bounds.{run-cons, of_u64-IsNonneg}
use trillium_ratelimit.Bucket.Total.{run_total}
use trillium_ratelimit.Bucket.Scaled.{Amount, filled, paid, fresh-Amount, try_consume-Amount}

-- The cost of the attempts that were admitted.
abbrev pub admitted : List (Instant × ℕ) → List Decision → ℕ
admitted [] ds = 0
admitted ((now, cost) ∷ calls) [] = 0
admitted ((now, cost) ∷ calls) (d ∷ ds) = (if d.allowed then cost else 0) + admitted calls ds

-- The calls come in the order of their times, from `start` to `end`.
abbrev pub Ordered : Instant → List (Instant × ℕ) → Instant → Type 0
Ordered start [] end = start ≤ end
Ordered start ((now, cost) ∷ calls) end = (start ≤ now) × Ordered now calls end

pub Ordered-le :
    (start : Instant) (calls : List (Instant × ℕ)) (end : Instant)
    → Ordered start calls end
    → start ≤ end
Ordered-le start [] end h = h
Ordered-le start ((now, cost) ∷ calls) end (h, hs) = le_trans h (Ordered-le now calls end hs)

pub since_le : (now t : Instant) → saturating_duration_since now t ≤ now - t
unfolding saturating_duration_since
since_le now t = ground arith

-- One attempt: what it takes and leaves was there or has accrued.
pub step_le :
    (q : Quota) (n e elapsed cost : ℕ)
    → e ≤ elapsed
    → (if leb (cost * q.window) (filled q n e) then cost else 0) * q.window
        + paid q (filled q n e) cost
      ≤ n + elapsed * q.count
step_le q n e elapsed cost h =
    le_trans (split (filled q n e)) (filled_le (mul-le-mul_right q.count h))
  where
    filled_le : e * q.count ≤ elapsed * q.count → filled q n e ≤ n + elapsed * q.count
    filled_le m = ground arith

    split :
        (full : ℕ)
        → (if leb (cost * q.window) full then cost else 0) * q.window + paid q full cost ≤ full
    split full = elim (Bool-cases (leb (cost * q.window) full)) [
      | inl e ↦ rw e (omega (arith, leb→le _ _ e))
      | inr e ↦ rw e (omega arith)
    ]

module _ (q : Quota) (positive : 0 < q.window) where
  pub run_le :
      (b b' : Bucket exact) (n : ℕ) (calls : List (Instant × ℕ)) (ds : List Decision)
      (end : Instant)
      → Amount q.window n b.tokens
      → Ordered b.last_update calls end
      → run exact b q calls ≡ some (b', ds)
      → admitted calls ds * q.window ≤ n + (end - b.last_update) * q.count
  unfolding run
  run_le b b' n [] ds end h o e = omega arith
  run_le b b' n ((now, cost) ∷ calls) ds end h (o, os) e =
      let (next, d, rest, first, others, all) = run-cons exact b q now cost calls b' ds e in
      let (amount, stamp, admits, _) = try_consume-Amount q positive b now n cost next d h first in
      let later = run_le next b' _ calls rest end amount (rw stamp os) others in
      let this =
        step_le q n (saturating_duration_since now b.last_update) (now - b.last_update) cost
          (since_le now b.last_update) in
      let whole : end - b.last_update ≡ (now - b.last_update) + (end - now) =
        omega (arith, Ordered-le now calls end os) in
      rw (all, admits) (omega (arith, this, rw stamp at later, ap (λ (t : ℕ). t * q.count) whole))

  -- Whatever is asked, and however often: over exact arithmetic a fresh bucket answers every call,
  -- and the cost that it admits up to a time is at most the burst and what accrues at the quota's
  -- rate until then. Both sides are multiplied by the window. The calls reach the bucket in the
  -- order of their times, and the time in which `m` tokens accrue is representable, `m` being at
  -- least the burst and each cost. The window is not zero, and `m` is a `u64`.
  pub admitted-le-rate :
      (start end : Instant) (calls : List (Instant × ℕ)) (m : ℕ) (d : Duration)
      → m ≤ u64_max
      → q.burst ≤ m
      → All (λ call. call.1 ≤ m) calls
      → seconds_to_refill exact (exact.of_u64 m) (refill_per_second exact q) ≡ some d
      → Ordered start calls end
      → (b' : Bucket exact) × (ds : List Decision) × (run exact (fresh exact start q) q calls
          ≡ some (b', ds))
        × (admitted calls ds * q.window ≤ q.burst * q.window + (end - start) * q.count)
  unfolding fresh
  admitted-le-rate start end calls m d fits burst-le costs full o =
      let b : Bucket exact = fresh exact start q in
      let (b', ds, e) =
        run_total exact exact-IsIeee q m d fits full b calls burst-le costs
          (of_u64-IsNonneg exact exact-IsIeee q.burst) in
      (b', ds, e, run_le b b' _ calls ds end (fresh-Amount q positive start) o e)
