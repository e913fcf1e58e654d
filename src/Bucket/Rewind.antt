-- ===== src/Bucket/Rewind.antt =====
-- src/bucket.rs over exact arithmetic, with the attempts in any order of their times: `try_consume`
-- stamps the bucket with the time that its caller read, which src/store.rs reads before the key's
-- entry is locked.
use trillium_ratelimit.Common.{
  ℕ, ◌+◌, ◌-◌, ◌*◌, ◌≤◌, ◌<◌, ◌≡◌, ap, some, List, [], ◌∷◌, arith, leb, leb→le, le→leb, All,
  u64_max, Bool-cases, inl, inr, true, false,
}
use native.Mathlib.Nat.{mul-pos}
use trillium_ratelimit.Time.{Instant, Duration, max_duration, saturating_duration_since}
use trillium_ratelimit.Quota.{Quota}
use trillium_ratelimit.Float.Exact.{exact, exact-IsIeee}
use trillium_ratelimit.Bucket.{Bucket, Decision, fresh, seconds_to_refill, refill_per_second, run}
use trillium_ratelimit.Bucket.Bounds.{run-cons, of_u64-IsNonneg}
use trillium_ratelimit.Bucket.Total.{run_total}
use trillium_ratelimit.Bucket.Scaled.{Amount, filled, fresh-Amount, try_consume-Amount}
use trillium_ratelimit.Bucket.Rate.{admitted, since_le, step_le}

-- The time that the attempts go forward from `t` on, each step forward counted.
abbrev pub forward : Instant → List (Instant × ℕ) → ℕ
forward t [] = 0
forward t ((now, cost) ∷ calls) = (now - t) + forward now calls

-- Four attempts for the whole burst, the third of which goes back to the time of the first.
abbrev pub there_and_back : Quota → Instant → List (Instant × ℕ)
there_and_back q t =
    (t, q.burst) ∷ (t + q.window, q.burst) ∷ (t, q.burst) ∷ (t + q.window, q.burst) ∷ []

module _ (q : Quota) (positive : 0 < q.window) where
  run_le-forward :
      (b b' : Bucket exact) (n : ℕ) (calls : List (Instant × ℕ)) (ds : List Decision)
      → Amount q.window n b.tokens
      → run exact b q calls ≡ some (b', ds)
      → admitted calls ds * q.window ≤ n + forward b.last_update calls * q.count
  unfolding run
  run_le-forward b b' n [] ds h e = omega arith
  run_le-forward b b' n ((now, cost) ∷ calls) ds h e =
      let (next, d, rest, first, others, all) = run-cons exact b q now cost calls b' ds e in
      let (amount, stamp, admits, _) = try_consume-Amount q positive b now n cost next d h first in
      let later = run_le-forward next b' _ calls rest amount others in
      let this =
        step_le q n (saturating_duration_since now b.last_update) (now - b.last_update) cost
          (since_le now b.last_update) in
      rw (all, admits) (omega (arith, this, rw stamp at later))

  -- Without any order of the calls' times, as when threads read the clock in one order and take the
  -- key's lock in another: over exact arithmetic a fresh bucket answers every call, and the cost
  -- that it admits is at most the burst and what accrues while the times go forward, each step
  -- forward counted. Both sides are multiplied by the window. The time in which `m` tokens accrue is
  -- representable, `m` being at least the burst and each cost. The window is not zero, and `m` is a
  -- `u64`.
  pub admitted-le-forward :
      (start : Instant) (calls : List (Instant × ℕ)) (m : ℕ) (d : Duration)
      → m ≤ u64_max
      → q.burst ≤ m
      → All (λ call. call.1 ≤ m) calls
      → seconds_to_refill exact (exact.of_u64 m) (refill_per_second exact q) ≡ some d
      → (b' : Bucket exact) × (ds : List Decision) × (run exact (fresh exact start q) q calls
          ≡ some (b', ds))
        × (admitted calls ds * q.window ≤ q.burst * q.window + forward start calls * q.count)
  unfolding fresh
  admitted-le-forward start calls m d fits burst-le costs full =
      let b : Bucket exact = fresh exact start q in
      let (b', ds, e) =
        run_total exact exact-IsIeee q m d fits full b calls burst-le costs
          (of_u64-IsNonneg exact exact-IsIeee q.burst) in
      (b', ds, e, run_le-forward b b' _ calls ds (fresh-Amount q positive start) e)

  -- An attempt that finds the bucket full takes all of it.
  takes :
      (b b' : Bucket exact) (n : ℕ) (now : Instant) (calls : List (Instant × ℕ))
      (ds : List Decision)
      → Amount q.window n b.tokens
      → q.burst * q.window ≤ n + saturating_duration_since now b.last_update * q.count
      → run exact b q ((now, q.burst) ∷ calls) ≡ some (b', ds)
      → (next : Bucket exact) × (rest : List Decision) × Amount q.window 0 next.tokens
        × (next.last_update ≡ now)
        × (run exact next q calls ≡ some (b', rest))
        × (admitted ((now, q.burst) ∷ calls) ds ≡ q.burst + admitted calls rest)
  takes b b' n now calls ds h enough e =
      let (next, d, rest, first, others, all) = run-cons exact b q now q.burst calls b' ds e in
      let (amount, stamp, admits, _) =
        try_consume-Amount q positive b now n q.burst next d h first in
      let full : filled q n (saturating_duration_since now b.last_update) ≡ q.burst * q.window =
        ground (arith, enough) in
      let covered : leb (q.burst * q.window) (q.burst * q.window) ≡ true =
        le→leb _ _ (omega arith) in
      let none_left : q.burst * q.window - q.burst * q.window ≡ 0 = omega arith in
      (
        next,
        rest,
        rw (full, covered, none_left) at amount,
        stamp,
        others,
        rw (all, admits, full, covered) (omega arith),
      )

  -- An attempt that finds the bucket empty is refused, and moves its clock.
  waits :
      (b b' : Bucket exact) (now : Instant) (calls : List (Instant × ℕ)) (ds : List Decision)
      → Amount q.window 0 b.tokens
      → 0 < q.burst
      → saturating_duration_since now b.last_update ≡ 0
      → run exact b q ((now, q.burst) ∷ calls) ≡ some (b', ds)
      → (next : Bucket exact) × (rest : List Decision) × Amount q.window 0 next.tokens
        × (next.last_update ≡ now)
        × (run exact next q calls ≡ some (b', rest))
        × (admitted ((now, q.burst) ∷ calls) ds ≡ admitted calls rest)
  waits b b' now calls ds h some_burst still e =
      let (next, d, rest, first, others, all) = run-cons exact b q now q.burst calls b' ds e in
      let (amount, stamp, admits, _) =
        try_consume-Amount q positive b now 0 q.burst next d h first in
      let empty : filled q 0 (saturating_duration_since now b.last_update) ≡ 0 =
        rw still (ground arith) in
      let short : leb (q.burst * q.window) 0 ≡ false =
        elim (Bool-cases (leb (q.burst * q.window) 0)) [
          | inl below ↦ absurd (omega (arith, leb→le _ _ below, mul-pos some_burst positive))
          | inr above ↦ above
        ] in
      (
        next,
        rest,
        rw (empty, short) at amount,
        stamp,
        others,
        rw (all, admits, empty, short) (omega arith),
      )

  -- Four attempts for the whole burst whose times go back once, as they may for threads that read
  -- the clock before the key is locked. Over exact arithmetic, with a burst of the quota's count,
  -- they are all answered, and more is admitted between the first time and the last, a window
  -- later, than the burst and what accrues at the quota's rate in a window. The window is a
  -- `Duration` and, like the count, not zero, the burst is a `u64`, and the time in which it
  -- accrues is representable.
  pub rewind_over_admits :
      (t : Instant) (d : Duration)
      → q.window ≤ max_duration
      → 0 < q.count
      → q.burst ≡ q.count
      → q.burst ≤ u64_max
      → seconds_to_refill exact (exact.of_u64 q.burst) (refill_per_second exact q) ≡ some d
      → (b' : Bucket exact) × (ds : List Decision) × (run exact
            (fresh exact t q)
            q
            (there_and_back q t)
          ≡ some (b', ds))
        × (q.burst * q.window + (t + q.window - t) * q.count
            < admitted (there_and_back q t) ds * q.window)
  unfolding fresh saturating_duration_since
  rewind_over_admits t d representable counts same fits full =
      let late = t + q.window in
      let third : List (Instant × ℕ) = (t, q.burst) ∷ (late, q.burst) ∷ [] in
      let second : List (Instant × ℕ) = (late, q.burst) ∷ third in
      let b : Bucket exact = fresh exact t q in
      let (b', ds, e) =
        run_total exact exact-IsIeee q q.burst d fits full b ((t, q.burst) ∷ second) (omega arith)
          (omega arith, (omega arith, (omega arith, (omega arith, tt))))
          (of_u64-IsNonneg exact exact-IsIeee q.burst) in
      let window : q.burst * q.window ≡ q.window * q.count = rw same (omega arith) in
      let (b1, ds1, a1, s1, e1, all1) =
        takes b b' _ t second ds (fresh-Amount q positive t) (omega arith) e in
      let (b2, ds2, a2, s2, e2, all2) =
        takes b1 b' 0 late third ds1 a1 (rw (s1, elapsed t) (omega (arith, window))) e1 in
      let (b3, ds3, a3, s3, e3, all3) =
        waits b2 b' t _ ds2 a2 (rw same counts) (rw s2 (back t)) e2 in
      let (b4, ds4, a4, s4, e4, all4) =
        takes b3 b' 0 late [] ds3 a3 (rw (s3, elapsed t) (omega (arith, window))) e3 in
      let more : 0 < q.burst * q.window = mul-pos (rw same counts) positive in
      let passed : (late - t) * q.count ≡ q.window * q.count =
        ap (λ (n : ℕ). n * q.count) (omega arith) in
      (b', ds, e, rw (all1, all2, all3, all4) (omega (arith, window, more, passed)))
    where
      elapsed : (t : Instant) → saturating_duration_since (t + q.window) t ≡ q.window
      elapsed t = ground arith

      back : (t : Instant) → saturating_duration_since t (t + q.window) ≡ 0
      back t = ground arith
