-- ===== src/Together/Paced.antt =====
-- src/client.rs and src/bucket.rs over exact arithmetic: a client that paces itself by the quota that
-- the server enforces.
pub mod Debt
use trillium_ratelimit.Common.{
  ℕ, suc, ◌+◌, ◌-◌, ◌*◌, ◌≤◌, ◌<◌, ◌≡◌, ◌∙◌, refl, sym, ap, subst, true, some, List, [], ◌∷◌, none,
  zero, inl, inr, Bool-cases, min, u32_max, >>=-eq-some, All, Text, arith, max, length, leb, le→leb,
  u64_max,
}
use trillium_ratelimit.Time.{Instant, Duration, max_duration, saturating_duration_since}
use trillium_ratelimit.Quota.{Quota}
use trillium_ratelimit.Float.Exact.{exact, exact-IsIeee}
use trillium_ratelimit.Bucket.{Bucket, Decision, fresh, seconds_to_refill, refill_per_second, run}
use trillium_ratelimit.Bucket.Bounds.{run-cons}
use trillium_ratelimit.Bucket.Scaled.{Amount, filled, paid, fresh-Amount, try_consume-Amount}
use trillium_ratelimit.Client.Throttle.{Throttle, or_insert, new, proceed_at, claim}
use trillium_ratelimit.Client.Pacing.{
  claims, claim_lem, Due, Due-of_some, All-le-weaken, proceed_at_bounds,
}
use trillium_ratelimit.Client.New.{tolerance_of-le, new_lem}
use trillium_ratelimit.Bucket.Bounds.{of_u64-IsNonneg}
use trillium_ratelimit.Bucket.Total.{run_total}
use Debt.{Owes, Owes-next}

-- The requests of a client at the server, each after `lag`, for one token each.
abbrev pub arrivals : Duration → List Instant → List (Instant × ℕ)
arrivals lag [] = []
arrivals lag (start ∷ starts) = (start + lag, 1) ∷ arrivals lag starts

since_lag :
    (p p' lag last : Instant)
    → last ≡ p + lag
    → p' - p ≤ max_duration
    → saturating_duration_since (p' + lag) last ≡ p' - p
unfolding saturating_duration_since
since_lag p p' lag last e h =
    let apart : p' + lag - (p + lag) ≡ p' - p = omega arith in rw (e, apart, le→leb _ _ h)

paid_one : (q : Quota) (full : ℕ) → q.window ≤ full → paid q full 1 ≡ full - q.window
paid_one q full h = let one : 1 * q.window ≡ q.window = omega arith in rw (one, le→leb _ _ h)

module _ (q : Quota) (positive : 0 < q.window) (k : ℕ) (burst : q.burst ≡ k + 1) (i : Duration)
    (moves : 0 < i) (slots : q.window ≤ i * q.count) (lag : Duration) {Url : Type 0}
    (latest : Instant) (span : latest ≤ max_duration) (scope : Text) where
  -- What the server and the client hold after a request that the server saw at `p`.
  record Aligned (t : Throttle Url) (b : Bucket exact) (tat p : Instant) : Type 0 where
    level : ℕ
    tokens : Amount q.window level b.tokens
    stamped : b.last_update ≡ p + lag
    owes : Owes q k i burst moves slots level (tat - p)
    interval : t.interval ≡ i
    tolerance : t.tolerance ≤ k * i

  -- One request: it is admitted, and leaves the two aligned.
  step :
      (t : Throttle Url) (b b' : Bucket exact) (tat p now : Instant) (starts : List Instant)
      (ds : List Decision)
      → Aligned t b tat p
      → or_insert (t.state scope) now ≡ tat
      → max tat now + i ≤ latest
      → let t' = (claim latest t scope now).0 in
        run exact b q (arrivals lag ((now + (claim latest t scope now).1) ∷ starts)) ≡ some (b', ds)
        → (next : Bucket exact) × (d : Decision) × (rest : List Decision) × (ds ≡ d ∷ rest)
          × (d.allowed ≡ true)
          × (run exact next q (arrivals lag starts) ≡ some (b', rest))
          × Aligned t' next (max tat now + i) (proceed_at t tat now)
          × (t'.state scope ≡ some (max tat now + i))
          × (t'.tolerance ≡ t.tolerance)
  step t b b' tat p now starts ds a due room h =
      let p' = proceed_at t tat now in
      let (start, kept, interval, tolerance) =
        claim_lem latest t scope now tat span (omega (arith, a.interval)) due in
      let (next, d, rest, first, others, all) =
        run-cons exact b q (now + (claim latest t scope now).1 + lag) 1 (arrivals lag starts) b' ds
          h in
      let (amount, stamp, admits, _) =
        try_consume-Amount q positive b _ a.level 1 next d a.tokens first in
      let (low, near, high) = proceed_at_bounds t tat now in
      let since = since_lag p p' lag b.last_update a.stamped (omega arith) in
      let (enough, owes) =
        Owes-next q k i burst moves slots a.level (p' - p) (tat - p) (tat - p') (max tat now - p')
          a.owes (omega arith) (omega (arith, a.tolerance)) (omega arith) in
      let one : 1 * q.window ≡ q.window = omega arith in
      let after : max tat now - p' + i ≡ max tat now + i - p' = omega arith in
      let full = filled q a.level (p' - p) in
      (
        next,
        d,
        rest,
        all,
        rw (admits, start, since, one, le→leb _ _ enough),
        others,
        record {
          level = full - q.window;
          tokens = rw (start, since, paid_one q full enough) at amount;
          stamped = stamp ∙ ap (λ (s : ℕ). s + lag) start;
          owes = rw after at owes;
          interval = interval ∙ a.interval;
          tolerance = rw tolerance a.tolerance;
        },
        rw (← a.interval) kept,
        tolerance,
      )

  requests_admitted :
      (t : Throttle Url) (b b' : Bucket exact) (tat p bound : Instant) (nows : List Instant)
      (ds : List Decision)
      → Aligned t b tat p
      → Due t scope nows tat
      → tat ≤ bound
      → All (λ now. now ≤ bound) nows
      → bound + length nows * i ≤ latest
      → run exact b q (arrivals lag (claims latest t scope nows).1) ≡ some (b', ds)
      → All (λ d. d.allowed ≡ true) ds
  unfolding claims run
  requests_admitted t b b' tat p bound [] ds a due low early room h =
      let e : [] ≡ ds = cc h in subst (All (λ d. d.allowed ≡ true)) e tt
  requests_admitted t b b' tat p bound (now ∷ nows) ds a due low (here, early) room h =
      let t' = (claim latest t scope now).0 in
      let (next, d, rest, all, admitted, others, a', held, _) =
        step t b b' tat p now (claims latest t' scope nows).1 ds a due (omega arith) h in
      rw all (
        admitted,
        requests_admitted t' next b' _ _ (bound + i) nows rest a' (Due-of_some t' scope nows _ held)
            (omega arith) (All-le-weaken nows (omega arith) early) (omega arith) others,
      )

moving : (w i c : ℕ) → 0 < w → w ≤ i * c → 0 < i
moving w zero c positive h = absurd (omega (arith, h))
moving w (suc i) c positive h = omega arith

pub arrivals-one :
    (m : ℕ) (lag : Duration) (starts : List Instant)
    → 1 ≤ m
    → All (λ call. call.1 ≤ m) (arrivals lag starts)
arrivals-one m lag [] h = tt
arrivals-one m lag (start ∷ starts) h = (h, arrivals-one m lag starts h)

-- Client and server agree on the quota: over exact arithmetic, a server that gets one client's
-- requests, each some fixed time after it proceeds, from a new throttle of the quota that the
-- server's fresh bucket enforces, admits every one of them, in the order of their claims and
-- whenever they claim. The window and the burst are not zero, the throttle's interval is not
-- rounded down, and the claims are early enough that no arrival time passes the last instant of the
-- platform, whose instants span at most the greatest duration. The burst is a `u64`, and the time
-- in which it accrues is representable.
pub paced_client_admitted :
    {Url : Type 0} (origin_scope : Url → Text) (q : Quota) (t : Throttle Url) (scope : Text)
    (lag d : Duration) (latest bound now : Instant) (nows : List Instant)
    → new exact origin_scope q ≡ some t
    → 0 < q.window
    → 0 < q.burst
    → q.burst ≤ u64_max
    → seconds_to_refill exact (exact.of_u64 q.burst) (refill_per_second exact q) ≡ some d
    → q.window ≤ t.interval * q.count
    → latest ≤ max_duration
    → now ≤ bound
    → All (λ later. later ≤ bound) nows
    → bound + suc (length nows) * t.interval ≤ latest
    → (b' : Bucket exact) × (ds : List Decision) × (run exact
          (fresh exact (now + lag) q)
          q
          (arrivals lag (claims latest t scope (now ∷ nows)).1)
        ≡ some (b', ds))
      × All (λ d. d.allowed ≡ true) ds
unfolding fresh
paced_client_admitted origin_scope q t scope lag d latest bound now nows made positive some_burst
      fits full slots span here early room =
    let (_, tolerance, unclaimed) = new_lem origin_scope q t scope made in
    let b : Bucket exact = fresh exact (now + lag) q in
    let calls = arrivals lag (claims latest t scope (now ∷ nows)).1 in
    let (b', ds, e) =
      run_total exact exact-IsIeee q q.burst d fits full b calls (omega arith)
        (arrivals-one q.burst lag (claims latest t scope (now ∷ nows)).1 some_burst)
        (of_u64-IsNonneg exact exact-IsIeee q.burst) in
    let k = q.burst - 1 in
    let burst : q.burst ≡ k + 1 = omega arith in
    let moves = moving q.window t.interval q.count positive slots in
    let whole : q.burst * q.window ≡ (k + 1) * q.window = ap (λ (n : ℕ). n * q.window) burst in
    let none_owed : Owes q k t.interval burst moves slots (q.burst * q.window) (now - now) =
      rw whole (omega arith) in
    let aligned : Aligned q positive k burst t.interval moves slots lag latest span scope t b now
        now =
      record {
        level = q.burst * q.window;
        tokens = fresh-Amount q positive (now + lag);
        stamped = refl;
        owes = none_owed;
        interval = refl;
        tolerance = rw tolerance (tolerance_of-le t.interval q);
      } in
    (
      b',
      ds,
      e,
      requests_admitted q positive k burst t.interval moves slots lag latest span scope t b b' now
          now bound (now ∷ nows) ds aligned (rw unclaimed) here (here, early) room e,
    )
