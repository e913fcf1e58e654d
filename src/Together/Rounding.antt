-- ===== src/Together/Rounding.antt =====
-- src/client.rs and src/bucket.rs over exact arithmetic: a throttle whose interval is rounded down.
use trillium_ratelimit.Common.{
  ℕ, zero, suc, ◌+◌, ◌-◌, ◌*◌, ◌≤◌, ◌<◌, ◌≡◌, refl, ap, none, some, List, [], ◌∷◌, All, Text, arith,
  length, leb, leb→le, inl, inr, Bool-cases, get_elem?, replicate, u32_max,
}
use native.Mathlib.Nat.{mul-le-mul_right}
use trillium_ratelimit.Time.{Instant, Duration, max_duration}
use trillium_ratelimit.Quota.{Quota}
use trillium_ratelimit.Float.Exact.{exact}
use trillium_ratelimit.Bucket.{Bucket, Decision, fresh, seconds_to_refill, refill_per_second, run}
use trillium_ratelimit.Bucket.Rate.{admitted, Ordered, admitted-le-rate}
use trillium_ratelimit.Client.Throttle.{Throttle, new, tolerance_of}
use trillium_ratelimit.Client.New.{new_lem}
use trillium_ratelimit.Client.Pacing.{claims, length-claims}
use trillium_ratelimit.Client.Burst.{burst_then_paced}
use trillium_ratelimit.Client.Order.{Ascends, starts_ascend}
use trillium_ratelimit.Together.Paced.{arrivals, arrivals-one}

arrivals-Ordered :
    (low end lag : ℕ) (starts : List Instant)
    → Ascends low starts
    → low ≤ end
    → All (λ s. s ≤ end) starts
    → Ordered (low + lag) (arrivals lag starts) (end + lag)
arrivals-Ordered low end lag [] up h early = omega arith
arrivals-Ordered low end lag (s ∷ starts) (up, ups) h (here, early) =
    (omega arith, arrivals-Ordered s end lag starts ups here early)

All-get_elem? :
    (P : ℕ → Type 0) (xs : List ℕ)
    → ((n x : ℕ) → n < length xs → get_elem? xs n ≡ some x → P x)
    → All P xs
All-get_elem? P [] h = tt
All-get_elem? P (x ∷ xs) h =
    (h 0 x (omega arith) refl, All-get_elem? P xs λ n y lt e. h (suc n) y (omega arith) e)

length-replicate : (n : ℕ) (x : Instant) → length (replicate n x) ≡ n
length-replicate zero x = refl
length-replicate (suc n) x = ap suc (length-replicate n x)

Ascends-replicate : (n : ℕ) (x : Instant) → Ascends x (replicate n x)
Ascends-replicate zero x = tt
Ascends-replicate (suc n) x = (omega arith, Ascends-replicate n x)

All-replicate : (n : ℕ) (x : Instant) → All (λ y. y ≤ x) (replicate n x)
All-replicate zero x = tt
All-replicate (suc n) x = (omega arith, All-replicate n x)

-- A burst and one request more, all claimed at once: none proceeds later than an interval after.
starts-le-interval :
    {Url : Type 0} (latest : Instant) (span : latest ≤ max_duration) (scope : Text) (now : Instant)
    (t : Throttle Url) (q : Quota)
    → t.quota ≡ q
    → t.state scope ≡ none
    → t.tolerance ≡ tolerance_of t.interval q
    → 0 < q.burst
    → q.burst ≤ u32_max
    → t.interval * (q.burst - 1) ≤ max_duration
    → now + suc q.burst * t.interval ≤ latest
    → All (λ s. s ≤ now + t.interval) (claims latest t scope (replicate (suc q.burst) now)).1
starts-le-interval latest span scope now t q same unclaimed tolerance some_burst small fits room =
    All-get_elem? (λ s. s ≤ now + t.interval) _
      λ n x lt e.
        let within : n < suc q.burst =
          rw
            (
              length-claims latest t scope (replicate (suc q.burst) now),
              length-replicate (suc q.burst) now,
            )
            at lt in
        let starts =
          burst_then_paced latest span scope now t (suc q.burst) n unclaimed (rw same tolerance)
            (rw same some_burst) (rw same small) (rw same fits) room within in
        let here : x ≡ now + (n + 1 - q.burst) * t.interval = cc (e, rw same at starts) in
        let one : (n + 1 - q.burst) * t.interval ≤ 1 * t.interval =
          mul-le-mul_right t.interval (omega arith) in
        omega (arith, here, one)

at_most : (n burst w i c : ℕ) → n * w ≤ burst * w + i * c → i * c < w → n ≤ burst
at_most n burst w i c h short = elim (Bool-cases (leb n burst)) [
  | inl e ↦ leb→le n burst e
  | inr e ↦
      let more : suc burst ≤ n = ground (arith, e) in
      absurd (omega (arith, h, short, mul-le-mul_right w more))
]

-- Where the interval of a new throttle is rounded down, client and server disagree on the quota: of
-- a burst and one request more that claim at once on it and reach the server some fixed time after
-- they proceed, a fresh bucket of the same quota admits at most the burst. Arithmetic is exact. The
-- window is not zero, the burst is between 1 and 2^32 - 1, the tolerance does not saturate, no
-- arrival time passes the last instant of the platform, whose instants span at most the greatest
-- duration, and the time in which the burst accrues is representable.
pub rounded_down_refused :
    {Url : Type 0} (origin_scope : Url → Text) (q : Quota) (t : Throttle Url) (scope : Text)
    (lag d : Duration) (latest now : Instant)
    → new exact origin_scope q ≡ some t
    → 0 < q.window
    → 0 < q.burst
    → q.burst ≤ u32_max
    → seconds_to_refill exact (exact.of_u64 q.burst) (refill_per_second exact q) ≡ some d
    → t.interval * q.count < q.window
    → t.interval * (q.burst - 1) ≤ max_duration
    → latest ≤ max_duration
    → now + suc q.burst * t.interval ≤ latest
    → let calls = arrivals lag (claims latest t scope (replicate (suc q.burst) now)).1 in
      (b' : Bucket exact) × (ds : List Decision) × (run exact (fresh exact (now + lag) q) q calls
        ≡ some (b', ds))
      × (admitted calls ds ≤ q.burst)
rounded_down_refused origin_scope q t scope lag d latest now made positive some_burst small full
      short fits span room =
    let (same, tolerance, unclaimed) = new_lem origin_scope q t scope made in
    let starts = (claims latest t scope (replicate (suc q.burst) now)).1 in
    let early =
      starts-le-interval latest span scope now t q same unclaimed tolerance some_burst small fits
        room in
    let others = length-replicate q.burst now in
    let up =
      starts_ascend latest span scope t now now now (replicate q.burst now) (rw unclaimed)
        (omega arith) (omega arith) (Ascends-replicate q.burst now) (All-replicate q.burst now)
        (rw others room) in
    let order = arrivals-Ordered now (now + t.interval) lag starts up (omega arith) early in
    let (b', ds, e, bound) =
      admitted-le-rate q positive (now + lag) (now + t.interval + lag) (arrivals lag starts) q.burst
        d (omega arith) (omega arith) (arrivals-one q.burst lag starts some_burst) full order in
    let passed : now + t.interval + lag - (now + lag) ≡ t.interval = omega arith in
    (b', ds, e, at_most _ q.burst q.window t.interval q.count (rw passed at bound) short)
