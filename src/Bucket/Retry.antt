-- ===== src/Bucket/Retry.antt =====
-- src/bucket.rs over exact arithmetic: what the wait of a refused request is worth.
use trillium_ratelimit.Common.{
  ℕ, zero, suc, ◌+◌, ◌-◌, ◌*◌, ◌/◌, ◌≤◌, ◌<◌, ◌≡◌, ◌∙◌, refl, sym, true, false, Bool-cases, inl,
  inr, some, none, arith, leb, le→leb,
}
use mathlib.Core.Option
use mathlib.Core.Option.{Option}
use native.Mathlib.Nat.{mul-le-mul_right, lt-div-mul-add, le_of_mul-le-mul_right, mul-pos}
use trillium_ratelimit.Time.{Instant, Duration, saturating_duration_since, max_duration}
use trillium_ratelimit.Quota.{Quota}
use trillium_ratelimit.Float.Exact.{
  Fraction, frac, infinite, nan, exact, le, div, of_u64, as_secs_f64, from_secs_f64, nearest,
}
use trillium_ratelimit.Bucket.{Bucket, Decision, refill_per_second, seconds_to_refill, try_consume}
use trillium_ratelimit.Bucket.Bounds.{try_consume-Outcome}
use trillium_ratelimit.Bucket.Scaled.{Amount, filled, try_consume-Amount, of_u64-Amount, sub-Amount}

pub div_pos : (a b c d : ℕ) → 0 < c → div (frac a b) (frac c d) ≡ frac (a * suc d) (suc b * c - 1)
unfolding div
div_pos a b zero d h = absurd (omega arith)
div_pos zero b (suc c) d h = refl
div_pos (suc a) b (suc c) d h = refl

pub as_secs_pos : (d : ℕ) → 0 < d → as_secs_f64 d ≡ frac d 999_999_999
unfolding as_secs_f64
as_secs_pos zero h = absurd (omega arith)
as_secs_pos (suc d) h = refl

rate_lem :
    (q : Quota)
    → 0 < q.window
    → refill_per_second exact q ≡ frac (q.count * 1_000_000_000) (1 * q.window - 1)
unfolding of_u64 refill_per_second
rate_lem q h =
    rw (refill_per_second, as_secs_pos q.window h) (div_pos q.count 0 q.window 999_999_999 h)

-- In one nanosecond more than the wait, rounded to the nearest, all that was needed accrues.
nearest_covers :
    (a b need count window : ℕ)
    → 0 < count
    → a * window ≡ need * suc b
    → need ≤ (nearest (a * window) (suc b * (count * 1_000_000_000) - 1) + 1) * count
unfolding nearest
nearest_covers a b need count window c h =
    le_of_mul-le-mul_right {k = suc b} (rw (den, h) (omega (arith, step))) (omega arith)
  where
    n : ℕ
    n = 1_000_000_000

    q : ℕ
    q = suc b

    size : 0 < q * (count * 1_000_000_000)
    size = mul-pos (omega arith) (omega arith)

    den : suc (suc b * (count * 1_000_000_000) - 1) ≡ suc b * (count * 1_000_000_000)
    den = omega (arith, size)

    step :
        2 * (need * suc b * 1_000_000_000) + suc b * (count * 1_000_000_000)
        < (2 * (need * suc b * 1_000_000_000) + suc b * (count * 1_000_000_000))
            / (2 * (suc b * (count * 1_000_000_000)))
            * (2 * (suc b * (count * 1_000_000_000)))
          + 2 * (suc b * (count * 1_000_000_000))
    step = lt-div-mul-add (omega (arith, size))

wait_covers :
    (q : Quota) (x : Fraction) (need : ℕ) (d : Duration)
    → 0 < q.window
    → 0 < q.count
    → Amount q.window need x
    → seconds_to_refill exact x (refill_per_second exact q) ≡ some d
    → need ≤ (d + 1) * q.count
unfolding seconds_to_refill le from_secs_f64
wait_covers q (frac a b) need d w c h e =
    let one : suc (1 * q.window - 1) ≡ q.window = omega arith in
    let quotient = div_pos a b (q.count * 1_000_000_000) (1 * q.window - 1) (omega arith) in
    let e' = rw (rate_lem q w, seconds_to_refill, quotient, one) at e in
    let cover = nearest_covers a b need q.count q.window c h in
    let vanish : a ≤ 0 → need ≤ 0 = λ l. omega (arith, mul-le-mul_right q.window l) in
    ground (arith, cover, vanish)
wait_covers q infinite need d w c h e = absurd h
wait_covers q nan need d w c h e = absurd h

map-some : (o : Option Duration) (d : Duration) → Option.map some o ≡ some (some d) → o ≡ some d
map-some none d h = cc
map-some (some e) d h = cc

pub since_within :
    (now t : Instant) → now ≤ t + max_duration → saturating_duration_since now t ≡ now - t
unfolding saturating_duration_since
since_within now t h = ground arith

refill_covers :
    (q : Quota) (cost level e e' : ℕ)
    → cost * q.window - level ≤ e' * q.count
    → e' ≤ e
    → cost ≤ q.burst
    → cost * q.window ≤ filled q level e
refill_covers q cost level e e' h k l =
    ground (arith, mul-le-mul_right q.count k, mul-le-mul_right q.window l)

-- Over exact arithmetic, a refused request that comes again once the reported wait and one
-- nanosecond more have passed is admitted, provided that the quota's burst covers its cost, that
-- its rate is not zero and that nothing else was taken from the bucket in between. The one
-- nanosecond makes up for the rounding of the wait to the nearest nanosecond. The window is not
-- zero, both calls return, the level is a whole number of units, and the second call comes within
-- the greatest duration.
pub retry_admitted :
    (q : Quota) (b b' b'' : Bucket exact) (now later : Instant) (n cost : ℕ) (d : Duration)
    (r r' : Decision)
    → 0 < q.window
    → 0 < q.count
    → cost ≤ q.burst
    → Amount q.window n b.tokens
    → try_consume exact b now q cost ≡ some (b', r)
    → r.retry_after ≡ some d
    → now + d + 1 ≤ later
    → later ≤ now + max_duration
    → try_consume exact b' later q cost ≡ some (b'', r')
    → r'.allowed ≡ true
retry_admitted q b b' b'' now later n cost d r r' w c covered amount first asks waited near second =
    let (amount', stamp, admits, _) = try_consume-Amount q w b now n cost b' r amount first in
    let (_, _, admits', _) = try_consume-Amount q w b' later _ cost b'' r' amount' second in
    let o = try_consume-Outcome exact b now q cost b' r first in
    elim (Bool-cases r.allowed) [
      | inl yes' ↦ cc (rw yes' at o.asks)
      | inr no' ↦
          let level = filled q n (saturating_duration_since now b.last_update) in
          let short : leb (cost * q.window) level ≡ false = sym admits ∙ no' in
          let amount'' : Amount q.window level b'.tokens = rw short at amount' in
          let wait = map-some _ _ (rw (no', asks) at o.asks) in
          let need =
            sub-Amount q.window w (of_u64 cost) b'.tokens _ level (of_u64-Amount q.window w cost)
              amount'' in
          let enough = wait_covers q _ _ d w c need wait in
          let passed = since_within later b'.last_update (omega (arith, stamp)) in
          rw (admits', short)
            (le→leb _ _
              (refill_covers q cost level _ (d + 1) enough (omega (arith, stamp, passed)) covered))
    ]
