-- ===== src/Bucket/Drain.antt =====
-- src/bucket.rs: calls within one instant. `f64` arithmetic is exact on the whole
-- numbers up to 2^53, and no time passes, so nothing is refilled and nothing is rounded.
use trillium_ratelimit.Common.{
  ℕ, zero, suc, ◌+◌, ◌-◌, ◌≤◌, ◌<◌, ◌≡◌, ◌∙◌, ap, refl, inl, inr, Bool, Bool-cases, some, List, [],
  ◌∷◌, map, arith, leb, leb→le, if◌then◌else◌, replicate, min, All,
}
use trillium_ratelimit.Time.{Instant, Duration, since_self}
use trillium_ratelimit.Quota.{Quota, IsInRange}
use trillium_ratelimit.Float.{F64, IsIeee, exact_max}
use trillium_ratelimit.Bucket.{
  Bucket, Decision, fresh, refill_per_second, seconds_to_refill, refilled, charged, try_consume,
  run,
}
use trillium_ratelimit.Bucket.Bounds.{try_consume-Outcome, of_u64-IsNonneg}
use trillium_ratelimit.Bucket.Total.{try_consume_total}

-- A counter that pays a cost if it can.
abbrev pub pay : ℕ → ℕ → ℕ
pay n cost = if leb cost n then n - cost else n

abbrev pub pays : ℕ → List ℕ → List Bool
pays n [] = []
pays n (cost ∷ costs) = leb cost n ∷ pays (pay n cost) costs

abbrev pub balances : ℕ → List ℕ → List ℕ
balances n [] = []
balances n (cost ∷ costs) = pay n cost ∷ balances (pay n cost) costs

abbrev pub count_true : List Bool → ℕ
count_true [] = 0
count_true (b ∷ bs) = (if b then 1 else 0) + count_true bs

count_true-pays : (k n : ℕ) → count_true (pays n (replicate k 1)) ≡ min k n
count_true-pays zero n = omega arith
count_true-pays (suc k) n = ground (arith, count_true-pays k (pay n 1))

All-replicate : {m : ℕ} (k : ℕ) → 1 ≤ m → All (λ cost. cost ≤ m) (replicate k 1)
All-replicate zero h = tt
All-replicate (suc k) h = (h, All-replicate k h)

abbrev pub at_once : Instant → List ℕ → List (Instant × ℕ)
at_once now = map (λ cost. (now, cost))

module _ (f : F64) (ieee : IsIeee f) where
  open f use {of_u64, nought, sub, le, floor_u64}
  open ieee use {
    as_secs_zero, mul_nought, add_nought, min-of_u64, sub-of_u64, lt-of_u64, of_u64_mono,
    floor-of_u64,
  }

  -- The bucket holds `n` tokens at the time `now`.
  pub record Holds (n : ℕ) (now : Instant) (b : Bucket f) : Type 0 where
    pub level : b.tokens ≡ of_u64 n
    pub stamped : b.last_update ≡ now

  module _ (q : Quota) (now : Instant) (ranges : IsInRange q) (lasts : 0 < q.window)
      (exact : q.burst ≤ exact_max) where
    refilled_now :
        (b : Bucket f) (n : ℕ) → n ≤ q.burst → Holds n now b → refilled f b now q ≡ of_u64 n
    unfolding refilled refill_per_second
    refilled_now b n h holds =
        rw
          (
            refilled,
            refill_per_second,
            since_self now b.last_update holds.stamped,
            as_secs_zero,
            mul_nought q.count q.window ranges.count_le lasts ranges.window_le,
            holds.level,
            add_nought n,
          )
          (min-of_u64 n q.burst h)

    le-of_u64 : (cost n : ℕ) → cost ≤ exact_max → le (of_u64 cost) (of_u64 n) ≡ leb cost n
    le-of_u64 cost n h = elim (Bool-cases (leb cost n)) [
      | inl e ↦ rw e (of_u64_mono cost n (leb→le cost n e))
      | inr e ↦ rw e (lt-of_u64 n cost h (ground arith))
    ]

    charged-of_u64 :
        (cost n : ℕ)
        → cost ≤ exact_max
        → n ≤ exact_max
        → charged f (of_u64 n) cost ≡ of_u64 (pay n cost)
    unfolding charged
    charged-of_u64 cost n h k = ground (arith, le-of_u64 cost n h, sub-of_u64 cost n k)

    module _ (m : ℕ) (d : Duration) (fits : m ≤ exact_max) (burst-le : q.burst ≤ m)
        (full : seconds_to_refill f (of_u64 m) (refill_per_second f q) ≡ some d) where
      consume_now :
          (b : Bucket f) (n cost : ℕ)
          → n ≤ q.burst
          → cost ≤ m
          → Holds n now b
          → (b' : Bucket f) × (r : Decision) × (try_consume f b now q cost ≡ some (b', r))
            × Holds (pay n cost) now b'
            × (r.allowed ≡ leb cost n)
            × (r.remaining ≡ pay n cost)
      consume_now b n cost h k holds =
          let (b', r, e, _, _) =
            try_consume_total f ieee q m d (omega arith) full b now cost burst-le k
              (rw holds.level (of_u64-IsNonneg f ieee n)) in
          let o = try_consume-Outcome f b now q cost b' r e in
          let level = refilled_now b n h holds in
          let next = rw level at o.level ∙ charged-of_u64 cost n (omega arith) (omega arith) in
          (
            b',
            r,
            e,
            record { level = next; stamped = o.stamped },
            rw level at o.admits ∙ le-of_u64 cost n (omega arith),
            o.reports ∙ ap floor_u64 next ∙ floor-of_u64 _ (ground arith),
          )

      -- Attempts within one instant, on a bucket that holds a whole number of tokens, are those of
      -- a counter: none panics, each is admitted exactly if what is left covers its cost, an
      -- admitted one takes exactly its cost, a refused one takes nothing, and each reports what is
      -- left. The quota is in range, its window is not zero, and the time in which `m` tokens
      -- accrue is representable, `m` being a whole number that binary64 represents, and at least
      -- the burst and each cost.
      pub run-pays :
          (b : Bucket f) (n : ℕ) (costs : List ℕ)
          → n ≤ q.burst
          → All (λ cost. cost ≤ m) costs
          → Holds n now b
          → (b' : Bucket f) × (rs : List Decision) × (run f b q (at_once now costs) ≡ some (b', rs))
            × (map (λ r. r.allowed) rs ≡ pays n costs)
            × (map (λ r. r.remaining) rs ≡ balances n costs)
      unfolding run
      run-pays b n [] h k holds = (b, [], refl, refl, refl)
      run-pays b n (cost ∷ costs) h (k, ks) holds =
          let (b', r, e, holds', admits, reports) = consume_now b n cost h k holds in
          let (b'', rs, e', admit, report) =
            run-pays b' (pay n cost) costs (ground arith) ks holds' in
          (b'', r ∷ rs, rw (e, e') refl, cc, cc)

      -- A fresh bucket, asked for one token at a time within one instant, admits exactly as many
      -- requests as its burst, or all of them if they are fewer, and panics on none. The quota is
      -- in range, its window is not zero, and the time in which `m` tokens accrue is representable,
      -- `m` being a whole number that binary64 represents, and at least the burst and each cost.
      pub fresh_admits_burst :
          (k : ℕ)
          → 1 ≤ m
          → (b' : Bucket f) × (rs : List Decision) × (run f
                (fresh f now q)
                q
                (at_once now (replicate k 1))
              ≡ some (b', rs))
            × (count_true (map (λ r. r.allowed) rs) ≡ min k q.burst)
      unfolding fresh
      fresh_admits_burst k h =
          let (b', rs, e, admit, _) =
            run-pays (fresh f now q) q.burst (replicate k 1) (omega arith) (All-replicate k h)
              (record { level = refl; stamped = refl }) in
          (b', rs, e, rw admit (count_true-pays k q.burst))
