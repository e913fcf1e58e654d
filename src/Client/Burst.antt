-- ===== src/Client/Burst.antt =====
-- src/client.rs: requests that claim within one instant.
use trillium_ratelimit.Common.{
  ℕ, zero, suc, ◌+◌, ◌-◌, ◌*◌, ◌≤◌, ◌<◌, ◌≡◌, ◌∙◌, ap, none, some, arith, Text, max, min, get_elem?,
  replicate, u32_max,
}
use native.Mathlib.Decide.{dec_le}
use native.Mathlib.Nat.{mul-le-mul_right}
use trillium_ratelimit.Time.{Instant, Duration, max_duration}
use trillium_ratelimit.Quota.{Quota}
use trillium_ratelimit.Client.Throttle.{Throttle, tolerance_of, proceed_at, claim}
use trillium_ratelimit.Client.Pacing.{claims, claim_lem, Due, Due-of_some}

tolerance_exact :
    (interval : Duration) (q : Quota)
    → q.burst ≤ u32_max
    → interval * (q.burst - 1) ≤ max_duration
    → tolerance_of interval q ≡ interval * (q.burst - 1)
unfolding tolerance_of
tolerance_exact interval q h k =
    let headroom : min (q.burst - 1) u32_max ≡ q.burst - 1 = omega arith in
    rw (tolerance_of, headroom) (ground arith)

-- The slot of the i-th request, less the tolerance of the burst.
slot_lem :
    (now i interval burst : ℕ)
    → 1 ≤ burst
    → max (now + i * interval - interval * (burst - 1)) now ≡ now + (i + 1 - burst) * interval
slot_lem now i interval burst h = elim (dec_le burst (i + 1)) [
  | yes p ↦
      let split : i ≡ (i + 1 - burst) + (burst - 1) = omega arith in
      let scaled : i * interval ≡ (i + 1 - burst) * interval + interval * (burst - 1) =
        omega (arith, ap (λ (n : ℕ). n * interval) split) in
      omega (arith, scaled)
  | no p ↦
      let under : i * interval ≤ interval * (burst - 1) =
        omega (arith, mul-le-mul_right interval (within p)) in
      let none_left : i + 1 - burst ≡ 0 = omega arith in rw none_left (omega (arith, under))
]
  where
    within : ¬ (burst ≤ i + 1) → i ≤ burst - 1
    within p = omega arith

module _ {Url : Type 0} where
  proceed_at_lem :
      (t : Throttle Url) (tat now : Instant) → proceed_at t tat now ≡ max (tat - t.tolerance) now
  unfolding proceed_at
  proceed_at_lem t tat now = ground arith

  module _ (latest : Instant) (span : latest ≤ max_duration) (scope : Text) (now : Instant) where
    starts_at_once :
        (t : Throttle Url) (tat : Instant) (k i : ℕ)
        → Due t scope (replicate k now) tat
        → now ≤ tat
        → tat + k * t.interval ≤ latest
        → i < k
        → get_elem? (claims latest t scope (replicate k now)).1 i
          ≡ some (max (tat + i * t.interval - t.tolerance) now)
    unfolding claims
    starts_at_once t tat zero i due h room lt = absurd (omega arith)
    starts_at_once t tat (suc k) zero due h room lt =
        let (start, _, _, _) = claim_lem latest t scope now tat span (omega arith) due in
        let same : tat + 0 * t.interval ≡ tat = omega arith in
        rw (start, proceed_at_lem t tat now, same)
    starts_at_once t tat (suc k) (suc i) due h room lt =
        let t' = (claim latest t scope now).0 in
        let (start, next, interval, tolerance) =
          claim_lem latest t scope now tat span (omega arith) due in
        let ih =
          starts_at_once t' (max tat now + t.interval) k i
            (Due-of_some t' scope (replicate k now) _ next) (omega arith)
            (omega (arith, ap (λ (d : ℕ). k * d) interval)) (omega arith) in
        let slot : max tat now + t.interval + i * t.interval ≡ tat + suc i * t.interval =
          omega arith in
        ih ∙ rw (interval, tolerance, slot)

    -- Of requests that claim a new scope within one instant, the first `burst` proceed at once, and
    -- each later one an interval after the one before it, where the tolerance is that of the quota
    -- and did not saturate, and no arrival time passes the last instant of the platform. The burst
    -- is between 1 and 2^32 - 1, and the platform's instants span at most the greatest duration.
    pub burst_then_paced :
        (t : Throttle Url) (k i : ℕ)
        → t.state scope ≡ none
        → t.tolerance ≡ tolerance_of t.interval t.quota
        → 1 ≤ t.quota.burst
        → t.quota.burst ≤ u32_max
        → t.interval * (t.quota.burst - 1) ≤ max_duration
        → now + k * t.interval ≤ latest
        → i < k
        → get_elem? (claims latest t scope (replicate k now)).1 i
          ≡ some (now + (i + 1 - t.quota.burst) * t.interval)
    burst_then_paced t k i new tolerance positive small fits room lt =
        let due = due_at_once t k new in
        let exact = tolerance ∙ tolerance_exact t.interval t.quota small fits in
        starts_at_once t now k i due (omega arith) room lt
        ∙ rw exact (ap some (slot_lem now i t.interval t.quota.burst positive))
      where
        due_at_once :
            (t : Throttle Url) (k : ℕ) → t.state scope ≡ none → Due t scope (replicate k now) now
        due_at_once t zero e = tt
        due_at_once t (suc k) e = rw e
