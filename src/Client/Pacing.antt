-- ===== src/Client/Pacing.antt =====
-- src/client.rs: the pace of the claims on one scope.
use trillium_ratelimit.Common.{
  ℕ, zero, suc, ◌+◌, ◌*◌, ◌≤◌, ◌≡◌, refl, ap, some, List, [], ◌∷◌, arith, Text, text_eq_refl, max,
  All, get_elem?, length,
}
use Prim.Native.Nat.add
use trillium_ratelimit.Time.{Instant, max_duration, saturating_duration_since}
use trillium_ratelimit.Client.Throttle.{Throttle, or_insert, proceed_at, next_tat, claim}

since_lem :
    (p now : Instant) → now ≤ p → p ≤ max_duration → now + saturating_duration_since p now ≡ p
unfolding saturating_duration_since
since_lem p now h k = ground arith

pub All-le-weaken : {b c : ℕ} (xs : List ℕ) → b ≤ c → All (λ x. x ≤ b) xs → All (λ x. x ≤ c) xs
All-le-weaken [] h k = tt
All-le-weaken (x ∷ xs) h (k, ks) = (omega arith, All-le-weaken xs h ks)

module _ {Url : Type 0} where
  -- Claims on one scope, one after another, with the time at which each request proceeds.
  unfoldable pub claims : Instant → Throttle Url → Text → List Instant → Throttle Url × List Instant
  claims latest t scope [] = (t, [])
  claims latest t scope (now ∷ nows) =
      let (t', delay) = claim latest t scope now in
      let (t'', starts) = claims latest t' scope nows in (t'', (now + delay) ∷ starts)

  pub length-claims :
      (latest : Instant) (t : Throttle Url) (scope : Text) (nows : List Instant)
      → length (claims latest t scope nows).1 ≡ length nows
  unfolding claims
  length-claims latest t scope [] = refl
  length-claims latest t scope (now ∷ nows) =
      ap suc (length-claims latest (claim latest t scope now).0 scope nows)

  pub proceed_at_bounds :
      (t : Throttle Url) (tat now : Instant)
      → (now ≤ proceed_at t tat now)
        × (tat ≤ proceed_at t tat now + t.tolerance)
        × (proceed_at t tat now ≤ max tat now)
  unfolding proceed_at
  proceed_at_bounds t tat now = ground arith

  next_tat_lem :
      (latest : Instant) (t : Throttle Url) (tat now : Instant)
      → max tat now + t.interval ≤ latest
      → next_tat latest t tat now ≡ max tat now + t.interval
  unfolding next_tat
  next_tat_lem latest t tat now h = ground arith

  -- One claim at the arrival time `tat`: when its request proceeds, and the arrival time it leaves.
  pub claim_lem :
      (latest : Instant) (t : Throttle Url) (scope : Text) (now tat : Instant)
      → latest ≤ max_duration
      → max tat now + t.interval ≤ latest
      → or_insert (t.state scope) now ≡ tat
      → (now + (claim latest t scope now).1 ≡ proceed_at t tat now)
        × ((claim latest t scope now).0.state scope ≡ some (max tat now + t.interval))
        × ((claim latest t scope now).0.interval ≡ t.interval)
        × ((claim latest t scope now).0.tolerance ≡ t.tolerance)
  unfolding claim
  claim_lem latest t scope now tat span room e =
      let (low, _, high) = proceed_at_bounds t tat now in
      (
        rw e (since_lem (proceed_at t tat now) now low (omega arith)),
        rw (e, text_eq_refl scope, next_tat_lem latest t tat now room),
        refl,
        refl,
      )

  -- The arrival time that the first of the claims meets: what the map holds, or its own time.
  abbrev pub Due : Throttle Url → Text → List Instant → Instant → Type 0
  Due t scope [] tat = Unit
  Due t scope (now ∷ nows) tat = or_insert (t.state scope) now ≡ tat

  pub Due-of_some :
      (t : Throttle Url) (scope : Text) (nows : List Instant) (tat : Instant)
      → t.state scope ≡ some tat
      → Due t scope nows tat
  Due-of_some t scope [] tat e = tt
  Due-of_some t scope (now ∷ nows) tat e = rw e

  module _ (latest : Instant) (span : latest ≤ max_duration) (scope : Text) where
    -- From an arrival time on, the n-th start is at most the tolerance ahead of the n-th slot.
    pub starts-le :
        (t : Throttle Url) (tat bound : Instant) (nows : List Instant) (n : ℕ) (s : Instant)
        → t.state scope ≡ some tat
        → tat ≤ bound
        → All (λ now. now ≤ bound) nows
        → bound + length nows * t.interval ≤ latest
        → get_elem? (claims latest t scope nows).1 n ≡ some s
        → tat + n * t.interval ≤ s + t.tolerance
    unfolding claims
    starts-le t tat bound [] n s e low nows room h = cc
    starts-le t tat bound (now ∷ nows) zero s e low (now-le, rest) room h =
        let (start, _, _, _) = claim_lem latest t scope now tat span (omega arith) (rw e) in
        let here : now + (claim latest t scope now).1 ≡ s = cc h in
        omega (arith, proceed_at_bounds t tat now, start, here)
    starts-le t tat bound (now ∷ nows) (suc n) s e low (now-le, rest) room h =
        let t' = (claim latest t scope now).0 in
        let (start, next, interval, tolerance) =
          claim_lem latest t scope now tat span (omega arith) (rw e) in
        let more = ap (λ (i : ℕ). length nows * i) interval in
        let ih =
          starts-le t' _ (bound + t.interval) nows n s next (omega arith)
            (All-le-weaken nows (omega arith) rest) (omega (arith, more)) h in
        omega (arith, ih, tolerance, ap (λ (i : ℕ). n * i) interval)

    -- Of any requests that claim one after another, on a new scope or a known one and whatever the
    -- times of their claims, the one `n` places behind another proceeds no earlier than `n` of the
    -- throttle's intervals, less its tolerance, after it, whatever interval and tolerance the
    -- throttle has. The claims are early enough that no arrival time passes the last instant of the
    -- platform. The platform's instants span at most the greatest duration.
    pub claims_pace :
        (t : Throttle Url) (tat bound : Instant) (nows : List Instant) (i n : ℕ)
        (first later : Instant)
        → Due t scope nows tat
        → tat ≤ bound
        → All (λ now. now ≤ bound) nows
        → bound + length nows * t.interval ≤ latest
        → get_elem? (claims latest t scope nows).1 i ≡ some first
        → get_elem? (claims latest t scope nows).1 (i + n) ≡ some later
        → first + n * t.interval ≤ later + t.tolerance
    unfolding claims
    claims_pace t tat bound [] i n first later e low nows room h k = cc
    claims_pace t tat bound (now ∷ nows) zero zero first later e low (now-le, rest) room h k =
        let same : first ≡ later = cc (h, k) in omega arith
    claims_pace t tat bound (now ∷ nows) zero (suc n) first later e low (now-le, rest) room h k =
        let t' = (claim latest t scope now).0 in
        let (start, next, interval, tolerance) =
          claim_lem latest t scope now tat span (omega arith) e in
        let more = ap (λ (i : ℕ). length nows * i) interval in
        let ih =
          starts-le t' _ (bound + t.interval) nows n later next (omega arith)
            (All-le-weaken nows (omega arith) rest) (omega (arith, more))
            (rw (add.zero (suc n)) at k) in
        let here : now + (claim latest t scope now).1 ≡ first = cc h in
        omega (
          arith,
          ih,
          tolerance,
          ap (λ (i : ℕ). n * i) interval,
          start,
          here,
          proceed_at_bounds t tat now,
        )
    claims_pace t tat bound (now ∷ nows) (suc i) n first later e low (now-le, rest) room h k =
        let t' = (claim latest t scope now).0 in
        let (start, next, interval, tolerance) =
          claim_lem latest t scope now tat span (omega arith) e in
        let more = ap (λ (i : ℕ). length nows * i) interval in
        let ih =
          claims_pace t' _ (bound + t.interval) nows i n first later
            (Due-of_some t' scope nows _ next) (omega arith) (All-le-weaken nows (omega arith) rest)
            (omega (arith, more)) h (rw (add.suc i n) at k) in
        omega (arith, ih, tolerance, ap (λ (i : ℕ). n * i) interval)
