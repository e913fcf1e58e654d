-- ===== src/Client/Order.antt =====
-- src/client.rs: the order in which the requests of one scope proceed.
use trillium_ratelimit.Common.{
  ℕ, suc, ◌+◌, ◌*◌, ◌≤◌, ◌≡◌, ap, List, [], ◌∷◌, arith, Text, All, length,
}
use trillium_ratelimit.Time.{Instant, max_duration}
use trillium_ratelimit.Client.Throttle.{Throttle, or_insert, proceed_at, claim}
use trillium_ratelimit.Client.Pacing.{
  claims, claim_lem, Due, Due-of_some, All-le-weaken, proceed_at_bounds,
}

-- Each time is at least the one before it.
abbrev pub Ascends : Instant → List Instant → Type 0
Ascends low [] = Unit
Ascends low (t ∷ ts) = (low ≤ t) × Ascends t ts

module _ {Url : Type 0} (latest : Instant) (span : latest ≤ max_duration) (scope : Text) where
  proceed_at_mono :
      (t t' : Throttle Url) (tat tat' now now' : Instant)
      → tat ≤ tat'
      → now ≤ now'
      → t'.tolerance ≡ t.tolerance
      → proceed_at t tat now ≤ proceed_at t' tat' now'
  unfolding proceed_at
  proceed_at_mono t t' tat tat' now now' h k e = ground arith

  Ascends-from :
      (t t' : Throttle Url) (tat tat' last bound : Instant) (nows : List Instant)
      → Due t' scope nows tat'
      → tat ≤ tat'
      → tat' ≤ bound
      → t'.tolerance ≡ t.tolerance
      → Ascends last nows
      → All (λ now. now ≤ bound) nows
      → bound + length nows * t'.interval ≤ latest
      → Ascends (proceed_at t tat last) (claims latest t' scope nows).1
  unfolding claims
  Ascends-from t t' tat tat' last bound [] due h low e up costs room = tt
  Ascends-from t t' tat tat' last bound (now ∷ nows) due h low e (up, ups) (now-le, rest) room =
      let u = (claim latest t' scope now).0 in
      let (start, next, interval, tolerance) =
        claim_lem latest t' scope now tat' span (omega arith) due in
      let more = ap (λ (i : ℕ). length nows * i) interval in
      (
        rw start (proceed_at_mono t t' tat tat' last now h up e),
        rw start (
            Ascends-from t' u tat' _ now (bound + t'.interval) nows
              (Due-of_some u scope nows _ next) (omega arith) (omega arith) tolerance ups
              (All-le-weaken nows (omega arith) rest) (omega (arith, more))),
      )

  -- Requests of one scope that claim in the order of their times proceed in that order, and none
  -- before its claim. The claims and the arrival time that the first of them meets are early enough
  -- that no arrival time passes the last instant of the platform, and the platform's instants span
  -- at most the greatest duration.
  pub starts_ascend :
      (t : Throttle Url) (now tat bound : Instant) (nows : List Instant)
      → or_insert (t.state scope) now ≡ tat
      → tat ≤ bound
      → now ≤ bound
      → Ascends now nows
      → All (λ later. later ≤ bound) nows
      → bound + suc (length nows) * t.interval ≤ latest
      → Ascends now (claims latest t scope (now ∷ nows)).1
  unfolding claims
  starts_ascend t now tat bound nows e low here up rest room =
      let u = (claim latest t scope now).0 in
      let (start, next, interval, tolerance) =
        claim_lem latest t scope now tat span (omega arith) e in
      let more = ap (λ (i : ℕ). length nows * i) interval in
      let (after, _, _) = proceed_at_bounds t tat now in
      (
        rw start after,
        rw start (
            Ascends-from t u tat _ now (bound + t.interval) nows (Due-of_some u scope nows _ next)
              (omega arith) (omega arith) tolerance up (All-le-weaken nows (omega arith) rest)
              (omega (arith, more))),
      )
