-- ===== src/Client/Scopes.antt =====
-- src/client.rs: claims on several scopes that interleave.
use trillium_ratelimit.Common.{
  ◌+◌, ◌≡◌, refl, ap, inl, inr, Bool-cases, false, List, [], ◌∷◌, Text, text_eq, text_eq_refl,
  text_eq_sound, if◌then◌else◌,
}
use trillium_ratelimit.Time.{Instant}
use trillium_ratelimit.Client.Throttle.{Throttle, or_insert, proceed_at, next_tat, claim}
use trillium_ratelimit.Client.Pacing.{claims}

-- The claims on one scope, and their starts among all.
unfoldable pub times_of : Text → List (Text × Instant) → List Instant
times_of scope [] = []
times_of scope ((other, now) ∷ calls) =
    let rest = times_of scope calls in if text_eq other scope then now ∷ rest else rest

unfoldable pub starts_of : Text → List (Text × Instant) → List Instant → List Instant
starts_of scope [] starts = []
starts_of scope (call ∷ calls) [] = []
starts_of scope ((other, now) ∷ calls) (start ∷ starts) =
    let rest = starts_of scope calls starts in if text_eq other scope then start ∷ rest else rest

module _ {Url : Type 0} (latest : Instant) where
  -- Claims on any scopes, one after another, with the time at which each request proceeds.
  unfoldable pub all_claims : Throttle Url → List (Text × Instant) → List Instant
  all_claims t [] = []
  all_claims t ((scope, now) ∷ calls) =
      let (t', delay) = claim latest t scope now in (now + delay) ∷ all_claims t' calls

  -- Two throttles that a claim on the scope cannot tell apart.
  record Agrees (scope : Text) (t u : Throttle Url) : Type 0 where
    same_state : t.state scope ≡ u.state scope
    same_interval : t.interval ≡ u.interval
    same_tolerance : t.tolerance ≡ u.tolerance

  proceed_at_agrees :
      (t u : Throttle Url) (tat now : Instant)
      → t.tolerance ≡ u.tolerance
      → proceed_at t tat now ≡ proceed_at u tat now
  unfolding proceed_at
  proceed_at_agrees t u tat now e = rw e

  next_tat_agrees :
      (t u : Throttle Url) (tat now : Instant)
      → t.interval ≡ u.interval
      → next_tat latest t tat now ≡ next_tat latest u tat now
  unfolding next_tat
  next_tat_agrees t u tat now e = rw e

  claim-Agrees :
      (scope : Text) (t u : Throttle Url) (now : Instant)
      → Agrees scope t u
      → ((claim latest t scope now).1 ≡ (claim latest u scope now).1)
        × Agrees scope (claim latest t scope now).0 (claim latest u scope now).0
  unfolding claim
  claim-Agrees scope t u now a =
      let tat = or_insert (u.state scope) now in
      (
        rw (a.same_state, proceed_at_agrees t u tat now a.same_tolerance),
        record {
          same_state =
              rw (text_eq_refl scope, a.same_state, next_tat_agrees t u tat now a.same_interval);
          same_interval = a.same_interval;
          same_tolerance = a.same_tolerance;
        },
      )

  other-Agrees :
      (scope other : Text) (t u : Throttle Url) (now : Instant)
      → text_eq other scope ≡ false
      → Agrees scope t u
      → Agrees scope (claim latest t other now).0 u
  unfolding claim
  other-Agrees scope other t u now no' a = record {
    same_state = rw no' a.same_state;
    same_interval = a.same_interval;
    same_tolerance = a.same_tolerance;
  }

  claims_agree :
      (scope : Text) (t u : Throttle Url) (calls : List (Text × Instant))
      → Agrees scope t u
      → starts_of scope calls (all_claims t calls)
        ≡ (claims latest u scope (times_of scope calls)).1
  unfolding all_claims times_of starts_of claims
  claims_agree scope t u [] a = refl
  claims_agree scope t u ((other, now) ∷ calls) a = elim (Bool-cases (text_eq other scope)) [
    | inl e ↦
        let same = text_eq_sound other scope e in
        let (delay, after) = claim-Agrees scope t u now a in
        let ih =
          claims_agree scope (claim latest t scope now).0 (claim latest u scope now).0 calls
            after in
        rw (e, same, delay) (ap (λ rest. (now + (claim latest u scope now).1) ∷ rest) ih)
    | inr no' ↦ rw no' (
        claims_agree scope (claim latest t other now).0 u calls
          (other-Agrees scope other t u now no' a))
  ]

  -- However the claims on all scopes interleave, the requests of one scope proceed at the times at
  -- which they do when nothing is asked of the other scopes.
  pub scopes_independent :
      (t : Throttle Url) (scope : Text) (calls : List (Text × Instant))
      → starts_of scope calls (all_claims t calls)
        ≡ (claims latest t scope (times_of scope calls)).1
  scopes_independent t scope calls =
      claims_agree scope t t calls
        (record { same_state = refl; same_interval = refl; same_tolerance = refl })
