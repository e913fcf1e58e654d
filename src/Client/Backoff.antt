-- ===== src/Client/Backoff.antt =====
-- src/client.rs: what a server's push-back does to the requests that follow.
use trillium_ratelimit.Common.{
  ℕ, zero, suc, ◌+◌, ◌*◌, ◌≤◌, ◌≡◌, ◌⊎◌, ap, subst, inl, inr, Option, none, some, List, [], ◌∷◌,
  arith, Text, text_eq_refl, max, max_option, get_elem?, All, length, >>=-eq-some, Bool-cases, ◌==◌,
}
use trillium_ratelimit.Time.{Instant, Duration, max_duration, checked_add}
use trillium_ratelimit.Headers.Outcome.{ok}
use trillium_ratelimit.Headers.Parser.{SfParser}
use trillium_ratelimit.Headers.Limit.{RateLimit}
use trillium_ratelimit.Headers.Fields.{HeaderMap, limits_from_headers}
use trillium_ratelimit.Client.Throttle.{Throttle, insert, or_insert, back_off}
use trillium_ratelimit.Client.Pacing.{claims, starts-le}
use trillium_ratelimit.Client.Signals.{
  longest_reset, retry_after, retry_after_header, server_backoff,
}

checked_add_lem :
    (latest t : Instant) (d : Duration) (x : Instant) → checked_add latest t d ≡ some x → x ≡ t + d
checked_add_lem latest t d x h = ground arith

pub back_off_lem :
    {Url : Type 0} (latest : Instant) (t t' : Throttle Url) (scope : Text) (d : Duration)
    (now : Instant)
    → back_off latest t scope d now ≡ some t'
    → (tat : Instant) × (t'.state scope ≡ some tat)
      × (now + d + t.tolerance ≤ tat)
      × (t'.interval ≡ t.interval)
      × (t'.tolerance ≡ t.tolerance)
      × (tat ≡ max (or_insert (t.state scope) (now + d + t.tolerance)) (now + d + t.tolerance))
unfolding back_off
back_off_lem latest t t' scope d now h =
    let (wait, first, h1) = >>=-eq-some _ _ h in
    let (target, second, h2) = >>=-eq-some _ _ h1 in
    let same : target ≡ now + d + t.tolerance = omega (
      arith,
      checked_add_lem latest now d wait first,
      checked_add_lem latest wait t.tolerance target second,
    ) in
    let tat = max (or_insert (t.state scope) target) target in
    let all : (record t { state = insert scope tat t.state }) ≡ t' = cc h2 in
    let sum = checked_add_lem latest now d wait first in
    let far = checked_add_lem latest wait t.tolerance target second in
    (
      tat,
      rw (← all, text_eq_refl scope),
      omega (arith, sum, far),
      rw (← all),
      rw (← all),
      rw (same),
    )

-- Once a server has asked a scope to wait, none of the requests that claim afterwards proceeds
-- before that wait is over, whatever burst was left: the `n`-th of them proceeds no earlier than
-- the end of the wait and `n` intervals. The claims are early enough that no arrival time passes
-- the last instant of the platform. The platform's instants span at most the greatest duration.
pub backed_off_starts :
    {Url : Type 0} (latest : Instant) (t t' : Throttle Url) (scope : Text) (d : Duration)
    (now bound : Instant) (nows : List Instant) (n : ℕ) (start : Instant)
    → latest ≤ max_duration
    → back_off latest t scope d now ≡ some t'
    → or_insert (t'.state scope) 0 ≤ bound
    → All (λ later. later ≤ bound) nows
    → bound + length nows * t.interval ≤ latest
    → get_elem? (claims latest t' scope nows).1 n ≡ some start
    → now + d + n * t.interval ≤ start
backed_off_starts latest t t' scope d now bound nows n start span h low rest room e =
    let (tat, held, far, interval, tolerance, _) = back_off_lem latest t t' scope d now h in
    let more = ap (λ (i : ℕ). length nows * i) interval in
    let kept : or_insert (t'.state scope) 0 ≡ tat = rw held in
    let begins =
      starts-le latest span scope t' tat bound nows n start held (omega (arith, kept)) rest
        (omega (arith, more)) e in
    omega (arith, begins, far, tolerance, ap (λ (i : ℕ). n * i) interval)

-- A bound that a wait meets; no wait meets none.
pub data Covers (d : Duration) : Option Duration → Type 0 where
  covers : {w : Duration} → d ≤ w → Covers d (some w)

pub max_left : (d : Duration) (b : Option Duration) → Covers d (max_option (some d) b)
max_left d none = covers (omega arith)
max_left d (some y) = covers (omega arith)

max_right : (d : Duration) (a b : Option Duration) → Covers d b → Covers d (max_option a b)
max_right d none b h = h
max_right d (some x) none h = elim h [ ]
max_right d (some x) (some w) (covers h) = covers (omega arith)

pub longest_reset-Covers :
    (limits : List RateLimit) (n : ℕ) (l : RateLimit) (d : Duration)
    → get_elem? limits n ≡ some l
    → l.remaining ≡ 0
    → l.reset ≡ some d
    → Covers d (longest_reset limits)
unfolding longest_reset
longest_reset-Covers [] n l d h r e = cc h
longest_reset-Covers (x ∷ xs) zero l d h r e =
    let same : x ≡ l = cc h in rw (same, r, e) (max_left d (longest_reset xs))
longest_reset-Covers (x ∷ xs) (suc n) l d h r e =
    let ih = longest_reset-Covers xs n l d h r e in
    elim (Bool-cases (x.remaining == 0)) [
      | inl empty ↦ rw empty (max_right d _ _ ih)
      | inr left ↦ rw left ih
    ]

-- The wait that is read from a response is at least what its `Retry-After` says, and at least the
-- reset of each of its items that is exhausted. The field lines parse, and the wait was read
-- without a panic.
pub server_backoff-Covers :
    (map : HeaderMap) (sf : SfParser) (headers : map.Headers) (limits : List RateLimit)
    (d : Duration) (wait : Option Duration)
    → limits_from_headers map sf headers ≡ ok limits
    → server_backoff map sf headers ≡ ok wait
    → (retry_after (map.get_str headers retry_after_header) ≡ some d)
      ⊎ ((n : ℕ) × (l : RateLimit) × (get_elem? limits n ≡ some l)
          × (l.remaining ≡ 0)
          × (l.reset ≡ some d))
    → Covers d wait
unfolding server_backoff
server_backoff-Covers map sf headers limits d wait parsed h asked =
    let w : max_option (retry_after (map.get_str headers retry_after_header)) (longest_reset limits)
        ≡ wait =
      cc (rw parsed at h) in
    elim asked [
      | inl e ↦ subst (Covers d) w (rw e (max_left d (longest_reset limits)))
      | inr (n, l, at_n, r, e) ↦
          subst (Covers d) w (max_right d _ _ (longest_reset-Covers limits n l d at_n r e))
    ]
