-- ===== src/Tests/Suite/OfSignals.antt =====
-- The unit tests of src/limiter.rs on the signals in a response, over binary64 and on a
-- cache that drops nothing. Requests are a millisecond apart.
use trillium_ratelimit.Common.{
  ℕ, ◌+◌, ◌*◌, ◌/◌, ◌%◌, ◌==◌, leb, ltb, ◌-◌, if◌then◌else◌, ◌&&◌, ◌>>=◌, ◌≡◌, refl, Option, some,
  List, [], ◌∷◌, map, length, get_elem?, Text, text_eq, codes,
}
use trillium_ratelimit.Time.{Instant, from_secs}
use trillium_ratelimit.Quota.{per_minute, per_hour}
use trillium_ratelimit.Float.Binary.{binary64}
use trillium_ratelimit.Headers.Fields.{limits_from_headers, policies_from_headers}
use trillium_ratelimit.Headers.Limit
use trillium_ratelimit.Headers.Policy
use trillium_ratelimit.Limiter.{RateLimiter, new, with_policy_name, with_jitter, with_partition_key}
use trillium_ratelimit.Client.Signals.{parse_u64}
use trillium_ratelimit.Tests.Samples.{Exchange, exchange_api, first_request, delivered}
use trillium_ratelimit.Tests.Reader.{reader}
use trillium_ratelimit.Tests.Suite.Base.{
  Test, passed, assert, repeat, from_millis, option_eq, list_eq, unwrap,
}
use trillium_ratelimit.Tests.Suite.Computing.{serving}
use trillium_ratelimit.Tests.Suite.Server.{App, partitions, get, send, header, assert_status}

abbrev keyed : Exchange → Option Text
keyed conn = some (codes "shared-test-key")

abbrev Limiter : Type 0
Limiter = RateLimiter binary64 (partitions text_eq) exchange_api

-- `HashSet::insert`
abbrev insert : ℕ → List ℕ → List ℕ
insert n [] = n ∷ []
insert n (m ∷ seen) = let rest = insert n seen in if m == n then m ∷ seen else m ∷ rest

-- What the loop carries: the app, the time, the number of the draw and the waits seen.
abbrev Loop : Type 0
Loop = App text_eq × Instant × ℕ × List ℕ

-- `draws i` is the `i`th draw, from any range.
abbrev one_retry : (draws : ℕ → ℕ) → Loop → Option Loop
one_retry draws (app, now, i, seen) = do
  (app, conn) ← send text_eq (λ bound. draws i % (bound + 1)) (λ key. key) app first_request now
  _ ← assert_status conn 429
  field ← header conn (codes "Retry-After")
  retry ← parse_u64 field
  _ ← assert (leb 60 retry && leb retry 91)
  some (app, now + from_millis 1, i + 1, insert retry seen)

abbrev jitter_spreads_retry_after_within_bounds : (draws : ℕ → ℕ) → Instant → Test
jitter_spreads_retry_after_within_bounds draws t = do
  let limiter : Limiter = new binary64 (partitions text_eq) exchange_api (per_minute 1) keyed
  let app = with_jitter binary64 (partitions text_eq) exchange_api limiter (from_secs 30) ∷ []
  (app, conn) ← get text_eq app first_request t
  _ ← assert_status conn 200
  (app, now, i, seen) ← repeat 30 (one_retry draws) (app, t + from_millis 1, 0, [])
  assert (ltb 1 (length seen))

jitter_spreads_retry_after_within_bounds_passes :
    jitter_spreads_retry_after_within_bounds (λ i. i * 7_777_777_777) 7 ≡ passed
unfolding serving
jitter_spreads_retry_after_within_bounds_passes = refl

-- `STANDARD.encode`: three bytes are four letters, the last of which may be padding.
abbrev letter : ℕ → ℕ
letter n =
    if ltb n 26
    then n + 65
    else if ltb n 52
    then n + 71
    else if ltb n 62
    then n - 4
    else if n == 62
    then 43
    else 47

abbrev base64 : Text → Text
base64 [] = []
base64 (a ∷ []) = letter (a / 4) ∷ letter (a % 4 * 16) ∷ 61 ∷ 61 ∷ []
base64 (a ∷ b ∷ []) = letter (a / 4) ∷ letter (a % 4 * 16 + b / 16) ∷ letter (b % 16 * 4) ∷ 61 ∷ []
base64 (a ∷ b ∷ c ∷ rest) =
    letter (a / 4)
    ∷ letter (a % 4 * 16 + b / 16)
    ∷ letter (b % 16 * 4 + c / 64)
    ∷ letter (c % 64)
    ∷ base64 rest

base64_padded : base64 (codes "light wor") ≡ codes "bGlnaHQgd29y"
base64_padded = refl

abbrev partition_key_emitted_when_configured : Instant → Test
partition_key_emitted_when_configured t = do
  let limiter : Limiter = new binary64 (partitions text_eq) exchange_api (per_minute 5) keyed
  let app = with_partition_key binary64 (partitions text_eq) exchange_api limiter (λ key. key) ∷ []
  (app, conn) ← send text_eq (λ bound. 0) base64 app first_request t
  let expected = base64 (codes "shared-test-key")
  limits ← unwrap (limits_from_headers delivered reader conn)
  limit ← get_elem? limits 0
  _ ← assert (option_eq text_eq (Limit.partition_key limit) (some expected))
  policies ← unwrap (policies_from_headers delivered reader conn)
  policy ← get_elem? policies 0
  assert (option_eq text_eq (Policy.partition_key policy) (some expected))

partition_key_emitted_when_configured_passes : partition_key_emitted_when_configured 7 ≡ passed
unfolding serving
partition_key_emitted_when_configured_passes = refl

abbrev named : Text → Limiter → Limiter
named name limiter = with_policy_name binary64 (partitions text_eq) exchange_api limiter name

abbrev stacked_limiters_each_append_their_policy : Instant → Test
stacked_limiters_each_append_their_policy t = do
  let minute : Limiter = new binary64 (partitions text_eq) exchange_api (per_minute 5) keyed
  let hour : Limiter = new binary64 (partitions text_eq) exchange_api (per_hour 100) keyed
  let app = named (codes "per-minute") minute ∷ named (codes "per-hour") hour ∷ []
  (app, conn) ← get text_eq app first_request t
  policies ← unwrap (policies_from_headers delivered reader conn)
  let names = map Policy.name policies
  _ ← assert (list_eq text_eq names (codes "per-minute" ∷ codes "per-hour" ∷ []))
  limits ← unwrap (limits_from_headers delivered reader conn)
  let names = map Limit.name limits
  assert (list_eq text_eq names (codes "per-minute" ∷ codes "per-hour" ∷ []))

stacked_limiters_each_append_their_policy_passes :
    stacked_limiters_each_append_their_policy 7 ≡ passed
unfolding serving
stacked_limiters_each_append_their_policy_passes = refl
