-- ===== src/Tests/Suite/OfClients.antt =====
-- The tests of tests/client.rs, over binary64. Time is virtual: it passes where the client
-- sleeps, and a response takes a millisecond.
use mathlib.Core.List.{reverse}
use trillium_ratelimit.Common.{
  ℕ, ◌^◌, ◌+◌, ◌-◌, ◌*◌, ◌/◌, ◌≡◌, refl, ltb, leb, max, Option, none, some, List, [], ◌∷◌, ◌++◌,
  take, Text, codes, ◌>>=◌,
}
use trillium_ratelimit.Time.{Instant, Duration}
use trillium_ratelimit.Quota.{per, allow_burst}
use trillium_ratelimit.Float.Binary.{binary64}
use trillium_ratelimit.Client.Throttle.{Throttle, new, with_scope}
use trillium_ratelimit.Client.Handler.{UrlApi, origin_scope, run, after_response}
use trillium_ratelimit.Client.Signals.{retry_after_header}
use trillium_ratelimit.Tests.Samples.{Exchange, exchange_api, first_request, delivered}
use trillium_ratelimit.Tests.Reader.{reader}
use trillium_ratelimit.Tests.Suite.Base.{Test, passed, assert, repeat, from_millis, unwrap}
use trillium_ratelimit.Tests.Suite.Computing.{pacing}
use trillium_ratelimit.Tests.Suite.Server.{ok_handler}

abbrev unit : Duration
unit = from_millis 200

-- An `http` URL is the list of its host's labels.
abbrev Url : Type 0
Url = List Text

abbrev join : List Text → Text
join [] = []
join (label ∷ []) = label
join (label ∷ next ∷ labels) = label ++ codes "." ++ join (next ∷ labels)

abbrev urls : UrlApi
urls = record {
  Url = Url;
  Origin = Url;
  origin = λ url. url;
  ascii_serialization = λ host. codes "http://" ++ join host;
}

abbrev example : Url
example = codes "example" ∷ codes "com" ∷ []

abbrev latest : Instant
latest = 2 ^ 64 * 1_000_000_000

-- A client, whose handler is a throttle, and its clock.
abbrev Client : Type 0
Client = Throttle Url × Instant

abbrev paced : ℕ → Option (Throttle Url)
paced burst = new binary64 (origin_scope urls) (allow_burst (per 1 unit) burst)

abbrev slept : Option Duration → Duration
slept none = 0
slept (some d) = d

-- The `ok` server.
abbrev ok_server : Exchange → Exchange
ok_server conn = ok_handler conn

-- `client.get`: the hook before the request, the request, the hook after the response.
abbrev get : (Exchange → Exchange) → Url → Client → Option Client
get server url (throttle, now) = do
  let (throttle, delay) = run latest throttle url now
  let later = now + slept delay + from_millis 1
  throttle ←
      unwrap (after_response latest delivered reader throttle url (server first_request) later)
  some (throttle, later)

abbrev spaces_sequential_requests_by_the_interval : Instant → Test
spaces_sequential_requests_by_the_interval start = do
  throttle ← paced 1
  (_, now) ← repeat 3 (get ok_server example) (throttle, start)
  let elapsed = now - start
  _ ← assert (leb (2 * unit) elapsed)
  assert (ltb elapsed (5 * unit))

spaces_sequential_requests_by_the_interval_passes :
    spaces_sequential_requests_by_the_interval 7 ≡ passed
unfolding pacing
spaces_sequential_requests_by_the_interval_passes = refl

abbrev burst_allows_back_to_back_then_paces : Instant → Test
burst_allows_back_to_back_then_paces start = do
  throttle ← paced 3
  (throttle, before_fourth) ← repeat 3 (get ok_server example) (throttle, start)
  _ ← assert (ltb (before_fourth - start) unit)
  (_, now) ← get ok_server example (throttle, before_fourth)
  assert (leb (unit / 2) (now - before_fourth))

burst_allows_back_to_back_then_paces_passes : burst_allows_back_to_back_then_paces 7 ≡ passed
unfolding pacing
burst_allows_back_to_back_then_paces_passes = refl

abbrev distinct_origins_are_metered_independently : Instant → Test
distinct_origins_are_metered_independently start = do
  throttle ← paced 1
  client ← get ok_server (codes "a" ∷ example) (throttle, start)
  (_, now) ← get ok_server (codes "b" ∷ example) client
  assert (ltb (now - start) unit)

distinct_origins_are_metered_independently_passes :
    distinct_origins_are_metered_independently 7 ≡ passed
unfolding pacing
distinct_origins_are_metered_independently_passes = refl

-- The last two labels of the host.
abbrev registrable : Url → Text
registrable url = join (take 2 (reverse url))

abbrev scope_can_group_hosts_into_one_budget : Instant → Test
scope_can_group_hosts_into_one_budget start = do
  throttle ← paced 1
  client ← get ok_server (codes "a" ∷ example) (with_scope throttle registrable, start)
  (_, now) ← get ok_server (codes "b" ∷ example) client
  assert (leb unit (now - start))

scope_can_group_hosts_into_one_budget_passes : scope_can_group_hosts_into_one_budget 7 ≡ passed
unfolding pacing
scope_can_group_hosts_into_one_budget_passes = refl

-- Both requests claim their slots before either sleeps.
abbrev concurrent_requests_to_one_origin_are_serialized_to_the_pace : Instant → Test
concurrent_requests_to_one_origin_are_serialized_to_the_pace start = do
  throttle ← paced 1
  let (throttle, first) = run latest throttle example start
  let (throttle, second) = run latest throttle example start
  assert (leb unit (max (slept first) (slept second)))

concurrent_requests_to_one_origin_are_serialized_to_the_pace_passes :
    concurrent_requests_to_one_origin_are_serialized_to_the_pace 7 ≡ passed
unfolding pacing
concurrent_requests_to_one_origin_are_serialized_to_the_pace_passes = refl

abbrev busy_server : Exchange → Exchange
busy_server conn = ok_handler (exchange_api.insert conn retry_after_header (codes "1"))

abbrev honors_server_retry_after : Instant → Test
honors_server_retry_after now = do
  throttle ← paced 1
  (throttle, start) ← get busy_server example (throttle, now)
  (_, now) ← get busy_server example (throttle, start)
  assert (leb (from_millis 900) (now - start))

honors_server_retry_after_passes : honors_server_retry_after 7 ≡ passed
unfolding pacing
honors_server_retry_after_passes = refl
