-- ===== src/Tests/Suite/Server.antt =====
-- What the unit tests of src/limiter.rs use of trillium's test server: an app of limiters, one after
-- another, before the handler that answers "ok"; and what the tests read off a response.
use trillium_ratelimit.Common.{
  ℕ, ◌==◌, ◌>>=◌, Bool, true, false, ◌&&◌, ◌||◌, Option, none, some, List, [], ◌∷◌, Text, text_eq,
  codes,
}
use trillium_ratelimit.Time.{Instant}
use trillium_ratelimit.Float.Binary.{binary64}
use trillium_ratelimit.Bucket.{Bucket}
use trillium_ratelimit.Store.Moka.{Cache}
use trillium_ratelimit.Limiter.{RateLimiter}
use trillium_ratelimit.Limiter.Handler.{run}
use trillium_ratelimit.Tests.Samples.{Exchange, exchange_api, head}
use trillium_ratelimit.Tests.Suite.Base.{Test, assert, entries, option_eq}

-- `conn.ok("ok")`
abbrev pub ok_handler : Exchange → Exchange
ok_handler conn = record conn { code = some 200; body = some (codes "ok"); stopped = true }

module _ {K : Type 0} (same : K → K → Bool) where
  abbrev pub partitions : Cache (Option K) (Bucket binary64)
  partitions = entries (option_eq same)

  abbrev pub App : Type 0
  App = List (RateLimiter binary64 partitions exchange_api)

  -- A request to the app, and the app afterwards. `random` draws the jitter, `encode` is base64.
  abbrev pub send :
      (random : ℕ → ℕ) (encode : Text → Text) → App → Exchange → Instant → Option (App × Exchange)
  send random encode [] conn now = some ([], ok_handler conn)
  send random encode (limiter ∷ app) conn now = do
    (limiter, answer) ← run binary64 partitions exchange_api random encode limiter conn now
    let rest = send random encode app answer now
    elim answer.stopped [
      | true ↦ some (limiter ∷ app, answer)
      | false ↦ do (app, answer) ← rest; some (limiter ∷ app, answer)
    ]

  -- A request to an app that neither draws nor encodes.
  abbrev pub get : App → Exchange → Instant → Option (App × Exchange)
  get app conn now = send (λ bound. 0) (λ key. key) app conn now

abbrev pub assert_status : Exchange → ℕ → Test
assert_status conn status = assert (option_eq ◌==◌ conn.code (some status))

abbrev pub header : Exchange → Text → Option Text
header conn name = head (conn.fields name)

abbrev pub assert_header : Exchange → Text → Text → Test
assert_header conn name value = assert (option_eq text_eq (header conn name) (some value))

abbrev pub assert_no_header : Exchange → Text → Test
assert_no_header conn name = assert (option_eq text_eq (header conn name) none)

abbrev pub assert_body : Exchange → Text → Test
assert_body conn body = assert (option_eq text_eq conn.body (some body))

-- `str::contains`
abbrev starts_with : Text → Text → Bool
starts_with [] text = true
starts_with (x ∷ xs) [] = false
starts_with (x ∷ xs) (y ∷ ys) = x == y && starts_with xs ys

abbrev pub contains : Text → Text → Bool
contains pattern [] = starts_with pattern []
contains pattern (x ∷ text) = starts_with pattern (x ∷ text) || contains pattern text
