-- ===== src/Client/Handler.antt =====
-- src/client.rs: the handler's two hooks. The connection, its URL and its response headers are
-- trillium-client's; the sleep that a hook asks of the runtime is part of its result.
use trillium_ratelimit.Common.{Option, none, some, Text, codes, ◌==◌, if◌then◌else◌}
use trillium_ratelimit.Time.{Instant, Duration}
use trillium_ratelimit.Headers.Outcome.{Result, ok, err, panic, out_of_fuel, or_panic}
use trillium_ratelimit.Headers.Parser.{SfParser}
use trillium_ratelimit.Headers.Fields.{HeaderMap}
use trillium_ratelimit.Client.Throttle.{Throttle, claim, back_off}
use trillium_ratelimit.Client.Signals.{server_backoff}

-- What the default scope calls of `Url`.
pub record UrlApi : Type 1 where
  pub Url : Type 0
  pub Origin : Type 0
  pub origin : Url → Origin
  pub ascii_serialization : Origin → Text

unfoldable pub origin_scope : (api : UrlApi) → api.Url → Text
origin_scope api url = api.ascii_serialization (api.origin url)

-- `ClientHandler::name`
abbrev pub handler_name : Text
handler_name = codes "Throttle"

module _ {Url : Type 0} (latest : Instant) where
  -- `ClientHandler::run`: the delay that is awaited, if there is one
  unfoldable pub run : Throttle Url → Url → Instant → Throttle Url × Option Duration
  run throttle url now =
      let (next, delay) = claim latest throttle (throttle.scope url) now in
      (next, if delay == 0 then none else some delay)

  -- What the hook does with the signals it read.
  abbrev pub honor : Throttle Url → Url → Instant → Result (Option Duration) → Result (Throttle Url)
  honor throttle url now (ok none) = ok throttle
  honor throttle url now (ok (some backoff)) =
      or_panic (back_off latest throttle (throttle.scope url) backoff now)
  honor throttle url now err = err
  honor throttle url now panic = panic
  honor throttle url now out_of_fuel = out_of_fuel

  -- `ClientHandler::after_response`
  unfoldable pub after_response :
      (map : HeaderMap)
      → SfParser
      → Throttle Url
      → Url
      → map.Headers
      → Instant
      → Result (Throttle Url)
  after_response map sf throttle url headers now =
      if throttle.honor_server_signals
      then honor throttle url now (server_backoff map sf headers)
      else ok throttle
