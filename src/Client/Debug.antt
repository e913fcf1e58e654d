-- ===== src/Client/Debug.antt =====
-- src/client.rs: `Debug` of a throttle. The derived `Debug` of a quota is a parameter.
use trillium_ratelimit.Common.{Bool, codes}
use trillium_ratelimit.Debug.{DebugApi}
use trillium_ratelimit.Quota.{Quota}
use trillium_ratelimit.Client.Throttle.{Throttle}

module _ {Url : Type 0} (format : DebugApi) where
  open format use {Formatter, Value, Outcome, debug_struct, field, finish_non_exhaustive}

  unfoldable pub fmt :
      (quota : Quota → Value) (flag : Bool → Value) → Throttle Url → Formatter → Outcome
  fmt quota flag throttle formatter = finish_non_exhaustive (
      field
        (field (debug_struct formatter (codes "Throttle")) (codes "quota") (quota throttle.quota))
        (codes "honor_server_signals") (flag throttle.honor_server_signals))
