-- ===== src/Limiter/Debug.antt =====
-- src/limiter.rs: `Debug` of a limiter. The derived `Debug` of its fields is a parameter.
use trillium_ratelimit.Common.{Text, codes}
use trillium_ratelimit.Debug.{DebugApi}
use trillium_ratelimit.Time.{Duration}
use trillium_ratelimit.Quota.{Quota}
use trillium_ratelimit.Float.{F64}
use trillium_ratelimit.Bucket.{Bucket}
use trillium_ratelimit.Store.Moka.{Cache}
use trillium_ratelimit.Limiter.{RateLimiter, MissingKey}
use trillium_ratelimit.Limiter.Trillium.{ConnApi}
use trillium_ratelimit.Common.{Option}

pub record Shows (format : DebugApi) (api : ConnApi) : Type 0 where
  pub quota : Quota → format.Value
  pub text : Text → format.Value
  pub missing_key : MissingKey → format.Value
  pub status : api.Status → format.Value
  pub duration : Duration → format.Value

module _ (f : F64) {K : Type 0} (moka : Cache (Option K) (Bucket f)) (api : ConnApi)
    (format : DebugApi) where
  open format use {debug_struct, field, finish_non_exhaustive}

  unfoldable pub fmt : Shows format api → RateLimiter f moka api → format.Formatter → format.Outcome
  fmt shows limiter formatter = finish_non_exhaustive (
      field
        (field
          (field
            (field
              (field (debug_struct formatter (codes "RateLimiter")) (codes "quota")
                (shows.quota limiter.quota))
              (codes "policy_name") (shows.text limiter.policy_name))
            (codes "missing_key") (shows.missing_key limiter.missing_key))
          (codes "status") (shows.status limiter.status))
        (codes "jitter") (shows.duration limiter.jitter))
