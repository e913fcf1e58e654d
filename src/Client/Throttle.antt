-- ===== src/Client/Throttle.antt =====
-- src/client.rs: `Throttle` and its two operations on the state that all its clones share. Each runs
-- under the mutex, so that it is one step. The map from scopes to theoretical arrival times is a
-- function. `latest` is the last instant of the platform, and `none` a panic.
use trillium_ratelimit.Common.{
  ◌-◌, Bool, true, false, Option, none, some, Text, text_eq, max, min, if◌then◌else◌, u32_max,
  ◌>>=◌,
}
use trillium_ratelimit.Time.{
  Instant, Duration, max_duration, checked_mul, checked_add, checked_sub, saturating_duration_since,
}
use trillium_ratelimit.Quota.{Quota}
use trillium_ratelimit.Float.{F64}

-- `HashMap<String, Instant>`
abbrev pub ArrivalTimes : Type 0
ArrivalTimes = Text → Option Instant

abbrev pub insert : Text → Instant → ArrivalTimes → ArrivalTimes
insert scope t times = λ key. if text_eq scope key then some t else times key

abbrev pub or_insert : Option Instant → Instant → Instant
or_insert none t = t
or_insert (some t') t = t'

pub record Throttle (Url : Type 0) : Type 0 where
  pub quota : Quota
  pub interval : Duration
  pub tolerance : Duration
  pub scope : Url → Text
  pub honor_server_signals : Bool
  pub state : ArrivalTimes

-- `interval.checked_mul(burst_headroom).unwrap_or(Duration::MAX)`
unfoldable pub tolerance_of : Duration → Quota → Duration
tolerance_of interval quota =
    let burst_headroom = min (quota.burst - 1) u32_max in
    elim (checked_mul interval burst_headroom) [ none ↦ max_duration | some t ↦ t ]

module _ {Url : Type 0} where
  -- The getter.
  abbrev pub quota : Throttle Url → Quota
  quota throttle = throttle.quota

  -- `Throttle::new`, with the default scope as an argument
  unfoldable pub new : F64 → (Url → Text) → Quota → Option (Throttle Url)
  unfolding tolerance_of
  new f origin_scope quota = do
    let count = max quota.count 1
    interval ← f.from_secs_f64 (f.div (f.as_secs_f64 quota.window) (f.of_u64 count))
    some (record {
      quota = quota;
      interval = interval;
      tolerance = tolerance_of interval quota;
      scope = origin_scope;
      honor_server_signals = true;
      state = λ key. none;
    })

  unfoldable pub with_scope : Throttle Url → (Url → Text) → Throttle Url
  with_scope throttle scope = record throttle { scope = scope }

  unfoldable pub without_server_signals : Throttle Url → Throttle Url
  without_server_signals throttle = record throttle { honor_server_signals = false }

  -- `tat.checked_sub(self.tolerance).map_or(now, |earliest| earliest.max(now))`
  unfoldable pub proceed_at : Throttle Url → Instant → Instant → Instant
  proceed_at throttle tat now = elim (checked_sub tat throttle.tolerance) [
    | none ↦ now
    | some earliest ↦ max earliest now
  ]

  -- The arrival time that a claim leaves; where it would overflow, it stays.
  unfoldable pub next_tat : Instant → Throttle Url → Instant → Instant → Instant
  next_tat latest throttle tat now = elim (checked_add latest (max tat now) throttle.interval) [
    | none ↦ tat
    | some t ↦ t
  ]

  -- `Throttle::claim`: how long to sleep, and the throttle afterwards.
  unfoldable pub claim : Instant → Throttle Url → Text → Instant → Throttle Url × Duration
  unfolding proceed_at next_tat
  claim latest throttle scope now =
      let tat = or_insert (throttle.state scope) now in
      (
        record throttle { state = insert scope (next_tat latest throttle tat now) throttle.state },
        saturating_duration_since (proceed_at throttle tat now) now,
      )

  -- `Throttle::back_off`, at the time `now`
  unfoldable pub back_off :
      Instant → Throttle Url → Text → Duration → Instant → Option (Throttle Url)
  back_off latest throttle scope backoff now = do
    wait ← checked_add latest now backoff
    target ← checked_add latest wait throttle.tolerance
    let tat = or_insert (throttle.state scope) target
    some (record throttle { state = insert scope (max tat target) throttle.state })
