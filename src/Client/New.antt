-- ===== src/Client/New.antt =====
-- src/client.rs over exact arithmetic: what a new throttle holds.
use trillium_ratelimit.Common.{
  ◌-◌, ◌*◌, ◌≤◌, ◌≡◌, refl, none, some, Text, arith, leb, inl, inr, Bool-cases, min, u32_max, max,
  Option-cases,
}
use native.Mathlib.Nat.{mul-le-mul_left}
use mathlib.Core.Option.{some-injective}
use trillium_ratelimit.Time.{Duration, max_duration}
use trillium_ratelimit.Quota.{Quota}
use trillium_ratelimit.Float.Exact.{exact}
use trillium_ratelimit.Client.Throttle.{Throttle, tolerance_of, new}

pub tolerance_of-le : (i : Duration) (q : Quota) → tolerance_of i q ≤ (q.burst - 1) * i
unfolding tolerance_of
tolerance_of-le i q =
    let room = min (q.burst - 1) u32_max in
    let few : i * room ≤ i * (q.burst - 1) = mul-le-mul_left i (omega arith) in
    elim (Bool-cases (leb (i * room) max_duration)) [
      | inl e ↦ rw (tolerance_of, e) (omega (arith, few))
      | inr e ↦ rw (tolerance_of, e) (ground (arith, few, e))
    ]

pub new_lem :
    {Url : Type 0} (origin_scope : Url → Text) (q : Quota) (t : Throttle Url) (scope : Text)
    → new exact origin_scope q ≡ some t
    → (t.quota ≡ q) × (t.tolerance ≡ tolerance_of t.interval q) × (t.state scope ≡ none)
unfolding new
new_lem {Url} origin_scope q t scope h =
    let made =
      exact.from_secs_f64 (exact.div (exact.as_secs_f64 q.window) (exact.of_u64 (max q.count 1))) in
    elim (Option-cases made) [
      | inl e ↦ cc (rw e at h)
      | inr (interval, e) ↦
          let whole = some-injective _ _ (rw e at h) in
          (rw (← whole) refl, rw (← whole) refl, rw (← whole) refl)
    ]
