-- ===== src/Client/Interval.antt =====
-- src/client.rs over exact arithmetic: the interval of a new throttle.
use trillium_ratelimit.Common.{
  ℕ, suc, ◌+◌, ◌-◌, ◌*◌, ◌/◌, ◌≤◌, ◌<◌, ◌≡◌, some, none, arith, Text, max, >>=-eq-some, ap, ◌∙◌,
  sym, Bool, true, false, if◌then◌else◌,
}
use native.Mathlib.Nat.{lt-div-mul-add, div-mul-le_self}
use trillium_ratelimit.Quota.{Quota}
use trillium_ratelimit.Float.Exact.{exact, div, of_u64, as_secs_f64, from_secs_f64, nearest}
use trillium_ratelimit.Bucket.Retry.{div_pos, as_secs_pos}
use trillium_ratelimit.Client.Throttle.{Throttle, new}

nearest_lem :
    (w count : ℕ)
    → 0 < count
    → (2 * (nearest w (1_000_000_000 * count - 1) * count) ≤ 2 * w + count)
      × (2 * w < 2 * (nearest w (1_000_000_000 * count - 1) * count) + count)
unfolding nearest
nearest_lem w count h =
    let den : suc (1_000_000_000 * count - 1) ≡ 1_000_000_000 * count = omega arith in
    let top = 2 * (w * 1_000_000_000) + 1_000_000_000 * count in
    let bottom = 2 * (1_000_000_000 * count) in
    let low : top / bottom * bottom ≤ top = div-mul-le_self top bottom in
    let high : top < top / bottom * bottom + bottom = lt-div-mul-add (omega arith) in
    (rw den (omega (arith, low)), rw den (omega (arith, high)))

if_some : (b : Bool) (x y : ℕ) → (if b then some x else none) ≡ some y → y ≡ x
if_some true x y h = cc h
if_some false x y h = cc

quotient_lem :
    (w count interval : ℕ)
    → 0 < w
    → 0 < count
    → from_secs_f64 (div (as_secs_f64 w) (of_u64 count)) ≡ some interval
    → interval ≡ nearest w (1_000_000_000 * count - 1)
unfolding of_u64 from_secs_f64
quotient_lem w count interval p h e =
    let shape = rw (as_secs_pos w p, div_pos w 999_999_999 count 0 h, from_secs_f64) at e in
    let one : w * 1 ≡ w = omega arith in
    if_some _ _ _ shape ∙ ap (λ (x : ℕ). nearest x (1_000_000_000 * count - 1)) one

-- The interval of a new throttle is the window divided by the count, or by 1 if the count is zero,
-- to the nearest nanosecond. Arithmetic is exact, the window is not zero, and the construction
-- returns.
pub new-interval :
    {Url : Type 0} (origin_scope : Url → Text) (quota : Quota) (t : Throttle Url)
    → 0 < quota.window
    → new exact origin_scope quota ≡ some t
    → (2 * (t.interval * max quota.count 1) ≤ 2 * quota.window + max quota.count 1)
      × (2 * quota.window < 2 * (t.interval * max quota.count 1) + max quota.count 1)
unfolding new
new-interval origin_scope quota t p h =
    let (interval, made, rest) = >>=-eq-some _ _ h in
    let same : interval ≡ t.interval = cc rest in
    let near = quotient_lem quota.window (max quota.count 1) interval p (omega arith) made in
    let (low, high) = nearest_lem quota.window (max quota.count 1) (omega arith) in
    let e = sym same ∙ near in rw e (low, high)
