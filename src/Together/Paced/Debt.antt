-- ===== src/Together/Paced/Debt.antt =====
-- The theoretical arrival time of src/client.rs against the level of src/bucket.rs: a level that is
-- short of the burst by `D` units needs no more than the time until the next arrival time. Times
-- `x`, `y` and `z` are waits until an arrival time, `e` is the time that passes.
use trillium_ratelimit.Common.{
  ℕ, ◌+◌, ◌-◌, ◌*◌, ◌≤◌, ◌<◌, ◌≡◌, ap, arith, leb, Bool-cases, inl, inr,
}
use native.Mathlib.Nat.{mul-le-mul_right, mul-le-mul_left, le_of_mul-le-mul_right}
use trillium_ratelimit.Quota.{Quota}
use trillium_ratelimit.Bucket.Scaled.{filled}

-- What accrues, in the time of `i` for each token.
keeps :
    (w i c full n e x y z : ℕ)
    → w ≤ i * c
    → full * i ≤ n * i + x * w
    → x ≤ y + e
    → y ≤ z
    → full * i ≤ (n + e * c) * i + z * w
keeps w i c full n e x y z slots h hx hy =
    let a : x * w ≤ (y + e) * w = mul-le-mul_right w hx in
    let b : y * w ≤ z * w = mul-le-mul_right w hy in
    let d : e * w ≤ e * (i * c) = mul-le-mul_left e slots in omega (arith, a, b, d, h)

covers :
    (w i c k n e x y : ℕ)
    → 0 < i
    → w ≤ i * c
    → (k + 1) * w * i ≤ n * i + x * w
    → x ≤ y + e
    → y ≤ k * i
    → w ≤ n + e * c
covers w i c k n e x y positive slots h hx hy =
    let b : y * w ≤ k * i * w = mul-le-mul_right w hy in
    le_of_mul-le-mul_right {k = i}
      (omega (arith, b, keeps w i c ((k + 1) * w) n e x y y slots h hx (omega arith))) positive

pays : (m w i : ℕ) → w ≤ m → (m - w) * i + w * i ≡ m * i
pays m w i h = let whole : m - w + w ≡ m = omega arith in omega (arith, ap (λ (t : ℕ). t * i) whole)

module _ (q : Quota) (k i : ℕ) (burst : q.burst ≡ k + 1) (positive : 0 < i)
    (slots : q.window ≤ i * q.count) where
  -- What is short of the burst is due by the arrival time, `x` away.
  abbrev pub Owes : ℕ → ℕ → Type 0
  Owes n x = (k + 1) * q.window * i ≤ n * i + x * q.window

  pub Owes-next :
      (n e x y z : ℕ)
      → Owes n x
      → x ≤ y + e
      → y ≤ k * i
      → y ≤ z
      → (q.window ≤ filled q n e) × Owes (filled q n e - q.window) (z + i)
  Owes-next n e x y z h hx hy hz =
      let w = q.window in
      let level = n + e * q.count in
      let enough = covers w i q.count k n e x y positive slots h hx hy in
      let kept = keeps w i q.count ((k + 1) * w) n e x y z slots h hx hz in
      let whole : q.burst * w ≡ (k + 1) * w = ap (λ (b : ℕ). b * w) burst in
      let left = pays level w i enough in
      elim (Bool-cases (leb level (q.burst * w))) [
        | inl e' ↦ rw e' (enough, omega (arith, kept, left))
        | inr e' ↦ rw (e', whole) (omega arith, omega (arith, pays ((k + 1) * w) w i (omega arith)))
      ]
