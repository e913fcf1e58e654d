-- ===== src/Bucket/Scaled.antt =====
-- src/bucket.rs over exact arithmetic, against a bucket of whole numbers: a level is counted in
-- units of which one token has as many as the window has nanoseconds, so that each nanosecond that
-- passes adds the quota's count.
use trillium_ratelimit.Common.{
  ℕ, zero, suc, ◌+◌, ◌-◌, ◌*◌, ◌/◌, ◌≤◌, ◌<◌, ◌≡◌, ◌∙◌, sym, ap, subst, Bool-cases, inl, inr, some,
  arith, leb, leb→le, le→leb, if◌then◌else◌, u64_max,
}
use native.Mathlib.Nat.{
  le_of_mul-le-mul_right, mul-le-mul_right, mul-sub, mul-div-mul_right, mul_comm,
}
use trillium_ratelimit.Time.{Instant, Duration, saturating_duration_since}
use trillium_ratelimit.Quota.{Quota}
use trillium_ratelimit.Float.Exact.{
  Fraction, frac, infinite, nan, exact, le, add, sub, mul, div, min, floor_u64, as_secs_f64, of_u64,
}
use trillium_ratelimit.Bucket.{
  Bucket, Decision, fresh, refill_per_second, refilled, charged, try_consume,
}
use trillium_ratelimit.Bucket.Bounds.{try_consume-Outcome}

-- `x` tokens are `n` units, `w` units being a token.
abbrev pub Amount : ℕ → ℕ → Fraction → Type 0
Amount w n (frac a b) = a * w ≡ n * suc b
Amount w n infinite = ⊥
Amount w n nan = ⊥

abbrev pub smaller : ℕ → ℕ → ℕ
smaller m n = if leb m n then m else n

leb_congr : {x y m n : ℕ} → (x ≤ y → m ≤ n) → (m ≤ n → x ≤ y) → leb x y ≡ leb m n
leb_congr {x} {y} {m} {n} f g = elim (Bool-cases (leb x y)) [
  | inl e ↦ rw e (sym (le→leb m n (f (leb→le x y e))))
  | inr e ↦ elim (Bool-cases (leb m n)) [
    | inl e' ↦ cc (le→leb x y (g (leb→le m n e')))
    | inr e' ↦ rw (e, e')
  ]
]

sub-mul : (m n k : ℕ) → (m - n) * k ≡ m * k - n * k
sub-mul m n k = rw (mul_comm (m - n) k, mul_comm m k, mul_comm n k) (mul-sub k m n)

module _ (w : ℕ) (positive : 0 < w) where
  pub of_u64-Amount : (n : ℕ) → Amount w (n * w) (of_u64 n)
  unfolding of_u64
  of_u64-Amount n = omega arith

  add-Amount : (x y : Fraction) (m n : ℕ) → Amount w m x → Amount w n y → Amount w (m + n) (add x y)
  unfolding add
  add-Amount (frac a b) (frac c d) m n h k =
      omega (arith, ap (λ (t : ℕ). t * suc d) h, ap (λ (t : ℕ). t * suc b) k)
  add-Amount (frac a b) infinite m n h k = absurd k
  add-Amount (frac a b) nan m n h k = absurd k
  add-Amount infinite y m n h k = absurd h
  add-Amount nan y m n h k = absurd h

  cross-Amount :
      (a b c d m n : ℕ)
      → a * w ≡ m * suc b
      → c * w ≡ n * suc d
      → leb (a * suc d) (c * suc b) ≡ leb m n
  cross-Amount a b c d m n h k =
      let p = suc b * suc d in
      let left : a * suc d * w ≡ m * p = omega (arith, ap (λ (t : ℕ). t * suc d) h) in
      let right : c * suc b * w ≡ n * p = omega (arith, ap (λ (t : ℕ). t * suc b) k) in
      leb_congr
        (λ l.
          le_of_mul-le-mul_right {k = p} (omega (arith, left, right, mul-le-mul_right w l))
            (omega arith))
        (λ l.
          le_of_mul-le-mul_right {k = w} (omega (arith, left, right, mul-le-mul_right p l))
            positive)

  -- The order of fractions is that of their units.
  pub le-Amount : (x y : Fraction) (m n : ℕ) → Amount w m x → Amount w n y → le x y ≡ leb m n
  unfolding le
  le-Amount (frac a b) (frac c d) m n h k = cross-Amount a b c d m n h k
  le-Amount (frac a b) infinite m n h k = absurd k
  le-Amount (frac a b) nan m n h k = absurd k
  le-Amount infinite y m n h k = absurd h
  le-Amount nan y m n h k = absurd h

  pub sub-Amount :
      (x y : Fraction) (m n : ℕ) → Amount w m x → Amount w n y → Amount w (m - n) (sub x y)
  unfolding sub
  sub-Amount (frac a b) (frac c d) m n h k =
      let p = suc b * suc d in
      let left : a * suc d * w ≡ m * p = omega (arith, ap (λ (t : ℕ). t * suc d) h) in
      let right : c * suc b * w ≡ n * p = omega (arith, ap (λ (t : ℕ). t * suc b) k) in
      let size : suc (b * d + b + d) ≡ p = omega arith in
      rw (size, sub-mul (a * suc d) (c * suc b) w, left, right) (sym (sub-mul m n p))
  sub-Amount (frac a b) infinite m n h k = absurd k
  sub-Amount (frac a b) nan m n h k = absurd k
  sub-Amount infinite y m n h k = absurd h
  sub-Amount nan y m n h k = absurd h

  min-Amount :
      (x y : Fraction) (m n : ℕ) → Amount w m x → Amount w n y → Amount w (smaller m n) (min x y)
  unfolding min
  min-Amount (frac a b) (frac c d) m n h k =
      let same = cross-Amount a b c d m n h k in
      elim (Bool-cases (leb m n)) [ inl e ↦ rw (same, e) h | inr e ↦ rw (same, e) k ]
  min-Amount (frac a b) infinite m n h k = absurd k
  min-Amount (frac a b) nan m n h k = absurd k
  min-Amount infinite y m n h k = absurd h
  min-Amount nan y m n h k = absurd h

  floor-Amount : (x : Fraction) (n : ℕ) → Amount w n x → floor_u64 x ≡ smaller (n / w) u64_max
  unfolding floor_u64
  floor-Amount (frac a b) n h =
      let same : a / suc b ≡ n / w =
        sym (mul-div-mul_right a (suc b) positive)
        ∙ ap (λ (t : ℕ). t / (suc b * w)) h
        ∙ rw (mul_comm (suc b) w) (mul-div-mul_right n w (omega arith)) in
      rw same
  floor-Amount infinite n h = absurd h
  floor-Amount nan n h = absurd h

-- The tokens that accrue in `e` nanoseconds.
accrued-Amount :
    (w e count : ℕ)
    → 0 < w
    → Amount w (e * count) (mul (as_secs_f64 e) (div (of_u64 count) (as_secs_f64 w)))
unfolding mul div of_u64 as_secs_f64
accrued-Amount zero e count h = absurd (omega arith)
accrued-Amount (suc w) zero zero h = omega arith
accrued-Amount (suc w) zero (suc c) h = omega arith
accrued-Amount (suc w) (suc e) zero h = omega arith
accrued-Amount (suc w) (suc e) (suc c) h =
    let den : 1 * suc w - 1 ≡ w = omega arith in rw den (omega arith)

-- The bucket of whole numbers.
abbrev pub filled : Quota → ℕ → Duration → ℕ
filled q n e = smaller (n + e * q.count) (q.burst * q.window)

abbrev pub paid : Quota → ℕ → ℕ → ℕ
paid q n cost = if leb (cost * q.window) n then n - cost * q.window else n

module _ (q : Quota) (positive : 0 < q.window) where
  pub refilled-Amount :
      (b : Bucket exact) (now : Instant) (n : ℕ)
      → Amount q.window n b.tokens
      → Amount q.window
          (filled q n (saturating_duration_since now b.last_update))
          (refilled exact b now q)
  unfolding refilled refill_per_second
  refilled-Amount b now n h =
      let e = saturating_duration_since now b.last_update in
      min-Amount q.window positive _ _ _ _
        (add-Amount q.window positive _ _ n (e * q.count) h
          (accrued-Amount q.window e q.count positive))
        (of_u64-Amount q.window positive q.burst)

  charged-Amount :
      (x : Fraction) (n cost : ℕ)
      → Amount q.window n x
      → Amount q.window (paid q n cost) (charged exact x cost)
  unfolding charged
  charged-Amount x n cost h =
      let unit = of_u64-Amount q.window positive cost in
      let test = le-Amount q.window positive (of_u64 cost) x _ n unit h in
      elim (Bool-cases (leb (cost * q.window) n)) [
        | inl e ↦ rw (test, e) (sub-Amount q.window positive x (of_u64 cost) n _ h unit)
        | inr e ↦ rw (test, e) h
      ]

  pub fresh-Amount :
      (now : Instant) → Amount q.window (q.burst * q.window) (fresh exact now q).tokens
  unfolding fresh
  fresh-Amount now = of_u64-Amount q.window positive q.burst

  -- Over exact arithmetic the bucket of fractions is the bucket of whole numbers: the refill adds
  -- the count for each nanosecond and stops at the burst, a request is admitted exactly if the
  -- level covers its cost and then takes exactly that, and the whole tokens left are reported. The
  -- window is not zero, the level is a whole number of units, a token being as many as the window
  -- has nanoseconds, and the call returns.
  pub try_consume-Amount :
      (b : Bucket exact) (now : Instant) (n cost : ℕ) (b' : Bucket exact) (d : Decision)
      → Amount q.window n b.tokens
      → try_consume exact b now q cost ≡ some (b', d)
      → let full = filled q n (saturating_duration_since now b.last_update) in
        Amount q.window (paid q full cost) b'.tokens
        × (b'.last_update ≡ now)
        × (d.allowed ≡ leb (cost * q.window) full)
        × (d.remaining ≡ smaller (paid q full cost / q.window) u64_max)
  try_consume-Amount b now n cost b' d h e =
      let o = try_consume-Outcome exact b now q cost b' d e in
      let full = refilled-Amount b now n h in
      let left = subst (Amount q.window _) (sym o.level) (charged-Amount _ _ cost full) in
      (
        left,
        o.stamped,
        o.admits ∙ le-Amount q.window positive _ _ _ _ (of_u64-Amount q.window positive cost) full,
        o.reports ∙ floor-Amount q.window positive _ _ left,
      )
