-- ===== src/Float/Binary/Round.antt =====
-- Rounding of a fraction to binary64, in units of the least positive number.
use trillium_ratelimit.Common.{
  ℕ, zero, suc, ◌+◌, ◌-◌, ◌*◌, ◌/◌, ◌^◌, ◌≤◌, ◌<◌, ◌≡◌, ◌∙◌, ap, subst, sym, inl, inr, Bool-cases,
  leb, ltb, ltb→lt, arith,
}
use native.Mathlib.Nat.{
  pow-suc, mul-le-mul_right, mul-pos, pow-le-pow_right, le_trans, div-lt_iff_lt-mul,
  le-div_iff_mul-le, mul-div-le, le_of_mul-le-mul_right,
}
use trillium_ratelimit.Float.Binary.Nearest.{
  half_even, half_even-le, half_even-ge, half_even_mono, half_even_exact,
}
use trillium_ratelimit.Float.Binary.Exponent.{
  full, half, exponent, IsExponent, least, greater, exponent-IsExponent, exponent_mono, power_pos,
}

-- n / d, to at most 53 bits
unfoldable pub round : ℕ → ℕ → ℕ
round n d = let e = exponent (n / d) (n / d) in half_even n (d * 2 ^ e) * 2 ^ e

module _ (n d : ℕ) (h : 0 < d) where
  ends : (e : ℕ) → IsExponent (n / d) e → n < full * 2 ^ e * d
  ends zero (least a) = omega (arith, (div-lt_iff_lt-mul h).0 a)
  ends (suc e) (greater a b) = (div-lt_iff_lt-mul h).0 b

  starts : (e : ℕ) → IsExponent (n / d) (suc e) → half * 2 ^ suc e * d ≤ n
  starts e (greater a b) = (le-div_iff_mul-le h).0 a

  unit_pos : (e : ℕ) → 0 < d * 2 ^ e
  unit_pos e = mul-pos h (power_pos e)

  mantissa_le : (e : ℕ) → IsExponent (n / d) e → half_even n (d * 2 ^ e) ≤ full
  mantissa_le e x =
      le_trans
        (half_even_mono n (d * 2 ^ e) (full * (d * 2 ^ e)) (d * 2 ^ e) (unit_pos e) (unit_pos e)
          (mul-le-mul_right (d * 2 ^ e) (omega (arith, ends e x))))
        (omega (arith, half_even_exact full (d * 2 ^ e) (unit_pos e)))

  mantissa_ge : (e : ℕ) → IsExponent (n / d) (suc e) → half ≤ half_even n (d * 2 ^ suc e)
  mantissa_ge e x =
      le_trans (omega (arith, half_even_exact half (d * 2 ^ suc e) (unit_pos (suc e)))) (
        half_even_mono (half * (d * 2 ^ suc e)) (d * 2 ^ suc e) n (d * 2 ^ suc e) (unit_pos (suc e))
          (unit_pos (suc e)) (mul-le-mul_right (d * 2 ^ suc e) (omega (arith, starts e x))))

  unit_le : (e : ℕ) → IsExponent (n / d) e → half * d ≤ n → half * (d * 2 ^ e) ≤ n
  unit_le zero x normal = omega arith
  unit_le (suc e) x normal = omega (arith, starts e x)

  -- The error is at most one part in 2^53, unless the result has fewer bits.
  error_le :
      (e : ℕ)
      → IsExponent (n / d) e
      → half * d ≤ n
      → full * (half_even n (d * 2 ^ e) * 2 ^ e * d) ≤ n * (full + 1)
  error_le e x normal = omega (arith, half_even-le n (d * 2 ^ e) (unit_pos e), unit_le e x normal)

  error_ge :
      (e : ℕ)
      → IsExponent (n / d) e
      → half * d ≤ n
      → n * (full - 1) ≤ full * (half_even n (d * 2 ^ e) * 2 ^ e * d)
  error_ge e x normal = omega (arith, half_even-ge n (d * 2 ^ e) (unit_pos e), unit_le e x normal)

div_cross : (n d m c : ℕ) → 0 < d → 0 < c → n * c ≤ m * d → n / d ≤ m / c
div_cross n d m c hd hc h =
    (le-div_iff_mul-le hc).1
      (le_of_mul-le-mul_right {k = d} (omega (arith, mul-le-mul_right c (mul-div-le n d), h)) hd)

same_unit :
    (n d m c e g : ℕ)
    → 0 < d
    → 0 < c
    → n * c ≤ m * d
    → e ≡ g
    → half_even n (d * 2 ^ e) * 2 ^ e ≤ half_even m (c * 2 ^ g) * 2 ^ g
same_unit n d m c e g hd hc h same = rw (sym same) (
    mul-le-mul_right (2 ^ e) (
      half_even_mono n (d * 2 ^ e) m (c * 2 ^ e) (unit_pos n d hd e) (unit_pos m c hc e)
        (omega (arith, mul-le-mul_right (2 ^ e) h))))

lesser_unit :
    (n d m c e g : ℕ)
    → 0 < d
    → 0 < c
    → e < g
    → IsExponent (n / d) e
    → IsExponent (m / c) g
    → half_even n (d * 2 ^ e) * 2 ^ e ≤ half_even m (c * 2 ^ g) * 2 ^ g
lesser_unit n d m c e zero hd hc less x y = absurd (omega arith)
lesser_unit n d m c e (suc g) hd hc less x y = omega (
  arith,
  mul-le-mul_right (2 ^ e) (mantissa_le n d hd e x),
  mul-le-mul_right (2 ^ suc g) (mantissa_ge m c hc g y),
  pow-le-pow_right {n = 2} (omega arith) less,
  pow-suc 2 e,
)

-- Rounding is monotone.
pub round_mono : (n d m c : ℕ) → 0 < d → 0 < c → n * c ≤ m * d → round n d ≤ round m c
unfolding round
round_mono n d m c hd hc h = elim (Bool-cases (ltb e g)) [
  | inl less ↦ lesser_unit n d m c e g hd hc (ltb→lt e g less) x y
  | inr more ↦ same_unit n d m c e g hd hc h (ground (arith, ordered))
]
  where
    e : ℕ
    e = exponent (n / d) (n / d)

    g : ℕ
    g = exponent (m / c) (m / c)

    x : IsExponent (n / d) e
    x = exponent-IsExponent (n / d)

    y : IsExponent (m / c) g
    y = exponent-IsExponent (m / c)

    ordered : e ≤ g
    ordered = exponent_mono (n / d) (m / c) e g (div_cross n d m c hd hc h) x y

power_add : (a b : ℕ) → 2 ^ (a + b) ≡ 2 ^ a * 2 ^ b
power_add zero b = let same : 0 + b ≡ b = omega arith in rw same (omega arith)
power_add (suc a) b =
    let same : suc a + b ≡ suc (a + b) = omega arith in
    rw (same, pow-suc 2 (a + b), pow-suc 2 a, power_add a b) (omega arith)

whole : (n j u : ℕ) → 0 < u → n ≡ j * u → half_even n u ≡ j
whole n j u h e = rw e (half_even_exact j u h)

coarse_at :
    (k x d e : ℕ)
    → 0 < d
    → k ≤ full
    → x < e
    → IsExponent (k * 2 ^ x * d / d) e
    → half_even (k * 2 ^ x * d) (d * 2 ^ e) * 2 ^ e ≡ k * 2 ^ x
coarse_at k x d zero h fits less at = absurd (omega arith)
coarse_at k x d (suc e) h fits less at =
    let low : half * 2 ^ suc e ≤ k * 2 ^ x =
      le_of_mul-le-mul_right {k = d} (starts (k * 2 ^ x * d) d h e at) h in
    let same : k * 2 ^ x ≡ half * 2 ^ suc e = omega (
      arith,
      low,
      mul-le-mul_right (2 ^ x) fits,
      pow-le-pow_right {n = 2} (omega arith) less,
      pow-suc 2 x,
    ) in
    rw (whole (k * 2 ^ x * d) half (d * 2 ^ suc e) (unit_pos 0 d h (suc e)) (rw same (omega arith)))
      (sym same)

exact_at :
    (k x d e : ℕ)
    → 0 < d
    → k ≤ full
    → IsExponent (k * 2 ^ x * d / d) e
    → half_even (k * 2 ^ x * d) (d * 2 ^ e) * 2 ^ e ≡ k * 2 ^ x
exact_at k x d e h fits at = elim (Bool-cases (leb e x)) [
  | inl fine ↦
      let rest : x - e + e ≡ x = ground arith in
      let split : 2 ^ x ≡ 2 ^ (x - e) * 2 ^ e =
        ap (λ (t : ℕ). 2 ^ t) (sym rest) ∙ power_add (x - e) e in
      rw
        (whole (k * 2 ^ x * d) (k * 2 ^ (x - e)) (d * 2 ^ e) (unit_pos 0 d h e)
          (rw split (omega arith)))
        (rw split (omega arith))
  | inr coarse ↦ coarse_at k x d e h fits (ground arith) at
]

-- What has at most 53 bits is not rounded.
pub round_exact : (k x d : ℕ) → 0 < d → k ≤ full → round (k * 2 ^ x * d) d ≡ k * 2 ^ x
unfolding round
round_exact k x d h fits = exact_at k x d _ h fits (exponent-IsExponent (k * 2 ^ x * d / d))

pub round-le : (n d : ℕ) → 0 < d → half * d ≤ n → full * (round n d * d) ≤ n * (full + 1)
unfolding round
round-le n d h normal = error_le n d h _ (exponent-IsExponent (n / d)) normal

pub round-ge : (n d : ℕ) → 0 < d → half * d ≤ n → n * (full - 1) ≤ full * (round n d * d)
unfolding round
round-ge n d h normal = error_ge n d h _ (exponent-IsExponent (n / d)) normal

-- A result is not rounded again.
pub round-round : (n d : ℕ) → 0 < d → round (round n d) 1 ≡ round n d
unfolding round
round-round n d h =
    let e = exponent (n / d) (n / d) in
    let k = half_even n (d * 2 ^ e) in
    let one : k * 2 ^ e * 1 ≡ k * 2 ^ e = omega arith in
    subst (λ (t : ℕ). round t 1 ≡ k * 2 ^ e) one
      (round_exact k e 1 (omega arith) (mantissa_le n d h e (exponent-IsExponent (n / d))))
