-- ===== src/Float/Binary/Exponent.antt =====
-- The exponent of a binary64 number that is nearest to a fraction: the whole part is below 2^53 of
-- its units, and at least 2^52, unless the unit is the least one.
use trillium_ratelimit.Common.{
  ℕ, zero, suc, ◌*◌, ◌/◌, ◌^◌, ◌≤◌, ◌<◌, inl, inr, true, false, Bool-cases, leb, leb→le, ltb,
  ltb→lt, arith,
}
use native.Mathlib.Nat.{pow-suc, pow-le-pow_right}

abbrev pub full : ℕ
full = 2 ^ 53

abbrev pub half : ℕ
half = 2 ^ 52

unfoldable pub exponent : ℕ → ℕ → ℕ
exponent zero q = 0
exponent (suc fuel) q = elim (ltb q full) [ true ↦ 0 | false ↦ suc (exponent fuel (q / 2)) ]

pub data IsExponent (q : ℕ) : ℕ → Type 0 where
  least : q < full → IsExponent q 0
  greater : {e : ℕ} → half * 2 ^ suc e ≤ q → q < full * 2 ^ suc e → IsExponent q (suc e)

doubled : (q e : ℕ) → full ≤ q → IsExponent (q / 2) e → IsExponent q (suc e)
doubled q e h (least a) = greater (omega arith) (omega arith)
doubled q (suc e) h (greater a b) =
    greater (omega (arith, pow-suc 2 (suc e), a)) (omega (arith, pow-suc 2 (suc e), b))

exponent_fuel : (fuel q : ℕ) → q < full * 2 ^ fuel → IsExponent q (exponent fuel q)
unfolding exponent
exponent_fuel zero q h = least (omega arith)
exponent_fuel (suc fuel) q h = elim (Bool-cases (ltb q full)) [
  | inl small ↦ rw (small, exponent) (least (ltb→lt _ _ small))
  | inr large ↦
      rw (large, exponent)
        (doubled q _ (ground arith) (exponent_fuel fuel (q / 2) (omega (arith, pow-suc 2 fuel, h))))
]

below_power : (n : ℕ) → n < 2 ^ n
below_power zero = omega arith
below_power (suc n) = omega (arith, pow-suc 2 n, below_power n)

pub exponent-IsExponent : (q : ℕ) → IsExponent q (exponent q q)
exponent-IsExponent q = exponent_fuel q q (omega (arith, below_power q))

pub power_pos : (n : ℕ) → 0 < 2 ^ n
power_pos n = omega (arith, below_power n)

-- A greater whole part has no smaller exponent.
pub exponent_mono : (q r e g : ℕ) → q ≤ r → IsExponent q e → IsExponent r g → e ≤ g
exponent_mono q r zero g h x y = omega arith
exponent_mono q r (suc e) g h (greater a b) y = elim (Bool-cases (leb (suc e) g)) [
  | inl yes_le ↦ leb→le _ _ yes_le
  | inr no_le ↦ absurd (short g (ground arith) y)
]
  where
    short : (g : ℕ) → g ≤ e → IsExponent r g → ⊥
    short zero l (least c) = omega (arith, power_pos e, pow-suc 2 e)
    short (suc g) l (greater c d) =
        omega (arith, pow-le-pow_right {n = 2} (omega arith) l, pow-suc 2 e)
