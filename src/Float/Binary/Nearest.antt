-- ===== src/Float/Binary/Nearest.antt =====
-- Rounding a fraction to the nearest whole number, ties to even.
use trillium_ratelimit.Common.{
  ℕ, suc, ◌+◌, ◌*◌, ◌/◌, ◌%◌, ◌≤◌, ◌<◌, ◌≡◌, inl, inr, Bool-cases, leb, leb→le, ltb, ◌==◌, ◌||◌,
  ◌&&◌, if◌then◌else◌, arith,
}
use native.Mathlib.Nat.{mul-le-mul_right, mod-lt, mod-add-div', mul-pos}

-- Up where the remainder is more than half, or half and the quotient odd.
abbrev up : ℕ → ℕ → ℕ → ℕ
up q r d = if ltb d (2 * r) || ((2 * r == d) && (q % 2 == 1)) then suc q else q

-- n / d
unfoldable pub half_even : ℕ → ℕ → ℕ
half_even n d = up (n / d) (n % d) d

-- The four facts about the quotient, the remainder and the choice.
data IsNearest (n d k : ℕ) : Type 0 where
  within : 2 * (k * d) < 2 * n + d → 2 * n < 2 * (k * d) + d → IsNearest n d k
  tied : k % 2 ≡ 0 → 2 * (k * d) ≤ 2 * n + d → 2 * n ≤ 2 * (k * d) + d → IsNearest n d k

up-IsNearest : (q r d n : ℕ) → r < d → r + q * d ≡ n → IsNearest n d (up q r d)
up-IsNearest q r d n h e = elim (Bool-cases (ltb d (2 * r))) [
  | inl high ↦ rw high (within (ground arith) (ground arith))
  | inr low ↦ elim (Bool-cases (2 * r == d)) [
    | inl half ↦ elim (Bool-cases (q % 2 == 1)) [
      | inl odd ↦ rw (low, half, odd) (tied (ground arith) (ground arith) (ground arith))
      | inr even ↦ rw (low, half, even) (tied (ground arith) (ground arith) (ground arith))
    ]
    | inr below ↦ rw (low, below) (within (ground arith) (ground arith))
  ]
]

half_even-IsNearest : (n d : ℕ) → 0 < d → IsNearest n d (half_even n d)
unfolding half_even
half_even-IsNearest n d h = up-IsNearest (n / d) (n % d) d n (mod-lt n h) (mod-add-div' n d)

below : (n d k : ℕ) → IsNearest n d k → 2 * (k * d) ≤ 2 * n + d
below n d k (within a b) = omega (arith, a)
below n d k (tied e a b) = a

above : (n d k : ℕ) → IsNearest n d k → 2 * n ≤ 2 * (k * d) + d
above n d k (within a b) = omega (arith, b)
above n d k (tied e a b) = b

-- At most half a unit off.
pub half_even-le : (n d : ℕ) → 0 < d → 2 * (half_even n d * d) ≤ 2 * n + d
half_even-le n d h = below n d _ (half_even-IsNearest n d h)

pub half_even-ge : (n d : ℕ) → 0 < d → 2 * n ≤ 2 * (half_even n d * d) + d
half_even-ge n d h = above n d _ (half_even-IsNearest n d h)

-- A greater whole number is further from the other fraction, or both are ties.
apart :
    (n d m e k l : ℕ)
    → 0 < d
    → 0 < e
    → n * e ≤ m * d
    → l < k
    → IsNearest n d k
    → IsNearest m e l
    → ⊥
apart n d m e k l hd he h less (within a b) y =
    omega (
      arith,
      mul-le-mul_right (d * e) less,
      mul-le-mul_right e a,
      mul-le-mul_right d (above m e l y),
    )
apart n d m e k l hd he h less (tied p a b) (within a' b') =
    omega (arith, mul-le-mul_right (d * e) less, mul-le-mul_right e a, mul-le-mul_right d b')
apart n d m e k l hd he h less (tied p a b) (tied p' a' b') =
    let two : suc (suc l) ≤ k = omega (arith, p, p', less) in
    omega (
      arith,
      mul-pos hd he,
      mul-le-mul_right (d * e) two,
      mul-le-mul_right e a,
      mul-le-mul_right d b',
    )

pub half_even_mono : (n d m e : ℕ) → 0 < d → 0 < e → n * e ≤ m * d → half_even n d ≤ half_even m e
half_even_mono n d m e hd he h = elim (Bool-cases (leb (half_even n d) (half_even m e))) [
  | inl yes_le ↦ leb→le _ _ yes_le
  | inr no_le ↦ absurd (
      apart n d m e _ _ hd he h (ground arith) (half_even-IsNearest n d hd)
        (half_even-IsNearest m e he))
]

le_of_below : (k l d : ℕ) → 0 < d → 2 * (k * d) ≤ 2 * (l * d) + d → k ≤ l
le_of_below k l d h b = elim (Bool-cases (leb k l)) [
  | inl yes_le ↦ leb→le _ _ yes_le
  | inr no_le ↦
      let more : suc l ≤ k = ground arith in absurd (omega (arith, b, h, mul-le-mul_right d more))
]

-- A whole number is not rounded.
pub half_even_exact : (k d : ℕ) → 0 < d → half_even (k * d) d ≡ k
half_even_exact k d h = omega (
  arith,
  le_of_below (half_even (k * d) d) k d h (half_even-le (k * d) d h),
  le_of_below k (half_even (k * d) d) d h (half_even-ge (k * d) d h),
)
