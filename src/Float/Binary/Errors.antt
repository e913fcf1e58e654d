-- ===== src/Float/Binary/Errors.antt =====
-- The bounds on the rounding errors of the operations of binary64.
use trillium_ratelimit.Common.{
  ℕ, ◌+◌, ◌-◌, ◌*◌, ◌^◌, ◌≤◌, ◌<◌, ◌≡◌, ◌⊎◌, inl, inr, Bool-cases, leb, true, false, leb→le, arith,
  ap,
}
use native.Mathlib.Nat.{mul-le-mul_right, mul-le-mul, mul-pos}
use trillium_ratelimit.Float.{exact_max}
use trillium_ratelimit.Float.Binary.Exponent.{full}
use trillium_ratelimit.Float.Binary.Defs.{
  one, IsDouble, Double, finite, infinite, nan, of_u64, add, sub, mul, div, unit_pos, one_pos,
}
use trillium_ratelimit.Float.Binary.Order.{of_u64_exact}
use trillium_ratelimit.Float.Binary.Arithmetic.{quotient_made}
use trillium_ratelimit.Float.Binary.Bounds.{AtMost, AtLeast, make-AtMost, make-AtLeast}

pub add-AtMost :
    (x y : Double) (a b d : ℕ)
    → 0 < d
    → a ≤ 2 ^ 1000
    → b ≤ 2 ^ 1000
    → d ≤ 2 ^ 1000
    → AtMost x a d
    → AtMost y b d
    → AtMost (add x y) ((a + b) * (full + 1)) (d * full)
unfolding add
add-AtMost (finite k p) (finite l q) a b d h la lb ld m n =
    make-AtMost (k + l) 1 (a + b) d unit_pos h (omega arith) (omega arith) (omega arith)
add-AtMost (finite k p) infinite a b d h la lb ld m n = absurd n
add-AtMost (finite k p) nan a b d h la lb ld m n = absurd n
add-AtMost infinite y a b d h la lb ld m n = absurd m
add-AtMost nan y a b d h la lb ld m n = absurd m

pub add-AtLeast :
    (x y : Double) (a b d : ℕ)
    → 0 < d
    → a ≤ 2 ^ 1000
    → b ≤ 2 ^ 1000
    → d ≤ 2 ^ 1000
    → AtLeast x a d
    → AtLeast y b d
    → AtLeast (add x y) ((a + b) * (full - 1)) (d * full)
unfolding add
add-AtLeast (finite k p) (finite l q) a b d h la lb ld m n =
    make-AtLeast (k + l) 1 (a + b) d unit_pos h (omega arith) (omega arith) (omega arith)
add-AtLeast (finite k p) infinite a b d h la lb ld m n = tt
add-AtLeast (finite k p) nan a b d h la lb ld m n = absurd n
add-AtLeast infinite (finite l q) a b d h la lb ld m n = tt
add-AtLeast infinite infinite a b d h la lb ld m n = tt
add-AtLeast infinite nan a b d h la lb ld m n = absurd n
add-AtLeast nan y a b d h la lb ld m n = absurd m

sub_numbers :
    (k n a d : ℕ) (p : IsDouble k) (q : IsDouble (n * one))
    → 0 < d
    → a ≤ 2 ^ 1000
    → d ≤ 2 ^ 1000
    → n * d ≤ a
    → k * d ≤ a * one
    → AtMost (sub (finite k p) (finite (n * one) q)) ((a - n * d) * (full + 1)) (d * full)
unfolding sub
sub_numbers k n a d p q h la ld covered m =
    make-AtMost (k - n * one) 1 (a - n * d) d unit_pos h (omega arith) (omega arith)
      (omega (arith, less (Bool-cases (leb (n * one) k))))
  where
    less :
        (leb (n * one) k ≡ true) ⊎ (leb (n * one) k ≡ false) → (k - n * one) * d ≤ (a - n * d) * one
    less (inl e) =
        let left : k ≡ (k - n * one) + n * one = omega (arith, leb→le _ _ e) in
        omega (arith, m, covered, ap (λ (t : ℕ). t * d) left)
    less (inr e) = let nothing : k - n * one ≡ 0 = ground arith in rw nothing (omega arith)

pub sub-AtMost :
    (x : Double) (n a d : ℕ)
    → n ≤ exact_max
    → 0 < d
    → a ≤ 2 ^ 1000
    → d ≤ 2 ^ 1000
    → n * d ≤ a
    → AtMost x a d
    → AtMost (sub x (of_u64 n)) ((a - n * d) * (full + 1)) (d * full)
sub-AtMost (finite k p) n a d fit h la ld covered m =
    rw (of_u64_exact n fit) (sub_numbers k n a d p _ h la ld covered m)
sub-AtMost infinite n a d fit h la ld covered m = absurd m
sub-AtMost nan n a d fit h la ld covered m = absurd m

pub mul-AtMost :
    (x y : Double) (a b d e : ℕ)
    → 0 < d
    → 0 < e
    → a ≤ 2 ^ 500
    → b ≤ 2 ^ 500
    → d ≤ 2 ^ 500
    → e ≤ 2 ^ 500
    → AtMost x a d
    → AtMost y b e
    → AtMost (mul x y) (a * b * (full + 1)) (d * e * full)
unfolding mul
mul-AtMost (finite k p) (finite l q) a b d e hd he la lb ld lle m n =
    make-AtMost (k * l) one (a * b) (d * e) one_pos (mul-pos hd he)
      (omega (arith, mul-le-mul la lb)) (omega (arith, mul-le-mul ld lle))
      (omega (arith, mul-le-mul m n))
mul-AtMost (finite k p) infinite a b d e hd he la lb ld lle m n = absurd n
mul-AtMost (finite k p) nan a b d e hd he la lb ld lle m n = absurd n
mul-AtMost infinite y a b d e hd he la lb ld lle m n = absurd m
mul-AtMost nan y a b d e hd he la lb ld lle m n = absurd m

factor_pos : (l d a : ℕ) → 0 < a → a * one ≤ l * d → 0 < l
factor_pos l d a h m = elim (Bool-cases (leb l 0)) [
  | inl e ↦ absurd (omega (arith, h, m, mul-le-mul_right d (leb→le l 0 e)))
  | inr e ↦ ground arith
]

pub div-AtMost :
    (n : ℕ) (y : Double) (a d : ℕ)
    → n ≤ exact_max
    → 0 < a
    → 0 < d
    → a ≤ 2 ^ 500
    → d ≤ 2 ^ 500
    → AtLeast y a d
    → AtMost (div (of_u64 n) y) (n * d * (full + 1)) (a * full)
unfolding div
div-AtMost n (finite l q) a d fit ha hd la ld m =
    let positive : 0 < l = factor_pos l d a ha m in
    rw (of_u64_exact n fit, quotient_made (n * one) l positive)
      (make-AtMost (n * one * one) l (n * d) a positive ha (omega (arith, mul-le-mul fit ld))
        (omega arith) (omega (arith, mul-le-mul_right (n * one) m)))
div-AtMost n infinite a d fit ha hd la ld m = rw (of_u64_exact n fit) (omega arith)
div-AtMost n nan a d fit ha hd la ld m = absurd m
