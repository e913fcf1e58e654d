-- ===== src/Float.antt =====
-- `f64`, as src/bucket.rs and src/client.rs use it: the operations as an interface, and the facts of
-- IEEE 754 arithmetic that the proofs rest on. Float/Binary.antt is binary64 and meets them, and so
-- does Float/Exact.antt, by exact fractions.
pub mod Exact
pub mod Binary
pub mod Rounded
use trillium_ratelimit.Common.{
  ℕ, ◌-◌, ◌^◌, ◌≤◌, ◌<◌, ◌≡◌, ◌⊎◌, Bool, true, false, Option, none, some, u64_max,
}
use trillium_ratelimit.Time.{Duration, max_duration}

pub record F64 : Type 1 where
  pub Value : Type 0
  -- `n as f64`
  pub of_u64 : ℕ → Value
  -- the constant 0.0
  pub nought : Value
  pub add : Value → Value → Value
  pub sub : Value → Value → Value
  pub mul : Value → Value → Value
  pub div : Value → Value → Value
  -- `x.min(y)`
  pub min : Value → Value → Value
  -- `x <= y`
  pub le : Value → Value → Bool
  -- `x.floor() as u64`
  pub floor_u64 : Value → ℕ
  -- `Duration::as_secs_f64`
  pub as_secs_f64 : Duration → Value
  -- `Duration::from_secs_f64`, which panics on a value that no `Duration` holds
  pub from_secs_f64 : Value → Option Duration

-- Every natural number up to this one is a binary64 value.
abbrev pub exact_max : ℕ
exact_max = 2 ^ 53

module _ (f : F64) where
  open f use {
    Value, of_u64, nought, add, sub, mul, div, min, le, floor_u64, as_secs_f64, from_secs_f64,
  }

  -- NaN is the value that is not `<=` itself.
  abbrev pub IsNan : Value → Type 0
  IsNan x = le x x ≡ false

  abbrev pub IsNonneg : Value → Type 0
  IsNonneg x = le nought x ≡ true

  abbrev pub IsNonnegOrNan : Value → Type 0
  IsNonnegOrNan x = IsNonneg x ⊎ IsNan x

  -- Facts of binary64 arithmetic with rounding to nearest, overflow and NaN included. They speak of
  -- `n as f64` for a `u64` only.
  pub record IsIeee : Type 0 where
    pub le_trans : (x y z : Value) → le x y ≡ true → le y z ≡ true → le x z ≡ true
    -- a comparison that holds has no NaN on either side
    pub le_refl_of : (x y : Value) → le x y ≡ true → le x x ≡ true
    pub le_total : (x y : Value) → le x x ≡ true → le y y ≡ true → le x y ≡ false → le y x ≡ true
    -- rounding is monotone
    pub of_u64_mono : (m n : ℕ) → m ≤ n → le (of_u64 m) (of_u64 n) ≡ true
    pub of_u64_zero : of_u64 0 ≡ nought
    -- `min` passes over a NaN
    pub min-le_right : (x : Value) (n : ℕ) → le (min x (of_u64 n)) (of_u64 n) ≡ true
    pub min_nan : (x y : Value) → IsNan x → min x y ≡ y
    pub le-min : (x y z : Value) → le z x ≡ true → le z y ≡ true → le z (min x y) ≡ true
    pub add_nonneg : (x y : Value) → IsNonneg x → IsNonnegOrNan y → IsNonnegOrNan (add x y)
    pub mul_nonneg : (x y : Value) → IsNonneg x → IsNonnegOrNan y → IsNonnegOrNan (mul x y)
    pub div_nonneg : (n : ℕ) (d : Duration) → IsNonnegOrNan (div (of_u64 n) (as_secs_f64 d))
    pub as_secs_nonneg : (d : Duration) → IsNonneg (as_secs_f64 d)
    pub as_secs_zero : as_secs_f64 0 ≡ nought
    -- a difference of non-negative finite values lies between zero and the first of them
    pub sub_bounds :
        (x y : Value) (n : ℕ)
        → n ≤ u64_max
        → le x (of_u64 n) ≡ true
        → IsNonneg y
        → le y x ≡ true
        → IsNonneg (sub x y) × (le (sub x y) x ≡ true)
    pub floor_mono : (x y : Value) → le x y ≡ true → floor_u64 x ≤ floor_u64 y
    -- what is exact on the natural numbers that binary64 represents
    pub floor-of_u64 : (n : ℕ) → n ≤ exact_max → floor_u64 (of_u64 n) ≡ n
    pub lt-of_u64 : (m n : ℕ) → n ≤ exact_max → m < n → le (of_u64 n) (of_u64 m) ≡ false
    pub sub-of_u64 : (m n : ℕ) → n ≤ exact_max → m ≤ n → sub (of_u64 n) (of_u64 m) ≡ of_u64 (n - m)
    pub min-of_u64 : (m n : ℕ) → m ≤ n → min (of_u64 m) (of_u64 n) ≡ of_u64 m
    pub add_nought : (n : ℕ) → add (of_u64 n) nought ≡ of_u64 n
    -- a rate over a window that is not zero is finite
    pub mul_nought :
        (n : ℕ) (d : Duration)
        → n ≤ u64_max
        → 0 < d
        → d ≤ max_duration
        → mul nought (div (of_u64 n) (as_secs_f64 d)) ≡ nought
    -- a quotient by a positive number grows with the dividend
    pub div_mono :
        (x : Value) (m : ℕ) (r : Value)
        → m ≤ u64_max
        → IsNonneg x
        → le x (of_u64 m) ≡ true
        → IsNonneg r
        → le r nought ≡ false
        → IsNonneg (div x r) × (le (div x r) (div (of_u64 m) r) ≡ true)
    -- `from_secs_f64` panics on NaN, and on no smaller value where it does not on a larger one
    pub from_secs_nan : (x r : Value) → IsNan r → from_secs_f64 (div x r) ≡ none
    pub from_secs_mono :
        (x y : Value) (d : Duration)
        → IsNonneg x
        → le x y ≡ true
        → from_secs_f64 y ≡ some d
        → (e : Duration) × (from_secs_f64 x ≡ some e) × (e ≤ d)
