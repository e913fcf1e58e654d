-- ===== src/Float/Rounded.antt =====
-- `f64` with its rounding errors: what IEEE 754 and the documentation of `Duration::as_secs_f64` say
-- of how far a result of binary64 arithmetic may lie above the exact one.
use trillium_ratelimit.Common.{ℕ, ◌+◌, ◌-◌, ◌*◌, ◌^◌, ◌≤◌, ◌<◌, ◌≡◌, true}
use trillium_ratelimit.Time.{Duration, max_duration, nanos_per_sec}
use trillium_ratelimit.Float.{F64, IsNonneg, exact_max}

-- A result that is rounded to nearest is off by one part of `precision` at most, as long as it is
-- zero or in the range of normal numbers.
abbrev pub precision : ℕ
precision = 2 ^ 53

-- A quotient and a product of fractions whose parts are at most this one are normal numbers.
abbrev pub normal : ℕ
normal = 2 ^ 500

module _ (f : F64) where
  open f use {Value, of_u64, add, sub, mul, div, min, le, as_secs_f64}

  pub record IsRounded : Type 1 where
    -- `x` is a number, and at most a / d
    pub AtMost : Value → ℕ → ℕ → Type 0
    -- `x` is a number, and at least a / d
    pub AtLeast : Value → ℕ → ℕ → Type 0
    pub AtMost-number : (x : Value) (a d : ℕ) → AtMost x a d → le x x ≡ true
    pub AtMost-trans :
        (x : Value) (a d b e : ℕ) → 0 < d → 0 < e → a * e ≤ b * d → AtMost x a d → AtMost x b e
    pub AtMost-le : (x y : Value) (a d : ℕ) → le x y ≡ true → AtMost y a d → AtMost x a d
    -- whole numbers up to `exact_max` are not rounded
    pub of_u64-AtMost : (n : ℕ) → n ≤ exact_max → AtMost (of_u64 n) n 1
    pub AtMost-covers :
        (n : ℕ) (x : Value) (a d : ℕ)
        → n ≤ exact_max
        → 0 < d
        → le (of_u64 n) x ≡ true
        → AtMost x a d
        → n * d ≤ a
    pub min-AtMost : (x y : Value) (a d : ℕ) → AtMost x a d → AtMost (min x y) a d
    -- rounding is monotone, and a rounded sum is off by one part of `precision` at most
    pub add-AtMost :
        (x y : Value) (a b d : ℕ)
        → 0 < d
        → a ≤ normal
        → b ≤ normal
        → d ≤ normal
        → AtMost x a d
        → AtMost y b d
        → AtMost (add x y) ((a + b) * (precision + 1)) (d * precision)
    pub sub-AtMost :
        (x : Value) (n a d : ℕ)
        → n ≤ exact_max
        → 0 < d
        → a ≤ normal
        → d ≤ normal
        → n * d ≤ a
        → AtMost x a d
        → AtMost (sub x (of_u64 n)) ((a - n * d) * (precision + 1)) (d * precision)
    pub mul-AtMost :
        (x y : Value) (a b d e : ℕ)
        → 0 < d
        → 0 < e
        → a ≤ normal
        → b ≤ normal
        → d ≤ normal
        → e ≤ normal
        → IsNonneg f x
        → IsNonneg f y
        → AtMost x a d
        → AtMost y b e
        → AtMost (mul x y) (a * b * (precision + 1)) (d * e * precision)
    pub div-AtMost :
        (n : ℕ) (y : Value) (a d : ℕ)
        → n ≤ exact_max
        → 0 < a
        → 0 < d
        → a ≤ normal
        → d ≤ normal
        → AtLeast y a d
        → AtMost (div (of_u64 n) y) (n * d * (precision + 1)) (a * precision)
    -- `as_secs_f64` is the sum of whole seconds and of a quotient of nanoseconds: two roundings
    pub as_secs-AtMost :
        (t : Duration)
        → t ≤ max_duration
        → AtMost (as_secs_f64 t) (t * (precision + 3)) (nanos_per_sec * precision)
    pub as_secs-AtLeast :
        (t : Duration)
        → t ≤ max_duration
        → AtLeast (as_secs_f64 t) (t * (precision - 2)) (nanos_per_sec * precision)
