-- ===== src/Float/Exact/Defs.antt =====
-- The operations of exact arithmetic.
use trillium_ratelimit.Common.{
  ℕ, zero, suc, ◌+◌, ◌-◌, ◌*◌, ◌/◌, Bool, true, false, Option, none, some, leb, if◌then◌else◌,
  u64_max,
}
use trillium_ratelimit.Time.{Duration, nanos_per_sec, max_duration}
use trillium_ratelimit.Float.{F64}

-- `frac n d` is n / (d + 1).
pub data Fraction : Type 0 where
  frac : ℕ → ℕ → Fraction
  infinite : Fraction
  nan : Fraction

unfoldable pub of_u64 : ℕ → Fraction
of_u64 n = frac n 0

unfoldable pub le : Fraction → Fraction → Bool
le (frac a b) (frac c d) = leb (a * suc d) (c * suc b)
le (frac a b) infinite = true
le (frac a b) nan = false
le infinite (frac c d) = false
le infinite infinite = true
le infinite nan = false
le nan y = false

unfoldable pub add : Fraction → Fraction → Fraction
add (frac a b) (frac c d) = frac (a * suc d + c * suc b) (b * d + b + d)
add (frac a b) infinite = infinite
add (frac a b) nan = nan
add infinite (frac c d) = infinite
add infinite infinite = infinite
add infinite nan = nan
add nan y = nan

unfoldable pub sub : Fraction → Fraction → Fraction
sub (frac a b) (frac c d) = frac (a * suc d - c * suc b) (b * d + b + d)
sub (frac a b) infinite = frac 0 0
sub (frac a b) nan = nan
sub infinite (frac c d) = infinite
sub infinite infinite = nan
sub infinite nan = nan
sub nan y = nan

unfoldable pub mul : Fraction → Fraction → Fraction
mul (frac zero b) (frac c d) = frac 0 0
mul (frac (suc a) b) (frac c d) = frac (suc a * c) (b * d + b + d)
mul (frac zero b) infinite = nan
mul (frac (suc a) b) infinite = infinite
mul (frac a b) nan = nan
mul infinite (frac zero d) = nan
mul infinite (frac (suc c) d) = infinite
mul infinite infinite = infinite
mul infinite nan = nan
mul nan y = nan

unfoldable pub div : Fraction → Fraction → Fraction
div (frac zero b) (frac zero d) = nan
div (frac (suc a) b) (frac zero d) = infinite
div (frac a b) (frac (suc c) d) = frac (a * suc d) (suc b * suc c - 1)
div (frac a b) infinite = frac 0 0
div (frac a b) nan = nan
div infinite (frac c d) = infinite
div infinite infinite = nan
div infinite nan = nan
div nan y = nan

unfoldable pub min : Fraction → Fraction → Fraction
min (frac a b) (frac c d) = if leb (a * suc d) (c * suc b) then frac a b else frac c d
min (frac a b) infinite = frac a b
min (frac a b) nan = frac a b
min infinite (frac c d) = frac c d
min infinite infinite = infinite
min infinite nan = infinite
min nan y = y

unfoldable pub floor_u64 : Fraction → ℕ
floor_u64 (frac a b) = if leb (a / suc b) u64_max then a / suc b else u64_max
floor_u64 infinite = u64_max
floor_u64 nan = 0

unfoldable pub as_secs_f64 : Duration → Fraction
as_secs_f64 zero = frac 0 0
as_secs_f64 (suc d) = frac (suc d) 999_999_999

-- a / (b + 1) seconds in nanoseconds, to the nearest
unfoldable pub nearest : ℕ → ℕ → ℕ
nearest a b = (2 * (a * nanos_per_sec) + suc b) / (2 * suc b)

unfoldable pub from_secs_f64 : Fraction → Option Duration
unfolding nearest
from_secs_f64 (frac a b) = if leb (nearest a b) max_duration then some (nearest a b) else none
from_secs_f64 infinite = none
from_secs_f64 nan = none

abbrev pub exact : F64
exact = record {
  Value = Fraction;
  of_u64 = of_u64;
  nought = frac 0 0;
  add = add;
  sub = sub;
  mul = mul;
  div = div;
  min = min;
  le = le;
  floor_u64 = floor_u64;
  as_secs_f64 = as_secs_f64;
  from_secs_f64 = from_secs_f64;
}
