-- ===== src/Float/Binary/Defs.antt =====
-- The numbers of binary64 that are not negative, and its operations, each rounded to nearest with
-- ties to even. A negative difference is zero, which the code does not tell apart.
use trillium_ratelimit.Common.{
  ℕ, zero, suc, ◌+◌, ◌-◌, ◌*◌, ◌/◌, ◌^◌, ◌<◌, ◌≡◌, refl, Bool, true, false, Option, none, some,
  ◌==◌, ◌&&◌, leb, ltb, ltb→lt, if◌then◌else◌, u64_max, arith,
}
use trillium_ratelimit.Time.{Duration, nanos_per_sec, max_duration, as_secs, subsec_nanos}
use trillium_ratelimit.Float.{F64}
use trillium_ratelimit.Float.Binary.Nearest.{half_even}
use trillium_ratelimit.Float.Binary.Exponent.{exponent}
use trillium_ratelimit.Float.Binary.Round.{round, round-round}

-- One, in units of the least positive number, and the least power of two that overflows.
abbrev pub one : ℕ
one = 2 ^ 1074

abbrev pub overflow : ℕ
overflow = 2 ^ 2098

-- At most 53 bits, and no overflow.
abbrev pub is_double : ℕ → Bool
is_double n = (round n 1 == n) && ltb n overflow

abbrev pub IsDouble : ℕ → Type 0
IsDouble n = is_double n ≡ true

pub data Double : Type 0 where
  finite : (n : ℕ) → IsDouble n → Double
  infinite : Double
  nan : Double

pub round-IsDouble : (n d : ℕ) → 0 < d → round n d < overflow → IsDouble (round n d)
round-IsDouble n d h fits = ground (arith, round-round n d h)

-- The number that is nearest to n / d.
abbrev pub made : (n : ℕ) → (fits : Bool) → (fits ≡ true → IsDouble n) → Double
made n true h = finite n (h refl)
made n false h = infinite

unfoldable pub make : (n d : ℕ) → 0 < d → Double
make n d h =
    made (round n d) (ltb (round n d) overflow) (λ fits. round-IsDouble n d h (ltb→lt _ _ fits))

pub unit_pos : 0 < 1
unit_pos = omega arith

pub one_pos : 0 < one
one_pos = omega arith

pub suc_pos : (n : ℕ) → 0 < suc n
suc_pos n = omega arith

unfoldable pub of_u64 : ℕ → Double
unfolding make
of_u64 n = make (n * one) 1 unit_pos

unfoldable pub le : Double → Double → Bool
le (finite k p) (finite l q) = leb k l
le (finite k p) infinite = true
le (finite k p) nan = false
le infinite (finite l q) = false
le infinite infinite = true
le infinite nan = false
le nan y = false

unfoldable pub add : Double → Double → Double
unfolding make
add (finite k p) (finite l q) = make (k + l) 1 unit_pos
add (finite k p) infinite = infinite
add (finite k p) nan = nan
add infinite (finite l q) = infinite
add infinite infinite = infinite
add infinite nan = nan
add nan y = nan

pub zero-IsDouble : IsDouble 0
unfolding round half_even exponent
zero-IsDouble = refl

unfoldable pub sub : Double → Double → Double
unfolding make
sub (finite k p) (finite l q) = make (k - l) 1 unit_pos
sub (finite k p) infinite = finite 0 zero-IsDouble
sub (finite k p) nan = nan
sub infinite (finite l q) = infinite
sub infinite infinite = nan
sub infinite nan = nan
sub nan y = nan

unfoldable pub mul : Double → Double → Double
unfolding make
mul (finite k p) (finite l q) = make (k * l) one one_pos
mul (finite zero p) infinite = nan
mul (finite (suc k) p) infinite = infinite
mul (finite k p) nan = nan
mul infinite (finite zero q) = nan
mul infinite (finite (suc l) q) = infinite
mul infinite infinite = infinite
mul infinite nan = nan
mul nan y = nan

-- A quotient by zero, and one of finite numbers.
abbrev pub by_zero : ℕ → Double
by_zero zero = nan
by_zero (suc k) = infinite

abbrev pub quotient : ℕ → ℕ → Double
quotient k zero = by_zero k
quotient k (suc l) = make (k * one) (suc l) (suc_pos l)

unfoldable pub div : Double → Double → Double
unfolding make
div (finite k p) (finite l q) = quotient k l
div (finite k p) infinite = finite 0 zero-IsDouble
div (finite k p) nan = nan
div infinite (finite l q) = infinite
div infinite infinite = nan
div infinite nan = nan
div nan y = nan

unfoldable pub min : Double → Double → Double
min (finite k p) (finite l q) = if leb k l then finite k p else finite l q
min (finite k p) infinite = finite k p
min (finite k p) nan = finite k p
min infinite (finite l q) = finite l q
min infinite infinite = infinite
min infinite nan = infinite
min nan y = y

-- `as u64` saturates, and is zero of NaN.
unfoldable pub floor_u64 : Double → ℕ
floor_u64 (finite k p) = if leb (k / one) u64_max then k / one else u64_max
floor_u64 infinite = u64_max
floor_u64 nan = 0

-- `(secs as f64) + (nanos as f64) / (NANOS_PER_SEC as f64)`
unfoldable pub as_secs_f64 : Duration → Double
unfolding of_u64 add div
as_secs_f64 d = add (of_u64 (as_secs d)) (div (of_u64 (subsec_nanos d)) (of_u64 nanos_per_sec))

unfoldable pub from_secs_f64 : Double → Option Duration
unfolding half_even
from_secs_f64 (finite k p) =
    let t = half_even (k * nanos_per_sec) one in if leb t max_duration then some t else none
from_secs_f64 infinite = none
from_secs_f64 nan = none

abbrev pub binary64 : F64
binary64 = record {
  Value = Double;
  of_u64 = of_u64;
  nought = finite 0 zero-IsDouble;
  add = add;
  sub = sub;
  mul = mul;
  div = div;
  min = min;
  le = le;
  floor_u64 = floor_u64;
  as_secs_f64 = as_secs_f64;
  from_secs_f64 = from_secs_f64;
}
