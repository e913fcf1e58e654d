-- ===== src/Float/Binary.antt =====
-- `f64` as IEEE 754 defines binary64, with rounding to nearest and ties to even, overflow and NaN: a
-- finite number is a whole number of units of 2^-1074. There are no negative numbers; a negative
-- difference is zero, which the code does not tell apart.
mod Nearest
mod Exponent
mod Round
mod Defs
mod Made
mod Order
mod Arithmetic
mod Bounds
mod Errors
mod Seconds
mod Laws
pub use Laws.{binary64-IsIeee, binary64-IsRounded}
unfoldable pub use Nearest.{half_even}
unfoldable pub use Exponent.{exponent}
unfoldable pub use Round.{round}
unfoldable pub use Defs.{
  binary64, make, of_u64, le, add, sub, mul, div, min, floor_u64, as_secs_f64, from_secs_f64,
}
