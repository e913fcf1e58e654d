-- ===== src/Float/Exact.antt =====
-- `f64` read as exact arithmetic: non-negative fractions, infinity and NaN, with no rounding. Only
-- `from_secs_f64` rounds, to the nearest nanosecond. A negative difference is zero, which the code
-- does not tell apart: it asks only whether a difference is `<= 0.0`.
mod Defs
mod Laws
pub use Defs.{Fraction, frac, infinite, nan}
pub use Laws.{exact-IsIeee}
unfoldable pub use Defs.{
  exact, le, add, sub, mul, div, min, floor_u64, as_secs_f64, nearest, from_secs_f64, of_u64,
}
