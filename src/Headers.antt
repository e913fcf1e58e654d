-- ===== src/Headers.antt =====
-- src/headers/: the types of the `RateLimit` and `RateLimit-Policy` fields, read and written.
pub mod Numerals
pub mod Outcome
pub mod Sf
pub mod Parser
pub mod Items
pub mod Decimal
pub mod Limit
pub mod Policy
pub mod Fields
pub mod Grammar
pub mod Spelling
pub mod Halting
pub mod Total
pub mod Located
pub mod Slices
pub mod Panics
pub mod Reading
pub mod LimitRoundTrip
pub mod PolicySpelling
pub mod PolicyRoundTrip
