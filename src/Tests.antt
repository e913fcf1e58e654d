-- ===== src/Tests.antt =====
-- Concrete runs of the code's definitions, one for each theorem that has conditions.
mod Suite
mod Samples
mod Attempts
mod Reader
mod Conforming
mod OfBucket
mod OfStore
mod OfHeaders
mod OfClient
mod OfLimiter
mod OfTogether
mod OfPacing
mod OfRounding
