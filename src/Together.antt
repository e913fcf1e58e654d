-- ===== src/Together.antt =====
-- The server's handler and the client's throttle on the two ends of a connection.
pub mod Refusal
pub mod Stacked
pub mod Paced
pub mod Rounding
pub mod Unrefused
