-- ===== src/Client.antt =====
-- src/client.rs: the throttle that paces outbound requests.
pub mod Throttle
pub mod Signals
pub mod Handler
pub mod New
pub mod Interval
pub mod Pacing
pub mod Burst
pub mod Order
pub mod Scopes
pub mod Backoff
pub mod RetryAfter
pub mod Slower
pub mod Responses
pub mod Debug
