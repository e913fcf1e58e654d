-- ===== src/Debug.antt =====
-- What `fmt::Debug` of src/limiter.rs and src/client.rs use of Rust's formatter, as an interface. A
-- value to be formatted is what the formatter makes of a `&dyn Debug`.
use trillium_ratelimit.Common.{Text}

pub record DebugApi : Type 1 where
  pub Formatter : Type 0
  pub Value : Type 0
  pub Builder : Type 0
  pub Outcome : Type 0
  pub debug_struct : Formatter → Text → Builder
  pub field : Builder → Text → Value → Builder
  pub finish_non_exhaustive : Builder → Outcome
