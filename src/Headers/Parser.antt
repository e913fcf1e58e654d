-- ===== src/Headers/Parser.antt =====
-- `sfparse`, which is not part of the repository: its parser as an interface. `none` is its error,
-- and an inner `none` the end of a list, of the parameters or of an inner list.
use trillium_ratelimit.Common.{ℕ, ◌<◌, ◌≤◌, ◌≡◌, Option, none, some, Bool, Text}

-- An `i64`; `negsuc n` is -(n + 1).
pub data ℤ : Type 0 where
  pos : ℕ → ℤ
  negsuc : ℕ → ℤ

pub record Range : Type 0 where
  pub start : ℕ
  pub stop : ℕ

-- `sfparse::Value`; `bare` stands for the variants that the crate does not look at.
pub data Value : Type 0 where
  integer : ℤ → Value
  string : Range → Bool → Value
  byte_seq : Range → Value
  inner_list : Value
  bare : Value

pub record SfParser : Type 1 where
  pub State : Type 0
  pub new : Text → State
  pub parse_list : State → Option (Option Value × State)
  pub parse_param : State → Option (Option (Text × Value) × State)
  pub parse_inner_list : State → Option (Option Value × State)
  -- how much of the input is left to read
  pub size : State → ℕ

module _ (p : SfParser) where
  open p use {State, parse_list, parse_param, parse_inner_list, size}

  -- Whatever the parser hands back it has read, and an end gives nothing back.
  pub record IsConsuming : Type 0 where
    pub list_reads : (s t : State) (v : Value) → parse_list s ≡ some (some v, t) → size t < size s
    pub param_reads :
        (s t : State) (v : Text × Value) → parse_param s ≡ some (some v, t) → size t < size s
    pub inner_reads :
        (s t : State) (v : Value) → parse_inner_list s ≡ some (some v, t) → size t < size s
    pub params_end : (s t : State) → parse_param s ≡ some (none, t) → size t ≤ size s
    pub inner_end : (s t : State) → parse_inner_list s ≡ some (none, t) → size t ≤ size s
