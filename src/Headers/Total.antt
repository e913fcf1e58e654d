-- ===== src/Headers/Total.antt =====
-- the end of `RateLimit::parse_list` and `RateLimitPolicy::parse_list`.
use trillium_ratelimit.Common.{suc, ◌≢◌, Text, arith, subst}
use trillium_ratelimit.Headers.Outcome.{out_of_fuel}
use trillium_ratelimit.Headers.Parser.{SfParser, IsConsuming, Value, pos, integer, string, byte_seq}
use trillium_ratelimit.Headers.Halting.{Ends, items-Ends}
use trillium_ratelimit.Headers.Limit
use trillium_ratelimit.Headers.Policy

limit_keeps :
    (input : Text) (k : Limit.Params) (key : Text) (v : Value)
    → Ends (λ a. Unit {0}) (Limit.keep_param input k key v)
unfolding Limit.keep_param
limit_keeps input k key (integer (pos n)) = ground arith
limit_keeps input k key (byte_seq range) = ground arith
limit_keeps input k key _ = tt

policy_keeps :
    (input : Text) (k : Policy.Params) (key : Text) (v : Value)
    → Ends (λ a. Unit {0}) (Policy.keep_param input k key v)
unfolding Policy.keep_param
policy_keeps input k key (integer (pos n)) = ground arith
policy_keeps input k key (string range escape) = ground arith
policy_keeps input k key (byte_seq range) = ground arith
policy_keeps input k key _ = tt

module _ (sf : SfParser) (consuming : IsConsuming sf) where
  -- The two parse loops end on every input, on a parser that reads what it hands back.
  pub parse_list_ends :
      (input : Text)
      → (Limit.parse_list sf input ≢ out_of_fuel) × (Policy.parse_list sf input ≢ out_of_fuel)
  unfolding Limit.parse_list Policy.parse_list
  parse_list_ends input = (
    λ e. subst (Ends (λ a. Unit {0})) e (
        items-Ends sf consuming input Limit.no_params (Limit.keep_param input) Limit.finish
          (limit_keeps input) (suc (sf.size (sf.new input))) (sf.new input) (omega arith)),
    λ e. subst (Ends (λ a. Unit {0})) e (
        items-Ends sf consuming input Policy.no_params (Policy.keep_param input) Policy.finish
          (policy_keeps input) (suc (sf.size (sf.new input))) (sf.new input) (omega arith)),
  )
