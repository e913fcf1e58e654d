-- ===== src/Headers/Fields.antt =====
-- `from_headers` of src/headers/rate_limit.rs and src/headers/rate_limit_policy.rs. The header map is
-- trillium's, which is not part of the repository.
use trillium_ratelimit.Common.{Option, none, some, List, [], ◌∷◌, ◌++◌, Text}
use trillium_ratelimit.Headers.Outcome.{Result, ok, ◌>>=◌}
use trillium_ratelimit.Headers.Parser.{SfParser}
use trillium_ratelimit.Headers.Limit
use trillium_ratelimit.Headers.Limit.{RateLimit, rate_limit_header}
use trillium_ratelimit.Headers.Policy
use trillium_ratelimit.Headers.Policy.{RateLimitPolicy, policy_header}

-- `get_values` of a name: its field lines, each as text where it is valid UTF-8.
pub record HeaderMap : Type 1 where
  pub Headers : Type 0
  pub get_values : Headers → Text → Option (List (Option Text))
  -- `get_str`: the value of a name that has one, as text
  pub get_str : Headers → Text → Option Text

-- The loop over the lines, which stops at the first that does not parse.
unfoldable pub parse_lines :
    {A : Type 0} → (Text → Result (List A)) → List (Option Text) → Result (List A)
parse_lines parse [] = ok []
parse_lines parse (none ∷ lines) = parse_lines parse lines
parse_lines parse (some line ∷ lines) = do
  first ← parse line
  rest ← parse_lines parse lines
  ok (first ++ rest)

abbrev pub parse_field :
    {A : Type 0} → (Text → Result (List A)) → Option (List (Option Text)) → Result (List A)
parse_field parse none = ok []
parse_field parse (some lines) = parse_lines parse lines

module _ (map : HeaderMap) (sf : SfParser) where
  open map use {Headers, get_values}

  unfoldable pub limits_from_headers : Headers → Result (List RateLimit)
  unfolding parse_lines
  limits_from_headers headers =
      parse_field (Limit.parse_list sf) (get_values headers rate_limit_header)

  unfoldable pub policies_from_headers : Headers → Result (List RateLimitPolicy)
  unfolding parse_lines
  policies_from_headers headers =
      parse_field (Policy.parse_list sf) (get_values headers policy_header)
