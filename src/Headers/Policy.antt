-- ===== src/Headers/Policy.antt =====
-- src/headers/rate_limit_policy.rs: one item of the `RateLimit-Policy` field.
use trillium_ratelimit.Common.{
  ℕ, zero, suc, Option, none, some, List, [], ◌++◌, Text, codes, text_eq, if◌then◌else◌,
}
use trillium_ratelimit.Time.{Duration, from_secs, as_secs}
use trillium_ratelimit.Quota
use trillium_ratelimit.Quota.{QuotaUnit, requests, as_str, from_cow}
use trillium_ratelimit.Headers.Outcome.{Result, ok, or_panic, ◌>>=◌}
use trillium_ratelimit.Headers.Parser.{SfParser, Value, pos, integer, string, byte_seq}
use trillium_ratelimit.Headers.Sf.{slice, string_value, write_sf_string}
use trillium_ratelimit.Headers.Decimal.{decimal}
use trillium_ratelimit.Headers.Items.{items}

abbrev pub policy_header : Text
policy_header = codes "RateLimit-Policy"

pub record RateLimitPolicy : Type 0 where
  pub name : Text
  pub quota : ℕ
  pub unit : QuotaUnit
  pub window : Option Duration
  pub partition_key : Option Text

-- `RateLimitPolicy::new`
unfoldable pub policy : Text → ℕ → RateLimitPolicy
policy name quota = record {
  name = name;
  quota = quota;
  unit = requests;
  window = none;
  partition_key = none;
}

unfoldable pub with_window : RateLimitPolicy → Duration → RateLimitPolicy
with_window p window = record p { window = some window }

unfoldable pub with_unit : RateLimitPolicy → QuotaUnit → RateLimitPolicy
with_unit p unit = record p { unit = unit }

unfoldable pub with_partition_key : RateLimitPolicy → Text → RateLimitPolicy
with_partition_key p key = record p { partition_key = some key }

-- The getters.
abbrev pub name : RateLimitPolicy → Text
name p = p.name

abbrev pub quota : RateLimitPolicy → ℕ
quota p = p.quota

abbrev pub unit : RateLimitPolicy → QuotaUnit
unit p = p.unit

abbrev pub window : RateLimitPolicy → Option Duration
window p = p.window

abbrev pub partition_key : RateLimitPolicy → Option Text
partition_key p = p.partition_key

-- The texts of an item have no owner in the model, and are copied as they are.
unfoldable pub into_owned : RateLimitPolicy → RateLimitPolicy
unfolding Quota.into_owned
into_owned p = record {
  name = p.name;
  quota = p.quota;
  unit = Quota.into_owned p.unit;
  window = p.window;
  partition_key = p.partition_key;
}

-- The variables that the loop over an item's parameters assigns.
pub record Params : Type 0 where
  pub quota : Option ℕ
  pub unit : QuotaUnit
  pub window : Option Duration
  pub partition_key : Option Text

abbrev pub no_params : Params
no_params = record { quota = none; unit = requests; window = none; partition_key = none }

-- A window of zero seconds is passed over.
abbrev pub keep_window : Params → ℕ → Params
keep_window p zero = p
keep_window p (suc n) = record p { window = some (from_secs (suc n)) }

unfoldable pub keep_param : Text → Params → Text → Value → Result Params
keep_param input p key (integer (pos n)) =
    if text_eq key (codes "q")
    then ok (record p { quota = some n })
    else if text_eq key (codes "w")
    then ok (keep_window p n)
    else ok p
keep_param input p key (string range escape) =
    if text_eq key (codes "qu")
    then (do
      value ← or_panic (string_value input range escape)
      ok (record p { unit = from_cow value }))
    else ok p
keep_param input p key (byte_seq range) =
    if text_eq key (codes "pk")
    then (do raw ← or_panic (slice input range); ok (record p { partition_key = some raw }))
    else ok p
keep_param input p key value = ok p

-- The item, if `q` was there.
unfoldable pub finish : Text → Params → Option RateLimitPolicy
finish name p = elim p.quota [
  | none ↦ none
  | some quota ↦ some (record {
    name = name;
    quota = quota;
    unit = p.unit;
    window = p.window;
    partition_key = p.partition_key;
  })
]

-- `RateLimitPolicy::parse_list`
unfoldable pub parse_list : SfParser → Text → Result (List RateLimitPolicy)
unfolding items keep_param finish
parse_list sf input =
    let s = sf.new input in items sf input no_params (keep_param input) finish (suc (sf.size s)) s

unfoldable pub unit_text : QuotaUnit → Text
unfolding write_sf_string as_str
unit_text requests = []
unit_text unit = codes ";qu=" ++ write_sf_string (as_str unit)

unfoldable pub window_text : Option Duration → Text
unfolding decimal
window_text none = []
window_text (some window) = codes ";w=" ++ decimal (as_secs window)

unfoldable pub key_text : Option Text → Text
key_text none = []
key_text (some key) = codes ";pk=:" ++ (key ++ codes ":")

-- `Display`; the default unit is not written.
unfoldable pub display : RateLimitPolicy → Text
display p =
    write_sf_string p.name
    ++ (codes ";q="
        ++ (decimal p.quota
            ++ (unit_text p.unit ++ (window_text p.window ++ key_text p.partition_key))))
