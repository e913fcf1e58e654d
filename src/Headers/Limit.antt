-- ===== src/Headers/Limit.antt =====
-- src/headers/rate_limit.rs: one item of the `RateLimit` field.
use trillium_ratelimit.Common.{
  ℕ, suc, Option, none, some, List, [], ◌++◌, Text, codes, text_eq, if◌then◌else◌,
}
use trillium_ratelimit.Time.{Duration, from_secs, as_secs}
use trillium_ratelimit.Headers.Outcome.{Result, ok, or_panic, ◌>>=◌}
use trillium_ratelimit.Headers.Parser.{SfParser, Value, pos, integer, byte_seq}
use trillium_ratelimit.Headers.Sf.{slice, write_sf_string}
use trillium_ratelimit.Headers.Decimal.{decimal}
use trillium_ratelimit.Headers.Items.{items}

abbrev pub rate_limit_header : Text
rate_limit_header = codes "RateLimit"

pub record RateLimit : Type 0 where
  pub name : Text
  pub remaining : ℕ
  pub reset : Option Duration
  pub partition_key : Option Text

-- `RateLimit::new`
unfoldable pub limit : Text → ℕ → RateLimit
limit name remaining = record {
  name = name;
  remaining = remaining;
  reset = none;
  partition_key = none;
}

unfoldable pub with_reset : RateLimit → Duration → RateLimit
with_reset l reset = record l { reset = some reset }

unfoldable pub with_partition_key : RateLimit → Text → RateLimit
with_partition_key l key = record l { partition_key = some key }

-- The getters.
abbrev pub name : RateLimit → Text
name l = l.name

abbrev pub remaining : RateLimit → ℕ
remaining l = l.remaining

abbrev pub reset : RateLimit → Option Duration
reset l = l.reset

abbrev pub partition_key : RateLimit → Option Text
partition_key l = l.partition_key

-- The texts of an item have no owner in the model, and are copied as they are.
unfoldable pub into_owned : RateLimit → RateLimit
into_owned l = record {
  name = l.name;
  remaining = l.remaining;
  reset = l.reset;
  partition_key = l.partition_key;
}

-- The variables that the loop over an item's parameters assigns.
pub record Params : Type 0 where
  pub remaining : Option ℕ
  pub reset : Option Duration
  pub partition_key : Option Text

abbrev pub no_params : Params
no_params = record { remaining = none; reset = none; partition_key = none }

unfoldable pub keep_param : Text → Params → Text → Value → Result Params
keep_param input p key (integer (pos n)) =
    if text_eq key (codes "r")
    then ok (record p { remaining = some n })
    else if text_eq key (codes "t")
    then ok (record p { reset = some (from_secs n) })
    else ok p
keep_param input p key (byte_seq range) =
    if text_eq key (codes "pk")
    then (do raw ← or_panic (slice input range); ok (record p { partition_key = some raw }))
    else ok p
keep_param input p key value = ok p

-- The item, if `r` was there.
unfoldable pub finish : Text → Params → Option RateLimit
finish name p = elim p.remaining [
  | none ↦ none
  | some remaining ↦ some (record {
    name = name;
    remaining = remaining;
    reset = p.reset;
    partition_key = p.partition_key;
  })
]

-- `RateLimit::parse_list`
unfoldable pub parse_list : SfParser → Text → Result (List RateLimit)
unfolding items keep_param finish
parse_list sf input =
    let s = sf.new input in items sf input no_params (keep_param input) finish (suc (sf.size s)) s

unfoldable pub reset_text : Option Duration → Text
unfolding decimal
reset_text none = []
reset_text (some reset) = codes ";t=" ++ decimal (as_secs reset)

unfoldable pub key_text : Option Text → Text
key_text none = []
key_text (some key) = codes ";pk=:" ++ (key ++ codes ":")

-- `Display`
unfoldable pub display : RateLimit → Text
display l =
    write_sf_string l.name
    ++ (codes ";r=" ++ (decimal l.remaining ++ (reset_text l.reset ++ key_text l.partition_key)))
