-- ===== src/Headers/LimitRoundTrip.antt =====
-- `RateLimit`: how what `Display` writes is parsed.
use mathlib.Core.Option
use trillium_ratelimit.Common.{
  ℕ, ◌+◌, ◌<◌, ◌≡◌, All, arith, length, length-append, refl, ap, Option, none, some, List, [], ◌∷◌,
  ◌++◌, append_assoc, append-nil, Text, codes,
}
use trillium_ratelimit.Time.{Duration, from_secs, as_secs}
use trillium_ratelimit.Headers.Outcome.{ok}
use trillium_ratelimit.Headers.Parser.{SfParser, IsConsuming, Value, pos, integer}
use trillium_ratelimit.Headers.Sf.{quote, escaped, write_sf_string, slice}
use trillium_ratelimit.Headers.Decimal.{decimal}
use trillium_ratelimit.Headers.Grammar.{
  Bare, digits, Item, item_spelled, params_spelled, values, IsKey, IsBare, IsBase64, ReadsRfc,
}
use trillium_ratelimit.Headers.Numerals.{number-decimal, decimal-IsBare}
use trillium_ratelimit.Headers.Spelling.{
  number_limit, key_spelled, key_params, key-values, pk-IsKey, IsPrintable, Holds, escaped-IsString,
  has_backslash-escaped,
}
use trillium_ratelimit.Headers.Limit.{
  RateLimit, no_params, keep_param, finish, parse_list, display, reset_text, key_text,
}
use trillium_ratelimit.Headers.Reading.{
  ReadsItem, keep_all, items-ReadsItem, part, slice-part, has_escape, string_value-escaped,
}

-- The text up to the partition key.
abbrev pub before_key : RateLimit → Text
before_key l =
    write_sf_string l.name
    ++ (codes ";r=" ++ (decimal l.remaining ++ (reset_text l.reset ++ codes ";pk=:")))

abbrev pub reset_params : Option Duration → List (Text × Value)
reset_params none = []
reset_params (some reset) = (codes "t", integer (pos (as_secs reset))) ∷ []

-- The parameters of the item, as RFC 9651 reads its text.
abbrev pub params_of : RateLimit → List (Text × Value)
params_of l =
    (codes "r", integer (pos l.remaining))
    ∷ (reset_params l.reset ++ key_params (before_key l) l.partition_key)

-- The item that is written for `l`, by its characters.
abbrev pub reset_spelled : Option Duration → List (Text × Bare)
reset_spelled none = []
reset_spelled (some reset) = (codes "t", digits (decimal (as_secs reset))) ∷ []

abbrev item_of : RateLimit → Item
item_of l = record {
  name = escaped l.name;
  params =
      (codes "r", digits (decimal l.remaining))
      ∷ (reset_spelled l.reset ++ key_spelled l.partition_key);
}

tail-spelled :
    (reset : Option Duration) (key : Option Text)
    → params_spelled (reset_spelled reset ++ key_spelled key) ≡ reset_text reset ++ key_text key
unfolding reset_text key_text
tail-spelled none none = refl
tail-spelled none (some key) = simp (append-nil, append_assoc)
tail-spelled (some d) none = simp (append-nil, append_assoc)
tail-spelled (some d) (some key) = simp (append-nil, append_assoc)

item-spelled : (l : RateLimit) → item_spelled (item_of l) ≡ display l
unfolding display write_sf_string
item-spelled l = rw tail-spelled refl

tail-values :
    (at : ℕ) (before : Text) (reset : Option Duration) (key : Option Text)
    → at + length (reset_text reset) + 5 ≡ length before
    → values at (reset_spelled reset ++ key_spelled key)
      ≡ reset_params reset ++ key_params before key
unfolding reset_text
tail-values at before none key h = key-values at before key (omega (arith, h))
tail-values at before (some d) key h =
    let tail =
      key-values (at + 1 + 2 + length (decimal (as_secs d))) before key (omega (arith, h)) in
    rw (number-decimal, tail) refl

item-values :
    (l : RateLimit) → values (length (escaped l.name) + 2) (item_of l).params ≡ params_of l
unfolding write_sf_string
item-values l =
    let at = length (escaped l.name) + 2 + 1 + 2 + length (decimal l.remaining) in
    let place : at + length (reset_text l.reset) + 5 ≡ length (before_key l) =
      simp length-append (omega arith) in
    rw (number-decimal, tail-values at (before_key l) l.reset l.partition_key place) refl

-- The wire has whole seconds.
abbrev pub in_seconds : RateLimit → RateLimit
in_seconds l = record l { reset = Option.map (λ d. from_secs (as_secs d)) l.reset }

display-name :
    (l : RateLimit) → (after : Text) × (display l ≡ (quote ∷ []) ++ (escaped l.name ++ after))
unfolding display write_sf_string
display-name l = (_, ap (λ t. quote ∷ t) (append_assoc (escaped l.name) (quote ∷ []) _))

display-key :
    (l : RateLimit) (key : Text)
    → l.partition_key ≡ some key
    → display l ≡ before_key l ++ (key ++ codes ":")
unfolding display key_text
display-key l key e = rw e (simp append_assoc)

-- The range of the key, if there is one, is that of the key.
abbrev Slices : Text → Text → Option Text → Type 0
Slices input before none = Unit
Slices input before (some key) = slice input (part before key) ≡ some key

display-Slices :
    (l : RateLimit) (key : Option Text)
    → l.partition_key ≡ key
    → Slices (display l) (before_key l) key
display-Slices l none e = tt
display-Slices l (some key) e = rw (display-key l key e) (slice-part (before_key l) key (codes ":"))

keep_all-params :
    (input before : Text) (r : ℕ) (reset : Option Duration) (key : Option Text)
    → Slices input before key
    → keep_all
        (keep_param input)
        no_params
        ((codes "r", integer (pos r)) ∷ (reset_params reset ++ key_params before key))
      ≡ ok (record {
        remaining = some r;
        reset = Option.map (λ d. from_secs (as_secs d)) reset;
        partition_key = key;
      })
unfolding keep_param
keep_all-params input before r none none h = refl
keep_all-params input before r none (some key) h = rw h
keep_all-params input before r (some d) none h = refl
keep_all-params input before r (some d) (some key) h = rw h

-- What RFC 9651 can carry: a printable name, numbers of at most fifteen digits, and a key in base64.
abbrev pub IsSendable : RateLimit → Type 0
IsSendable l =
    IsPrintable l.name
    × (l.remaining < number_limit)
    × Holds (λ d. as_secs d < number_limit) l.reset
    × Holds IsBase64 l.partition_key

r-IsKey : IsKey (codes "r")
r-IsKey = ((λ e. cc), (refl, tt))

t-IsKey : IsKey (codes "t")
t-IsKey = ((λ e. cc), (refl, tt))

tail-IsItem :
    (reset : Option Duration) (key : Option Text)
    → Holds (λ d. as_secs d < number_limit) reset
    → Holds IsBase64 key
    → All (λ p. IsKey p.0 × IsBare p.1) (reset_spelled reset ++ key_spelled key)
tail-IsItem none none h k = tt
tail-IsItem none (some key) h k = ((pk-IsKey, k), tt)
tail-IsItem (some d) none h k = ((t-IsKey, decimal-IsBare _ h), tt)
tail-IsItem (some d) (some key) h k = ((t-IsKey, decimal-IsBare _ h), ((pk-IsKey, k), tt))

limit-ReadsItem :
    (sf : SfParser) (l : RateLimit)
    → ReadsRfc sf
    → IsSendable l
    → ReadsItem sf
        (display l)
        (part (quote ∷ []) (escaped l.name))
        (has_escape l.name)
        (params_of l)
limit-ReadsItem sf l rfc (plain, few, soon, keyed) =
    let reads = rfc (item_of l) (
      escaped-IsString l.name plain,
      ((r-IsKey, decimal-IsBare l.remaining few), tail-IsItem l.reset l.partition_key soon keyed),
    ) in
    rw (item-spelled l, has_backslash-escaped l.name, item-values l) at reads

-- What `Display` writes for a service limit, `parse_list` reads as that one limit, with the same
-- name, remaining units and partition key, and with its reset in whole seconds. The parser reads
-- what it hands back, and every item of RFC 9651 as that document defines it. The name is printable
-- ASCII, the remaining units and the seconds are below 10^15, and the key is base64.
pub limit-parse_list-display :
    (sf : SfParser) (l : RateLimit)
    → IsConsuming sf
    → ReadsRfc sf
    → IsSendable l
    → parse_list sf (display l) ≡ ok (in_seconds l ∷ [])
unfolding parse_list
limit-parse_list-display sf l consuming rfc sendable =
    let (after, shape) = display-name l in
    let named = rw (← shape) at (string_value-escaped (quote ∷ []) l.name after) in
    items-ReadsItem sf consuming (display l) no_params (keep_param (display l)) finish _ _ _ l.name
      _ (limit-ReadsItem sf l rfc sendable) named
      (keep_all-params (display l) (before_key l) l.remaining l.reset l.partition_key
        (display-Slices l l.partition_key refl))
