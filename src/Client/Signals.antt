-- ===== src/Client/Signals.antt =====
-- src/client.rs: `server_backoff`, what a response asks of the client.
use mathlib.Core.List.{reverse}
use mathlib.Core.Option
use trillium_ratelimit.Common.{
  ℕ, ◌+◌, ◌-◌, ◌*◌, Bool, ◌&&◌, ◌||◌, Option, none, some, List, [], ◌∷◌, Text, codes, ltb, leb,
  ◌==◌, max_option, if◌then◌else◌, u64_max,
}
use trillium_ratelimit.Time.{Duration, from_secs}
use trillium_ratelimit.Headers.Outcome.{Result, ok, err, panic, out_of_fuel}
use trillium_ratelimit.Headers.Parser.{SfParser}
use trillium_ratelimit.Headers.Limit.{RateLimit}
use trillium_ratelimit.Headers.Fields.{HeaderMap, limits_from_headers}

abbrev pub retry_after_header : Text
retry_after_header = codes "Retry-After"

-- `char::is_whitespace`
unfoldable pub is_whitespace : ℕ → Bool
is_whitespace c =
    (leb 9 c && leb c 13)
    || c == 0x20
    || c == 0x85
    || c == 0xa0
    || c == 0x1680
    || (leb 0x2000 c && leb c 0x200a)
    || c == 0x2028
    || c == 0x2029
    || c == 0x202f
    || c == 0x205f
    || c == 0x3000

unfoldable pub trim_start : Text → Text
unfolding is_whitespace
trim_start [] = []
trim_start (c ∷ s) = let rest = trim_start s in if is_whitespace c then rest else c ∷ s

-- `str::trim`
unfoldable pub trim : Text → Text
unfolding trim_start
trim s = reverse (trim_start (reverse (trim_start s)))

unfoldable pub parse_digits : ℕ → Text → Option ℕ
parse_digits n [] = some n
parse_digits n (c ∷ s) =
    let next = n * 10 + (c - b'0') in
    let rest = parse_digits next s in
    if (ltb c b'0' || ltb b'9' c) || ltb u64_max next then none else rest

-- `str::parse::<u64>`: at least one digit, behind a `+` that may be left out
unfoldable pub parse_u64 : Text → Option ℕ
unfolding parse_digits
parse_u64 [] = none
parse_u64 (c ∷ []) = parse_digits 0 (c ∷ [])
parse_u64 (c ∷ d ∷ s) = if c == b'+' then parse_digits 0 (d ∷ s) else parse_digits 0 (c ∷ d ∷ s)

-- The longest reset of an exhausted item.
unfoldable pub longest_reset : List RateLimit → Option Duration
longest_reset [] = none
longest_reset (limit ∷ limits) =
    let rest = longest_reset limits in
    if limit.remaining == 0 then max_option limit.reset rest else rest

-- `Retry-After`, if it is a number of seconds
unfoldable pub retry_after : Option Text → Option Duration
unfolding trim parse_u64
retry_after none = none
retry_after (some value) = Option.map from_secs (parse_u64 (trim value))

-- `unwrap_or_default`: a field that does not parse has no items.
abbrev pub or_empty : Result (List RateLimit) → Result (List RateLimit)
or_empty err = ok []
or_empty (ok limits) = ok limits
or_empty panic = panic
or_empty out_of_fuel = out_of_fuel

abbrev pub longest : Option Duration → Result (List RateLimit) → Result (Option Duration)
longest wait (ok limits) = ok (max_option wait (longest_reset limits))
longest wait err = err
longest wait panic = panic
longest wait out_of_fuel = out_of_fuel

unfoldable pub server_backoff :
    (map : HeaderMap) → SfParser → map.Headers → Result (Option Duration)
unfolding longest_reset retry_after
server_backoff map sf headers =
    longest (retry_after (map.get_str headers retry_after_header))
      (or_empty (limits_from_headers map sf headers))
