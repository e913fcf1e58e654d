-- ===== src/Headers/PolicySpelling.antt =====
-- `RateLimitPolicy`: the item that `Display` writes, as RFC 9651 reads it.
use trillium_ratelimit.Common.{
  ℕ, ◌+◌, ◌<◌, ◌≡◌, refl, ap, Bool, Option, none, some, List, [], ◌∷◌, ◌++◌, append_assoc,
  append-nil, Text, All, codes, length, length-append, arith,
}
use trillium_ratelimit.Time.{Duration, as_secs}
use trillium_ratelimit.Quota.{
  QuotaUnit, requests, content_bytes, concurrent_requests, other, as_str,
}
use trillium_ratelimit.Headers.Parser.{SfParser, Value, pos, integer, string}
use trillium_ratelimit.Headers.Sf.{quote, escaped, write_sf_string}
use trillium_ratelimit.Headers.Decimal.{decimal}
use trillium_ratelimit.Headers.Grammar.{
  Bare, digits, quoted, Item, item_spelled, params_spelled, values, IsKey, IsBare, IsBase64,
  ReadsRfc,
}
use trillium_ratelimit.Headers.Numerals.{number-decimal, decimal-IsBare}
use trillium_ratelimit.Headers.Spelling.{
  number_limit, key_spelled, key_params, key-values, pk-IsKey, IsPrintable, Holds, escaped-IsString,
  has_backslash-escaped,
}
use trillium_ratelimit.Headers.Policy.{RateLimitPolicy, display, unit_text, window_text, key_text}
use trillium_ratelimit.Headers.Reading.{ReadsItem, part, has_escape}

-- The text up to the unit's token, and up to the partition key.
abbrev pub before_unit : RateLimitPolicy → Text
before_unit p = write_sf_string p.name ++ (codes ";q=" ++ (decimal p.quota ++ codes ";qu=\""))

abbrev pub before_key : RateLimitPolicy → Text
before_key p =
    write_sf_string p.name
    ++ (codes ";q="
        ++ (decimal p.quota ++ (unit_text p.unit ++ (window_text p.window ++ codes ";pk=:"))))

abbrev pub unit_param : Text → QuotaUnit → List (Text × Value)
unit_param before unit =
    (codes "qu", string (part before (escaped (as_str unit))) (has_escape (as_str unit))) ∷ []

abbrev pub unit_params : Text → QuotaUnit → List (Text × Value)
unit_params before requests = []
unit_params before content_bytes = unit_param before content_bytes
unit_params before concurrent_requests = unit_param before concurrent_requests
unit_params before (other t) = unit_param before (other t)

abbrev pub window_params : Option Duration → List (Text × Value)
window_params none = []
window_params (some window) = (codes "w", integer (pos (as_secs window))) ∷ []

-- The parameters of the item, as RFC 9651 reads its text.
abbrev pub params_of : RateLimitPolicy → List (Text × Value)
params_of p =
    (codes "q", integer (pos p.quota))
    ∷ (unit_params (before_unit p) p.unit
        ++ (window_params p.window ++ key_params (before_key p) p.partition_key))

-- The item that is written for `p`, by its characters.
abbrev pub unit_quoted : QuotaUnit → List (Text × Bare)
unit_quoted unit = (codes "qu", quoted (escaped (as_str unit))) ∷ []

abbrev pub unit_spelled : QuotaUnit → List (Text × Bare)
unit_spelled requests = []
unit_spelled content_bytes = unit_quoted content_bytes
unit_spelled concurrent_requests = unit_quoted concurrent_requests
unit_spelled (other t) = unit_quoted (other t)

abbrev pub window_spelled : Option Duration → List (Text × Bare)
window_spelled none = []
window_spelled (some window) = (codes "w", digits (decimal (as_secs window))) ∷ []

abbrev pub item_of : RateLimitPolicy → Item
item_of p = record {
  name = escaped p.name;
  params =
      (codes "q", digits (decimal p.quota))
      ∷ (unit_spelled p.unit ++ (window_spelled p.window ++ key_spelled p.partition_key));
}

tail-spelled :
    (window : Option Duration) (key : Option Text)
    → params_spelled (window_spelled window ++ key_spelled key) ≡ window_text window ++ key_text key
unfolding window_text key_text
tail-spelled none none = refl
tail-spelled none (some key) = simp (append-nil, append_assoc)
tail-spelled (some d) none = simp (append-nil, append_assoc)
tail-spelled (some d) (some key) = simp (append-nil, append_assoc)

unit-spelled :
    (unit : QuotaUnit) (ps : List (Text × Bare))
    → params_spelled (unit_spelled unit ++ ps) ≡ unit_text unit ++ params_spelled ps
unfolding unit_text write_sf_string
unit-spelled requests ps = refl
unit-spelled content_bytes ps = simp append_assoc
unit-spelled concurrent_requests ps = simp append_assoc
unit-spelled (other t) ps = simp append_assoc

pub item-spelled : (p : RateLimitPolicy) → item_spelled (item_of p) ≡ display p
unfolding display write_sf_string
item-spelled p = rw (unit-spelled, tail-spelled) refl

tail-values :
    (at : ℕ) (before : Text) (window : Option Duration) (key : Option Text)
    → at + length (window_text window) + 5 ≡ length before
    → values at (window_spelled window ++ key_spelled key)
      ≡ window_params window ++ key_params before key
unfolding window_text
tail-values at before none key h = key-values at before key (omega (arith, h))
tail-values at before (some d) key h =
    let tail =
      key-values (at + 1 + 2 + length (decimal (as_secs d))) before key (omega (arith, h)) in
    rw (number-decimal, tail) refl

string_lem :
    (m n size : ℕ) (escape : Bool)
    → m ≡ n
    → ◌≡◌ {A = Value}
        (string (record { start = m; stop = m + size }) escape)
        (string (record { start = n; stop = n + size }) escape)
string_lem m n size escape e = rw e refl

unit_quoted-values :
    (at next : ℕ) (before : Text) (unit : QuotaUnit) (ps : List (Text × Bare))
    → at + 5 ≡ length before
    → at + length (codes ";qu=" ++ write_sf_string (as_str unit)) ≡ next
    → values at (unit_quoted unit ++ ps) ≡ unit_param before unit ++ values next ps
unfolding write_sf_string
unit_quoted-values at next before unit ps h k =
    let first =
      string_lem (at + 2 + 2 + 1) (length before) (length (escaped (as_str unit)))
        (has_escape (as_str unit)) (omega (arith, h)) in
    let behind : at + 2 + 2 + length (quote ∷ (escaped (as_str unit) ++ (quote ∷ []))) ≡ next =
      omega (arith, k) in
    rw (has_backslash-escaped (as_str unit), first, behind) refl

unit-values :
    (at next : ℕ) (before : Text) (unit : QuotaUnit) (ps : List (Text × Bare))
    → at + 5 ≡ length before
    → at + length (unit_text unit) ≡ next
    → values at (unit_spelled unit ++ ps) ≡ unit_params before unit ++ values next ps
unfolding unit_text
unit-values at next before requests ps h k = ap (λ n. values n ps) (omega (arith, k))
unit-values at next before content_bytes ps h k =
    unit_quoted-values at next before content_bytes ps h k
unit-values at next before concurrent_requests ps h k =
    unit_quoted-values at next before concurrent_requests ps h k
unit-values at next before (other t) ps h k = unit_quoted-values at next before (other t) ps h k

pub item-values :
    (p : RateLimitPolicy) → values (length (escaped p.name) + 2) (item_of p).params ≡ params_of p
unfolding write_sf_string
item-values p =
    let at = length (escaped p.name) + 2 + 1 + 2 + length (decimal p.quota) in
    let next = at + length (unit_text p.unit) in
    let unit_place : at + 5 ≡ length (before_unit p) = simp length-append (omega arith) in
    let place : next + length (window_text p.window) + 5 ≡ length (before_key p) =
      simp length-append (omega arith) in
    rw
      (
        number-decimal,
        unit-values at next (before_unit p) p.unit _ unit_place refl,
        tail-values next (before_key p) p.window p.partition_key place,
      )
      refl

-- What RFC 9651 can carry: a printable name and token, numbers of at most fifteen digits, and a key
-- in base64.
abbrev pub IsSendable : RateLimitPolicy → Type 0
IsSendable p =
    IsPrintable p.name
    × (p.quota < number_limit)
    × IsPrintable (as_str p.unit)
    × Holds (λ d. as_secs d < number_limit) p.window
    × Holds IsBase64 p.partition_key

q-IsKey : IsKey (codes "q")
q-IsKey = ((λ e. cc), (refl, tt))

qu-IsKey : IsKey (codes "qu")
qu-IsKey = ((λ e. cc), (refl, (refl, tt)))

w-IsKey : IsKey (codes "w")
w-IsKey = ((λ e. cc), (refl, tt))

abbrev AreParams : List (Text × Bare) → Type 0
AreParams ps = All (λ p. IsKey p.0 × IsBare p.1) ps

tail-AreParams :
    (window : Option Duration) (key : Option Text)
    → Holds (λ d. as_secs d < number_limit) window
    → Holds IsBase64 key
    → AreParams (window_spelled window ++ key_spelled key)
tail-AreParams none none h k = tt
tail-AreParams none (some key) h k = ((pk-IsKey, k), tt)
tail-AreParams (some d) none h k = ((w-IsKey, decimal-IsBare _ h), tt)
tail-AreParams (some d) (some key) h k = ((w-IsKey, decimal-IsBare _ h), ((pk-IsKey, k), tt))

unit-AreParams :
    (unit : QuotaUnit) (ps : List (Text × Bare))
    → IsPrintable (as_str unit)
    → AreParams ps
    → AreParams (unit_spelled unit ++ ps)
unit-AreParams requests ps h k = k
unit-AreParams content_bytes ps h k = ((qu-IsKey, escaped-IsString _ h), k)
unit-AreParams concurrent_requests ps h k = ((qu-IsKey, escaped-IsString _ h), k)
unit-AreParams (other t) ps h k = ((qu-IsKey, escaped-IsString _ h), k)

pub policy-ReadsItem :
    (sf : SfParser) (p : RateLimitPolicy)
    → ReadsRfc sf
    → IsSendable p
    → ReadsItem sf
        (display p)
        (part (quote ∷ []) (escaped p.name))
        (has_escape p.name)
        (params_of p)
policy-ReadsItem sf p rfc (plain, few, token, lasts, keyed) =
    let rest = tail-AreParams p.window p.partition_key lasts keyed in
    let reads = rfc (item_of p) (
      escaped-IsString p.name plain,
      ((q-IsKey, decimal-IsBare p.quota few), unit-AreParams p.unit _ token rest),
    ) in
    rw (item-spelled p, has_backslash-escaped p.name, item-values p) at reads
