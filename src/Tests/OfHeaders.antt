-- ===== src/Tests/OfHeaders.antt =====
-- Runs of src/headers/.
use trillium_ratelimit.Common.{
  true, ◌≡◌, ◌⊎◌, subst, arith, length, All, refl, none, some, List, [], ◌∷◌, Text, codes,
}
use trillium_ratelimit.Time.{from_secs}
use trillium_ratelimit.Quota.{content_bytes, as_str}
use trillium_ratelimit.Headers.Outcome.{ok, err}
use trillium_ratelimit.Headers.Parser.{SfParser, Range, Value, string, byte_seq}
use trillium_ratelimit.Headers.Limit
use trillium_ratelimit.Headers.Limit.{RateLimit}
use trillium_ratelimit.Headers.Policy
use trillium_ratelimit.Headers.Policy.{RateLimitPolicy}
use trillium_ratelimit.Headers.LimitRoundTrip
use trillium_ratelimit.Headers.PolicySpelling
use trillium_ratelimit.Headers.Located.{InText, IsLocated}
use trillium_ratelimit.Headers.Panics.{parse_list_fails_cleanly}
use trillium_ratelimit.Tests.Samples.{
  Reply, item, param, stop, script_list, script_param, replying, replying-IsConsuming,
}
use trillium_ratelimit.Headers.LimitRoundTrip.{in_seconds, limit-parse_list-display}
use trillium_ratelimit.Headers.PolicyRoundTrip.{on_wire, policy-parse_list-display}
use trillium_ratelimit.Tests.Reader.{reader, reader-IsConsuming}
use trillium_ratelimit.Tests.Conforming.{reader-ReadsRfc}

abbrev quoted_name : Text
quoted_name = codes "a\"b\\c"

abbrev service_limit : RateLimit
service_limit = record {
  name = quoted_name;
  remaining = 3;
  reset = some (from_secs 30);
  partition_key = some (codes "Zm9v");
}

abbrev service_policy : RateLimitPolicy
service_policy = record {
  name = quoted_name;
  quota = 100;
  unit = content_bytes;
  window = some (from_secs 60);
  partition_key = none;
}

limit-IsSendable : LimitRoundTrip.IsSendable service_limit
limit-IsSendable = (
  (refl, (refl, (refl, (refl, (refl, tt))))),
  omega arith,
  omega arith,
  (codes "Zm9v", 0, refl, (refl, (refl, (refl, (refl, tt)))), refl),
)

policy-IsSendable : PolicySpelling.IsSendable service_policy
unfolding as_str
policy-IsSendable = (
  (refl, (refl, (refl, (refl, (refl, tt))))),
  omega arith,
  (
    refl,
    (
      refl,
      (refl, (refl, (refl, (refl, (refl, (refl, (refl, (refl, (refl, (refl, (refl, tt))))))))))),
    ),
  ),
  omega arith,
  tt,
)

-- A parser that takes the whole text for a name and for a key, and then finds it malformed.
abbrev pub whole : Text → Range
whole text = record { start = 0; stop = length text }

abbrev pub cut_off_replies : Text → List Reply
cut_off_replies text =
    item (string (whole text) true) ∷ param (codes "pk", byte_seq (whole text)) ∷ []

abbrev pub cut_off : SfParser
cut_off = replying cut_off_replies

abbrev Fits : Text → Reply → Type 0
Fits text (item v) = InText text v
Fits text (param p) = InText text p.1
Fits text stop = Unit

list-Fits :
    (text : Text) (s t : List Reply) (v : Value)
    → All (Fits text) s
    → script_list s ≡ some (some v, t)
    → All (Fits text) t × InText text v
list-Fits text [] t v h e = cc
list-Fits text (item w ∷ s) t v (h, hs) e =
    let same : w ≡ v = cc e in
    let rest : s ≡ t = cc e in (subst (All (Fits text)) rest hs, subst (InText text) same h)
list-Fits text (param p ∷ s) t v h e = cc
list-Fits text (stop ∷ s) t v h e = cc

param-Fits :
    (text : Text) (s t : List Reply) (v : Text × Value)
    → All (Fits text) s
    → script_param s ≡ some (some v, t)
    → All (Fits text) t × InText text v.1
param-Fits text [] t v h e = cc
param-Fits text (item w ∷ s) t v h e = cc
param-Fits text (param p ∷ s) t v (h, hs) e =
    let same : p ≡ v = cc e in
    let rest : s ≡ t = cc e in
    (subst (All (Fits text)) rest hs, subst (λ u. InText text u.1) same h)
param-Fits text (stop ∷ s) t v h e = cc

params_end-Fits :
    (text : Text) (s t : List Reply)
    → All (Fits text) s
    → script_param s ≡ some (none, t)
    → All (Fits text) t
params_end-Fits text [] t h e = cc
params_end-Fits text (item w ∷ s) t h e = cc
params_end-Fits text (param p ∷ s) t h e = cc
params_end-Fits text (stop ∷ s) t (h, hs) e =
    let rest : s ≡ t = cc e in subst (All (Fits text)) rest hs

pub cut_off-IsLocated : IsLocated cut_off
cut_off-IsLocated = record {
  On = λ text s. All (Fits text) s;
  on_new = λ text. ((omega arith, omega arith), ((omega arith, omega arith), tt));
  list_on = list-Fits;
  param_on = param-Fits;
  params_end_on = params_end-Fits;
  inner_on = λ text s t v h e. cc;
  inner_end_on = λ text s t h e. cc;
}

parse_list_fails_cleanly_example :
    ((Limit.parse_list cut_off (codes "a\"\\") ≡ err)
      ⊎ ((limits : List RateLimit) × (Limit.parse_list cut_off (codes "a\"\\") ≡ ok limits)))
    × ((Policy.parse_list cut_off (codes "a\"\\") ≡ err)
        ⊎ ((policies : List RateLimitPolicy) × (Policy.parse_list cut_off (codes "a\"\\")
              ≡ ok policies)))
parse_list_fails_cleanly_example =
    parse_list_fails_cleanly cut_off cut_off-IsLocated (codes "a\"\\")
      (replying-IsConsuming cut_off_replies)

limit-parse_list-display_example :
    Limit.parse_list reader (Limit.display service_limit) ≡ ok (in_seconds service_limit ∷ [])
limit-parse_list-display_example =
    limit-parse_list-display reader service_limit reader-IsConsuming reader-ReadsRfc
      limit-IsSendable

policy-parse_list-display_example :
    Policy.parse_list reader (Policy.display service_policy) ≡ ok (on_wire service_policy ∷ [])
policy-parse_list-display_example =
    policy-parse_list-display reader service_policy reader-IsConsuming reader-ReadsRfc
      policy-IsSendable tt
