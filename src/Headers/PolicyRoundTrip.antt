-- ===== src/Headers/PolicyRoundTrip.antt =====
-- `RateLimitPolicy`: how what `Display` writes is parsed.
use trillium_ratelimit.Common.{
  ℕ, zero, suc, ◌≡◌, refl, ap, Option, none, some, [], ◌∷◌, ◌++◌, append_assoc, ◌∙◌, Text, codes,
}
use trillium_ratelimit.Time.{Duration, from_secs, as_secs}
use trillium_ratelimit.Quota.{
  QuotaUnit, requests, content_bytes, concurrent_requests, other, as_str, from_cow,
}
use trillium_ratelimit.Headers.Outcome.{ok}
use trillium_ratelimit.Headers.Parser.{SfParser, IsConsuming, pos, integer}
use trillium_ratelimit.Headers.Sf.{quote, escaped, write_sf_string, slice, string_value}
use trillium_ratelimit.Headers.Grammar.{ReadsRfc}
use trillium_ratelimit.Headers.Spelling.{key_params}
use trillium_ratelimit.Quota.Units.{IsRead, from_cow-as_str}
use trillium_ratelimit.Headers.PolicySpelling.{
  before_unit, before_key, unit_params, window_params, IsSendable, policy-ReadsItem,
}
use trillium_ratelimit.Headers.Policy.{
  RateLimitPolicy, Params, no_params, keep_window, keep_param, finish, parse_list, display,
  unit_text, window_text, key_text,
}
use trillium_ratelimit.Headers.Reading.{
  keep_all, items-ReadsItem, part, slice-part, has_escape, string_value-escaped,
}

-- The wire has whole seconds, and a window of less than one is lost.
abbrev pub window_seconds : ℕ → Option Duration
window_seconds zero = none
window_seconds (suc n) = some (from_secs (suc n))

abbrev pub window_read : Option Duration → Option Duration
window_read none = none
window_read (some window) = window_seconds (as_secs window)

-- What of a policy is on the wire.
abbrev pub on_wire : RateLimitPolicy → RateLimitPolicy
on_wire p = record p { window = window_read p.window }

display-name :
    (p : RateLimitPolicy) → (after : Text) × (display p ≡ (quote ∷ []) ++ (escaped p.name ++ after))
unfolding display write_sf_string
display-name p = (_, ap (λ t. quote ∷ t) (append_assoc (escaped p.name) (quote ∷ []) _))

display-key :
    (p : RateLimitPolicy) (key : Text)
    → p.partition_key ≡ some key
    → display p ≡ before_key p ++ (key ++ codes ":")
unfolding display key_text
display-key p key e = rw e (simp append_assoc)

-- The range of the key, and that of the unit's token, if there is one.
abbrev SlicesKey : Text → Text → Option Text → Type 0
SlicesKey input before none = Unit
SlicesKey input before (some key) = slice input (part before key) ≡ some key

abbrev SlicesUnit : Text → Text → QuotaUnit → Type 0
SlicesUnit input before unit =
    string_value input (part before (escaped (as_str unit))) (has_escape (as_str unit))
    ≡ some (as_str unit)

display-SlicesKey :
    (p : RateLimitPolicy) (key : Option Text)
    → p.partition_key ≡ key
    → SlicesKey (display p) (before_key p) key
display-SlicesKey p none e = tt
display-SlicesKey p (some key) e =
    rw (display-key p key e) (slice-part (before_key p) key (codes ":"))

unit_text_lem :
    (unit : QuotaUnit)
    → (unit ≡ requests → ⊥)
    → unit_text unit ≡ codes ";qu=\"" ++ (escaped (as_str unit) ++ (quote ∷ []))
unfolding unit_text
unit_text_lem requests h = absurd (h refl)
unit_text_lem content_bytes h = refl
unit_text_lem concurrent_requests h = refl
unit_text_lem (other t) h = refl

display-SlicesUnit :
    (p : RateLimitPolicy) → (p.unit ≡ requests → ⊥) → SlicesUnit (display p) (before_unit p) p.unit
unfolding display
display-SlicesUnit p h =
    let after = (quote ∷ []) ++ (window_text p.window ++ key_text p.partition_key) in
    let shape : display p ≡ before_unit p ++ (escaped (as_str p.unit) ++ after) =
      rw (unit_text_lem p.unit h) (simp append_assoc) in
    rw shape (string_value-escaped (before_unit p) (as_str p.unit) after)

-- The variables of the loop, before a window and a key are read.
abbrev so_far : ℕ → QuotaUnit → Params
so_far quota unit = record { quota = some quota; unit = unit; window = none; partition_key = none }

keep_window-seconds :
    (quota : ℕ) (unit : QuotaUnit) (n : ℕ)
    → keep_window (so_far quota unit) n ≡ record (so_far quota unit) { window = window_seconds n }
keep_window-seconds quota unit zero = refl
keep_window-seconds quota unit (suc n) = refl

keep_tail :
    (input before : Text) (quota : ℕ) (unit : QuotaUnit) (window : Option Duration)
    (key : Option Text)
    → SlicesKey input before key
    → keep_all
        (keep_param input)
        (so_far quota unit)
        (window_params window ++ key_params before key)
      ≡ ok (record (so_far quota unit) { window = window_read window; partition_key = key })
unfolding keep_param
keep_tail input before quota unit none none h = refl
keep_tail input before quota unit none (some key) h = rw h
keep_tail input before quota unit (some d) none h = rw (keep_window-seconds quota unit (as_secs d))
keep_tail input before quota unit (some d) (some key) h =
    rw (keep_window-seconds quota unit (as_secs d), h)

from_cow-requests : from_cow (as_str requests) ≡ requests
unfolding from_cow as_str
from_cow-requests = refl

keep_all-params :
    (input before behind : Text) (quota : ℕ) (unit : QuotaUnit) (window : Option Duration)
    (key : Option Text)
    → ((unit ≡ requests → ⊥) → SlicesUnit input before unit)
    → SlicesKey input behind key
    → keep_all (keep_param input) no_params (
        (codes "q", integer (pos quota))
        ∷ (unit_params before unit ++ (window_params window ++ key_params behind key)))
      ≡ ok (record (so_far quota (from_cow (as_str unit))) {
        window = window_read window;
        partition_key = key;
      })
unfolding keep_param
keep_all-params input before behind quota requests window key u h =
    rw from_cow-requests (keep_tail input behind quota requests window key h)
keep_all-params input before behind quota content_bytes window key u h =
    rw (u (λ e. cc)) (keep_tail input behind quota _ window key h)
keep_all-params input before behind quota concurrent_requests window key u h =
    rw (u (λ e. cc)) (keep_tail input behind quota _ window key h)
keep_all-params input before behind quota (other t) window key u h =
    rw (u (λ e. cc)) (keep_tail input behind quota _ window key h)

-- What `Display` writes for a policy, `parse_list` reads as that one policy, with the same name,
-- quota, unit and partition key, and with its window in whole seconds, or with none if it is shorter
-- than a second. The unit is a registered one or another whose token is not registered. The parser
-- reads what it hands back, and every item of RFC 9651 as that document defines it. The name and
-- the unit's token are printable ASCII, the quota and the window's seconds are below 10^15, and the
-- key is base64.
pub policy-parse_list-display :
    (sf : SfParser) (p : RateLimitPolicy)
    → IsConsuming sf
    → ReadsRfc sf
    → IsSendable p
    → IsRead p.unit
    → parse_list sf (display p) ≡ ok (on_wire p ∷ [])
unfolding parse_list
policy-parse_list-display sf p consuming rfc sendable registered =
    let (after, shape) = display-name p in
    let named = rw (← shape) at (string_value-escaped (quote ∷ []) p.name after) in
    items-ReadsItem sf consuming (display p) no_params (keep_param (display p)) finish _ _ _ p.name
      _ (policy-ReadsItem sf p rfc sendable) named
      (keep_all-params (display p) (before_unit p) (before_key p) p.quota p.unit p.window
          p.partition_key (display-SlicesUnit p) (display-SlicesKey p p.partition_key refl)
        ∙ ap
            (λ unit. ok (record (so_far p.quota unit) {
              window = window_read p.window;
              partition_key = p.partition_key;
            }))
            (from_cow-as_str p.unit registered))
