-- ===== src/Client/Responses.antt =====
-- src/client.rs: `after_response` on every response, however malformed.
use trillium_ratelimit.Common.{
  ℕ, ◌+◌, ◌≤◌, ◌<◌, ◌≡◌, ◌∙◌, ap, ◌⊎◌, inl, inr, refl, Option, Option-cases, none, some, List, [],
  ◌∷◌, Text, true, false, Bool, Bool-cases, arith, leb, if◌then◌else◌, max, max_option, u64_max,
  ◌++◌,
}
use trillium_ratelimit.Time.{Instant, Duration, from_secs}
use trillium_ratelimit.Headers.Outcome.{Result, ok, err, panic, or_panic}
use trillium_ratelimit.Headers.Parser.{SfParser, IsConsuming}
use trillium_ratelimit.Headers.Located.{IsLocated}
use trillium_ratelimit.Headers.Panics.{parse_list_fails_cleanly}
use trillium_ratelimit.Headers.Decimal.{decimal}
use trillium_ratelimit.Headers.Limit
use trillium_ratelimit.Headers.Limit.{RateLimit}
use trillium_ratelimit.Headers.Fields.{HeaderMap, parse_lines, parse_field, limits_from_headers}
use trillium_ratelimit.Client.Throttle.{Throttle, insert, or_insert, back_off}
use trillium_ratelimit.Client.Signals.{
  retry_after, retry_after_header, or_empty, longest, longest_reset, server_backoff,
}
use trillium_ratelimit.Client.Handler.{honor, after_response}
use trillium_ratelimit.Client.Backoff.{Covers, covers, max_left}
use trillium_ratelimit.Client.RetryAfter.{retry_after-decimal}

-- An error, or a value.
abbrev pub Clean : {A : Type 0} → Result A → Type 0
Clean {A} r = (r ≡ err) ⊎ ((a : A) × (r ≡ ok a))

parse_lines-Clean :
    {A : Type 0} (parse : Text → Result (List A)) (lines : List (Option Text))
    → ((line : Text) → Clean (parse line))
    → Clean (parse_lines parse lines)
unfolding parse_lines
parse_lines-Clean parse [] h = inr ([], refl)
parse_lines-Clean parse (none ∷ lines) h = parse_lines-Clean parse lines h
parse_lines-Clean parse (some line ∷ lines) h = elim (h line) [
  | inl e ↦ inl (rw e refl)
  | inr (first, e) ↦ elim (parse_lines-Clean parse lines h) [
    | inl e' ↦ inl (rw (e, e') refl)
    | inr (rest, e') ↦ inr (first ++ rest, rw (e, e') refl)
  ]
]

parse_field-Clean :
    {A : Type 0} (parse : Text → Result (List A)) (o : Option (List (Option Text)))
    → ((line : Text) → Clean (parse line))
    → Clean (parse_field parse o)
parse_field-Clean parse none h = inr ([], refl)
parse_field-Clean parse (some lines) h = parse_lines-Clean parse lines h

if_true : {A : Type 0} {b : Bool} (x y : A) → b ≡ true → (if b then x else y) ≡ x
if_true x y e = rw e

pub after_response-honor :
    {Url : Type 0} (latest : Instant) (map : HeaderMap) (sf : SfParser) (t : Throttle Url)
    (url : Url) (headers : map.Headers) (now : Instant)
    → t.honor_server_signals ≡ true
    → after_response latest map sf t url headers now
      ≡ honor latest t url now (server_backoff map sf headers)
unfolding after_response
after_response-honor latest map sf t url headers now e = if_true _ _ e

module _ (map : HeaderMap) (sf : SfParser) (consuming : IsConsuming sf)
    (located : IsLocated sf) where
  open map use {Headers, get_str}

  limits_from_headers-Clean : (headers : Headers) → Clean (limits_from_headers map sf headers)
  unfolding limits_from_headers
  limits_from_headers-Clean headers =
      parse_field-Clean (Limit.parse_list sf) (map.get_values headers Limit.rate_limit_header)
        λ line. (parse_list_fails_cleanly sf located line consuming).0

  -- A field that does not parse is no signal, and no reason to fail.
  longest-ok :
      (wait : Option Duration) (limits : Result (List RateLimit))
      → Clean limits
      → (items : List RateLimit) × (longest wait (or_empty limits)
          ≡ ok (max_option wait (longest_reset items)))
  longest-ok wait limits (inl e) = ([], rw e refl)
  longest-ok wait limits (inr (items, e)) = (items, rw e refl)

  server_backoff-ok :
      (headers : Headers)
      → (items : List RateLimit) × (server_backoff map sf headers
          ≡ ok
              (max_option (retry_after (get_str headers retry_after_header)) (longest_reset items)))
  unfolding server_backoff
  server_backoff-ok headers = longest-ok _ _ (limits_from_headers-Clean headers)

  module _ {Url : Type 0} (latest : Instant) where
    abbrev pushed : Throttle Url → Text → Instant → Throttle Url
    pushed t scope target = record t {
      state = insert scope (max (or_insert (t.state scope) target) target) t.state;
    }

    back_off-cases :
        (t : Throttle Url) (scope : Text) (b : Duration) (now : Instant)
        → ((t' : Throttle Url) × (now + b + t.tolerance ≤ latest)
            × (back_off latest t scope b now ≡ some t'))
          ⊎ ((latest < now + b + t.tolerance) × (back_off latest t scope b now ≡ none))
    unfolding back_off
    back_off-cases t scope b now = elim (Bool-cases (leb (now + b) latest)) [
      | inl e ↦ elim (Bool-cases (leb (now + b + t.tolerance) latest)) [
        | inl e' ↦ inl (pushed t scope (now + b + t.tolerance), ground (arith, e'), rw (e, e') refl)
        | inr e' ↦ inr (ground (arith, e'), rw (e, e') refl)
      ]
      | inr e ↦ inr (ground (arith, e), rw e refl)
    ]

    -- On every response, however malformed its fields, the hook does one of three things: it leaves
    -- the throttle as it is, since signals are not honored or the response has none; it backs off
    -- by the wait that the signals ask for; or it panics, and then the end of that wait, with the
    -- tolerance, is past the last instant of the platform. The parser reads what it hands back, and
    -- its ranges lie in the text.
    pub after_response-cases :
        (t : Throttle Url) (url : Url) (headers : Headers) (now : Instant)
        → (((t.honor_server_signals ≡ false) ⊎ (server_backoff map sf headers ≡ ok none))
            × (after_response latest map sf t url headers now ≡ ok t))
          ⊎ ((b : Duration) × (t.honor_server_signals ≡ true)
              × (server_backoff map sf headers ≡ ok (some b))
              × (((t' : Throttle Url) × (now + b + t.tolerance ≤ latest)
                    × (back_off latest t (t.scope url) b now ≡ some t')
                    × (after_response latest map sf t url headers now ≡ ok t'))
                  ⊎ ((latest < now + b + t.tolerance)
                      × (after_response latest map sf t url headers now ≡ panic))))
    unfolding after_response
    after_response-cases t url headers now = elim (Bool-cases t.honor_server_signals) [
      | inr e ↦ inl (inl e, rw e refl)
      | inl e ↦
          let (items, told) = server_backoff-ok headers in
          let wait =
            max_option (retry_after (get_str headers retry_after_header)) (longest_reset items) in
          let heard = after_response-honor latest map sf t url headers now e in
          elim (Option-cases wait) [
            | inl e' ↦
                let quiet = rw e' at told in
                inl (inr quiet, heard ∙ ap (honor latest t url now) quiet)
            | inr (b, e') ↦
                let asked = rw e' at told in
                let through = heard ∙ ap (honor latest t url now) asked in
                elim (back_off-cases t (t.scope url) b now) [
                  | inl (t', room, pushed') ↦
                      inr (b, e, asked, inl (t', room, pushed', through ∙ ap or_panic pushed'))
                  | inr (past, stopped) ↦
                      inr (b, e, asked, inr (past, through ∙ ap or_panic stopped))
                ]
          ]
    ]

    -- A server can make a client panic: a `Retry-After` of so many seconds that the wait ends past
    -- the last instant of the platform does, for every such `u64` and whatever else the response
    -- has. The throttle honors signals, the parser reads what it hands back, and its ranges lie in
    -- the text.
    pub huge_retry_after_panics :
        (t : Throttle Url) (url : Url) (headers : Headers) (now : Instant) (n : ℕ)
        → t.honor_server_signals ≡ true
        → n ≤ u64_max
        → get_str headers retry_after_header ≡ some (decimal n)
        → latest < now + from_secs n
        → after_response latest map sf t url headers now ≡ panic
    huge_retry_after_panics t url headers now n honors fits sent past =
        let (items, told) = server_backoff-ok headers in
        let read = rw (sent, retry_after-decimal n fits) at told in
        let long = max_left (from_secs n) (longest_reset items) in
        after_response-honor latest map sf t url headers now honors
        ∙ ap (honor latest t url now) read
        ∙ by_wait (max_option (some (from_secs n)) (longest_reset items)) long
      where
        by_wait :
            (wait : Option Duration)
            → Covers (from_secs n) wait
            → honor latest t url now (ok wait) ≡ panic
        by_wait none h = elim h [ ]
        by_wait (some b) (covers h) = elim (back_off-cases t (t.scope url) b now) [
          | inl (t', room, _) ↦ absurd (omega (arith, room, h, past))
          | inr (_, stopped) ↦ ap or_panic stopped
        ]
