-- ===== src/Client/RetryAfter.antt =====
-- src/client.rs and src/limiter.rs: the number of seconds that the server writes and the client reads.
use mathlib.Core.List.{reverse, reverse_aux, reverse-reverse}
use mathlib.Core.Option.{some-injective}
use trillium_ratelimit.Common.{
  ℕ, zero, suc, ◌+◌, ◌*◌, ◌/◌, ◌%◌, ◌-◌, ◌≤◌, ◌<◌, ◌≡◌, ◌≢◌, ◌∙◌, refl, sym, ap, inl, inr,
  Bool-cases, false, some, [], ◌∷◌, arith, Text, All, ltb, u64_max, ◌==◌,
}
use trillium_ratelimit.Time.{from_secs}
use trillium_ratelimit.Headers.Decimal.{digits, decimal}
use trillium_ratelimit.Client.Signals.{
  is_whitespace, trim_start, trim, parse_digits, parse_u64, retry_after,
}

abbrev IsDigit : ℕ → Type 0
IsDigit c = (b'0' ≤ c) × (c ≤ b'9')

digits-IsDigit : (fuel n : ℕ) (out : Text) → All IsDigit out → All IsDigit (digits fuel n out)
unfolding digits
digits-IsDigit zero n out h = h
digits-IsDigit (suc fuel) n out h =
    let d = b'0' + n % 10 in
    let here : All IsDigit (d ∷ out) = ((omega arith, omega arith), h) in
    elim (Bool-cases (ltb n 10)) [
      | inl e ↦ rw e here
      | inr e ↦ rw e (digits-IsDigit fuel (n / 10) (d ∷ out) here)
    ]

digits-ne-nil : (fuel n : ℕ) (c : ℕ) (out : Text) → digits fuel n (c ∷ out) ≢ []
unfolding digits
digits-ne-nil zero n c out h = cc h
digits-ne-nil (suc fuel) n c out h =
    let d = b'0' + n % 10 in
    elim (Bool-cases (ltb n 10)) [
      | inl e ↦ cc (rw e at h)
      | inr e ↦ digits-ne-nil fuel (n / 10) d (c ∷ out) (rw e at h)
    ]

decimal-ne-nil : (n : ℕ) → decimal n ≢ []
unfolding decimal digits
decimal-ne-nil n h = elim (Bool-cases (ltb n 10)) [
  | inl e ↦ cc (rw e at h)
  | inr e ↦ digits-ne-nil n (n / 10) (b'0' + n % 10) [] (rw e at h)
]

-- Reading the last digit of `n` after the digits before it gives `n`.
parse_last :
    (n : ℕ) (out : Text)
    → n ≤ u64_max
    → parse_digits (n / 10) ((b'0' + n % 10) ∷ out) ≡ parse_digits n out
unfolding parse_digits
parse_last n out h =
    let whole : n / 10 * 10 + (b'0' + n % 10 - b'0') ≡ n = omega arith in ground (arith, whole)

parse_digits-digits :
    (fuel n : ℕ) (out : Text)
    → n < fuel
    → n ≤ u64_max
    → parse_digits 0 (digits fuel n out) ≡ parse_digits n out
unfolding digits
parse_digits-digits zero n out h k = absurd (omega arith)
parse_digits-digits (suc fuel) n out h k = elim (Bool-cases (ltb n 10)) [
  | inl e ↦
      let small : n < 10 = ground arith in
      let none_before : n / 10 ≡ 0 = omega arith in rw e (rw none_before at (parse_last n out k))
  | inr e ↦
      let large : 10 ≤ n = ground arith in
      rw e (
        parse_digits-digits fuel (n / 10) ((b'0' + n % 10) ∷ out) (omega arith) (omega arith)
        ∙ parse_last n out k)
]

digit_stays : (c : ℕ) (s : Text) → IsDigit c → trim_start (c ∷ s) ≡ c ∷ s
unfolding trim_start is_whitespace
digit_stays c s (low, high) = ground arith

trim_start-IsDigit : (s : Text) → All IsDigit s → trim_start s ≡ s
unfolding trim_start
trim_start-IsDigit [] h = refl
trim_start-IsDigit (c ∷ s) (h, hs) = digit_stays c s h

reverse_aux-IsDigit : (s t : Text) → All IsDigit s → All IsDigit t → All IsDigit (reverse_aux s t)
reverse_aux-IsDigit [] t h k = k
reverse_aux-IsDigit (c ∷ s) t (h, hs) k = reverse_aux-IsDigit s (c ∷ t) hs (h, k)

trim-IsDigit : (s : Text) → All IsDigit s → trim s ≡ s
unfolding trim
trim-IsDigit s h =
    rw (trim_start-IsDigit s h, trim_start-IsDigit (reverse s) (reverse_aux-IsDigit s [] h tt))
      (reverse-reverse s)

parse_u64-IsDigit : (s : Text) → s ≢ [] → All IsDigit s → parse_u64 s ≡ parse_digits 0 s
unfolding parse_u64
parse_u64-IsDigit [] h k = absurd (h refl)
parse_u64-IsDigit (c ∷ []) h k = refl
parse_u64-IsDigit (c ∷ d ∷ s) h ((low, high), k) =
    let plain : (c == b'+') ≡ false = ground arith in rw plain

-- The client reads the seconds that the server writes into `Retry-After`, for every `u64`.
pub retry_after-decimal :
    (n : ℕ) → n ≤ u64_max → retry_after (some (decimal n)) ≡ some (from_secs n)
unfolding retry_after decimal parse_digits
retry_after-decimal n h =
    let all = digits-IsDigit (suc n) n [] tt in
    let read : parse_u64 (decimal n) ≡ some n =
      parse_u64-IsDigit (decimal n) (decimal-ne-nil n) all
      ∙ parse_digits-digits (suc n) n [] (omega arith) h in
    rw (trim-IsDigit (decimal n) all, read)

pub decimal-injective : (m n : ℕ) → m ≤ u64_max → n ≤ u64_max → decimal m ≡ decimal n → m ≡ n
decimal-injective m n h k e =
    let same : some (from_secs m) ≡ some (from_secs n) =
      sym (retry_after-decimal m h) ∙ ap (λ t. retry_after (some t)) e ∙ retry_after-decimal n k in
    let equal = some-injective _ _ same in omega (arith, equal)
