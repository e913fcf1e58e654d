-- ===== src/Headers/Numerals.antt =====
-- src/headers/: the decimal numbers that `Display` writes, as RFC 9651 reads them.
use trillium_ratelimit.Common.{
  ℕ, zero, suc, ◌+◌, ◌*◌, ◌/◌, ◌%◌, ◌-◌, ◌≤◌, ◌<◌, ◌≡◌, ◌≢◌, ◌∙◌, ap, inl, inr, Bool-cases, true,
  [], ◌∷◌, arith, Text, All, ltb, length,
}
use trillium_ratelimit.Headers.Decimal
use trillium_ratelimit.Headers.Decimal.{decimal}
use trillium_ratelimit.Headers.Grammar.{number, is_digit, IsBare, digits}

abbrev pub ten_to : ℕ → ℕ
ten_to zero = 1
ten_to (suc k) = 10 * ten_to k

last_digit : (n : ℕ) → is_digit (b'0' + n % 10) ≡ true
last_digit n = let small : n % 10 < 10 = omega arith in ground arith

digits-is_digit :
    (fuel n : ℕ) (out : Text)
    → All (λ c. is_digit c ≡ true) out
    → All (λ c. is_digit c ≡ true) (Decimal.digits fuel n out)
unfolding Decimal.digits
digits-is_digit zero n out h = h
digits-is_digit (suc fuel) n out h = elim (Bool-cases (ltb n 10)) [
  | inl e ↦ rw e (last_digit n, h)
  | inr e ↦ rw e (digits-is_digit fuel (n / 10) ((b'0' + n % 10) ∷ out) (last_digit n, h))
]

digits-length :
    (fuel n k : ℕ) (out : Text)
    → n < ten_to (suc k)
    → length (Decimal.digits fuel n out) ≤ suc k + length out
unfolding Decimal.digits
digits-length zero n k out h = omega arith
digits-length (suc fuel) n zero out h = elim (Bool-cases (ltb n 10)) [
  | inl e ↦ rw e (omega arith)
  | inr e ↦ ground arith
]
digits-length (suc fuel) n (suc k) out h = elim (Bool-cases (ltb n 10)) [
  | inl e ↦ rw e (omega arith)
  | inr e ↦
      let ih = digits-length fuel (n / 10) k ((b'0' + n % 10) ∷ out) (omega arith) in
      rw e (omega (arith, ih))
]

number-digits :
    (fuel n : ℕ) (out : Text) → n < fuel → number 0 (Decimal.digits fuel n out) ≡ number n out
unfolding Decimal.digits number
number-digits zero n out h = absurd (omega arith)
number-digits (suc fuel) n out h = elim (Bool-cases (ltb n 10)) [
  | inl e ↦
      let whole : 0 + (b'0' + n % 10 - b'0') ≡ n = ground arith in
      rw e (ap (λ m. number m out) whole)
  | inr e ↦
      let whole : n / 10 * 10 + (b'0' + n % 10 - b'0') ≡ n = omega arith in
      rw e (
        number-digits fuel (n / 10) ((b'0' + n % 10) ∷ out) (ground arith)
        ∙ ap (λ m. number m out) whole)
]

pub number-decimal : (n : ℕ) → number 0 (decimal n) ≡ n
unfolding decimal number
number-decimal n = number-digits (suc n) n [] (omega arith)

digits-ne-nil : (fuel n c : ℕ) (out : Text) → Decimal.digits fuel n (c ∷ out) ≢ []
unfolding Decimal.digits
digits-ne-nil zero n c out h = cc h
digits-ne-nil (suc fuel) n c out h =
    let d = b'0' + n % 10 in
    elim (Bool-cases (ltb n 10)) [
      | inl e ↦ cc (rw e at h)
      | inr e ↦ digits-ne-nil fuel (n / 10) d (c ∷ out) (rw e at h)
    ]

decimal-ne-nil : (n : ℕ) → decimal n ≢ []
unfolding decimal Decimal.digits
decimal-ne-nil n h = elim (Bool-cases (ltb n 10)) [
  | inl e ↦ cc (rw e at h)
  | inr e ↦ digits-ne-nil n (n / 10) (b'0' + n % 10) [] (rw e at h)
]

-- A number of at most fifteen digits is an integer of RFC 9651.
pub decimal-IsBare : (n : ℕ) → n < 1_000_000_000_000_000 → IsBare (digits (decimal n))
unfolding decimal
decimal-IsBare n h =
    (decimal-ne-nil n, digits-is_digit (suc n) n [] tt, digits-length (suc n) n 14 [] h)
