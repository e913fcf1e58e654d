-- ===== src/Headers/Decimal.antt =====
-- `write!(f, "{}", n)` of a `u64`.
use trillium_ratelimit.Common.{
  ℕ, zero, suc, ◌+◌, ◌/◌, ◌%◌, ◌≡◌, refl, [], ◌∷◌, Text, codes, ltb, if◌then◌else◌,
}

unfoldable pub digits : ℕ → ℕ → Text → Text
digits zero n out = out
digits (suc fuel) n out =
    let d = b'0' + n % 10 in
    let more = digits fuel (n / 10) (d ∷ out) in if ltb n 10 then d ∷ out else more

-- A number has fewer digits than its successor counts.
unfoldable pub decimal : ℕ → Text
unfolding digits
decimal n = digits (suc n) n []

big : decimal 18446744073709551615 ≡ codes "18446744073709551615"
unfolding decimal
big = refl
