-- ===== src/Headers/Outcome.antt =====
-- What a parse of src/headers/ can come to.
use trillium_ratelimit.Common.{Option, none, some, Text, codes}

-- `err` is `ParseError`, `panic` a slice out of range, and `out_of_fuel` a loop that the model cut.
pub data Result {ℓ} (A : Type ℓ) : Type ℓ where
  ok : A → Result A
  err : Result A
  panic : Result A
  out_of_fuel : Result A

infixl 5 ◌>>=◌
abbrev pub ◌>>=◌ {ℓ κ} : {A : Type ℓ} {B : Type κ} → Result A → (A → Result B) → Result B
ok a >>= f = f a
err >>= f = err
panic >>= f = panic
out_of_fuel >>= f = out_of_fuel

-- `.map_err(|_| ParseError)?`
abbrev pub or_err {ℓ} : {A : Type ℓ} → Option A → Result A
or_err none = err
or_err (some a) = ok a

abbrev pub or_panic {ℓ} : {A : Type ℓ} → Option A → Result A
or_panic none = panic
or_panic (some a) = ok a

-- `Display` of `ParseError`
abbrev pub parse_error_text : Text
parse_error_text = codes "malformed RateLimit structured field"
