-- ===== src/Headers/Spelling.antt =====
-- src/headers/sf.rs: the strings that `Display` writes, as RFC 9651 reads them.
use trillium_ratelimit.Common.{
  ℕ, ◌+◌, ◌≡◌, refl, ap, inl, inr, Bool-cases, true, false, Option, none, some, List, [], ◌∷◌, Text,
  codes, All, length, arith, ◌==◌,
}
use trillium_ratelimit.Headers.Parser.{Value, byte_seq}
use trillium_ratelimit.Headers.Sf.{quote, backslash, escaped}
use trillium_ratelimit.Headers.Reading.{has_escape, part}
use trillium_ratelimit.Headers.Grammar.{
  is_printable, Bare, bytes, IsString, IsKey, has_backslash, values,
}

-- Every number on the wire is below this one: an integer of RFC 9651 has at most fifteen digits.
abbrev pub number_limit : ℕ
number_limit = 1_000_000_000_000_000

abbrev pub IsPrintable : Text → Type 0
IsPrintable value = All (λ c. is_printable c ≡ true) value

abbrev pub Holds : {A : Type 0} → (A → Type 0) → Option A → Type 0
Holds P none = Unit
Holds P (some a) = P a

same_char : (c d : ℕ) → (c == d) ≡ true → c ≡ d
same_char c d h = ground arith

pub escaped-IsString : (value : Text) → IsPrintable value → IsString false (escaped value)
unfolding escaped
escaped-IsString [] h = tt
escaped-IsString (c ∷ value) (h, hs) = elim (Bool-cases (c == backslash)) [
  | inl e ↦ rw e (refl, refl, (inr (same_char c backslash e), escaped-IsString value hs))
  | inr e ↦ elim (Bool-cases (c == quote)) [
    | inl e' ↦ rw (e, e') (refl, refl, (inl (same_char c quote e'), escaped-IsString value hs))
    | inr e' ↦ rw (e, e') (h, e', rw e (escaped-IsString value hs))
  ]
]

pub has_backslash-escaped : (value : Text) → has_backslash (escaped value) ≡ has_escape value
unfolding escaped
has_backslash-escaped [] = refl
has_backslash-escaped (c ∷ value) = elim (Bool-cases (c == backslash)) [
  | inl e ↦ rw e refl
  | inr e ↦ elim (Bool-cases (c == quote)) [
    | inl e' ↦ rw (e, e') refl
    | inr e' ↦ rw (e, e') (rw e (has_backslash-escaped value))
  ]
]

-- The partition key, by its characters and as it is read behind `before`.
abbrev pub key_spelled : Option Text → List (Text × Bare)
key_spelled none = []
key_spelled (some key) = (codes "pk", bytes key) ∷ []

abbrev pub key_params : Text → Option Text → List (Text × Value)
key_params before none = []
key_params before (some key) = (codes "pk", byte_seq (part before key)) ∷ []

range_lem :
    (m n : ℕ) (key : Text)
    → m ≡ n
    → ◌≡◌ {A = Value}
        (byte_seq (record { start = m; stop = m + length key }))
        (byte_seq (record { start = n; stop = n + length key }))
range_lem m n key e = rw e refl

pub key-values :
    (at : ℕ) (before : Text) (key : Option Text)
    → at + 5 ≡ length before
    → values at (key_spelled key) ≡ key_params before key
key-values at before none h = refl
key-values at before (some key) h =
    ap (λ v. (codes "pk", v) ∷ []) (range_lem _ _ key (omega (arith, h)))

pub pk-IsKey : IsKey (codes "pk")
pk-IsKey = ((λ e. cc), (refl, (refl, tt)))
