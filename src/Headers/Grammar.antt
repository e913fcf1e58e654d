-- ===== src/Headers/Grammar.antt =====
-- RFC 9651, which `sfparse` reads: the items that are a string with parameters, as they are spelled,
-- and what the parser hands back for one. Nothing here knows what src/headers/ writes.
use trillium_ratelimit.Common.{
  ℕ, zero, suc, ◌+◌, ◌*◌, ◌-◌, ◌%◌, ◌≤◌, ◌≡◌, ◌≢◌, ◌⊎◌, Bool, true, false, List, [], ◌∷◌, ◌++◌,
  Text, All, length, leb, ◌==◌, ◌||◌, ◌&&◌,
}
use trillium_ratelimit.Headers.Parser.{SfParser, Value, pos, integer, string, byte_seq}
use trillium_ratelimit.Headers.Sf.{backslash, quote}
use trillium_ratelimit.Headers.Reading.{ReadsItem}

-- A parameter's value by its characters: an integer's digits, what stands between the quotes of a
-- string, and what stands between the colons of a byte sequence.
pub data Bare : Type 0 where
  digits : Text → Bare
  quoted : Text → Bare
  bytes : Text → Bare

pub record Item : Type 0 where
  pub name : Text
  pub params : List (Text × Bare)

abbrev pub spelled : Bare → Text
spelled (digits ds) = ds
spelled (quoted raw) = quote ∷ (raw ++ (quote ∷ []))
spelled (bytes raw) = b':' ∷ (raw ++ (b':' ∷ []))

abbrev pub params_spelled : List (Text × Bare) → Text
params_spelled [] = []
params_spelled ((key, v) ∷ ps) = b';' ∷ (key ++ (b'=' ∷ (spelled v ++ params_spelled ps)))

abbrev pub item_spelled : Item → Text
item_spelled i = spelled (quoted i.name) ++ params_spelled i.params

abbrev pub is_digit : ℕ → Bool
is_digit c = leb b'0' c && leb c b'9'

abbrev pub is_lower : ℕ → Bool
is_lower c = leb b'a' c && leb c b'z'

abbrev pub is_symbol : ℕ → Bool
is_symbol c = is_digit c || (is_lower c || ((leb b'A' c && leb c b'Z') || (c == b'+' || c == b'/')))

abbrev pub is_printable : ℕ → Bool
is_printable c = leb 0x20 c && leb c 0x7e

-- The characters between the quotes. The flag says that a backslash stands before.
abbrev pub IsString : Bool → Text → Type 0
IsString false [] = Unit
IsString true [] = ⊥
IsString true (c ∷ raw) = ((c ≡ quote) ⊎ (c ≡ backslash)) × IsString false raw
IsString false (c ∷ raw) =
    (is_printable c ≡ true) × ((c == quote) ≡ false) × IsString (c == backslash) raw

abbrev pub padding : ℕ → Text
padding zero = []
padding (suc zero) = b'=' ∷ []
padding (suc (suc n)) = b'=' ∷ b'=' ∷ []

-- Base64 in groups of four characters, the last one padded.
abbrev pub IsBase64 : Text → Type 0
IsBase64 raw =
    (body : Text) × (n : ℕ) × (raw ≡ body ++ padding n)
    × All (λ c. is_symbol c ≡ true) body
    × (length raw % 4 ≡ 0)

abbrev pub IsKey : Text → Type 0
IsKey key = (key ≢ []) × All (λ c. is_lower c ≡ true) key

abbrev pub IsBare : Bare → Type 0
IsBare (digits ds) = (ds ≢ []) × All (λ c. is_digit c ≡ true) ds × (length ds ≤ 15)
IsBare (quoted raw) = IsString false raw
IsBare (bytes raw) = IsBase64 raw

abbrev pub IsItem : Item → Type 0
IsItem i = IsString false i.name × All (λ p. IsKey p.0 × IsBare p.1) i.params

-- The number that digits stand for, behind those of `n`.
unfoldable pub number : ℕ → Text → ℕ
number n [] = n
number n (c ∷ s) = number (n * 10 + (c - b'0')) s

abbrev pub has_backslash : Text → Bool
has_backslash [] = false
has_backslash (c ∷ raw) = c == backslash || has_backslash raw

-- The value of what is spelled from the place `at` of the text on.
abbrev pub value : ℕ → Bare → Value
value at (digits ds) = integer (pos (number 0 ds))
value at (quoted raw) =
    string (record { start = at + 1; stop = at + 1 + length raw }) (has_backslash raw)
value at (bytes raw) = byte_seq (record { start = at + 1; stop = at + 1 + length raw })

abbrev pub values : ℕ → List (Text × Bare) → List (Text × Value)
values at [] = []
values at ((key, v) ∷ ps) =
    let here = at + length key + 2 in (key, value here v) ∷ values (here + length (spelled v)) ps

-- The parser reads every such item, in a text with nothing else, as RFC 9651 defines it.
abbrev pub ReadsRfc : SfParser → Type 0
ReadsRfc sf =
    (i : Item)
    → IsItem i
    → ReadsItem sf (item_spelled i) (record { start = 1; stop = 1 + length i.name })
        (has_backslash i.name) (values (length i.name + 2) i.params)
