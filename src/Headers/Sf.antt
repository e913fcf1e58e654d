-- ===== src/Headers/Sf.antt =====
-- src/headers/sf.rs: Structured Field strings, and the items to skip. Ranges count the bytes of the
-- input; all that `sfparse` reads is ASCII, so that they count its characters too.
use trillium_ratelimit.Common.{
  ℕ, zero, suc, ◌-◌, ◌≡◌, refl, Bool, false, Option, none, some, [], ◌∷◌, ◌++◌, arith, Text, leb,
  ◌==◌, ◌||◌, ◌&&◌, if◌then◌else◌, length, take, drop,
}
use trillium_ratelimit.Headers.Outcome.{Result, ok, err, out_of_fuel, ◌>>=◌}
use trillium_ratelimit.Headers.Parser.{SfParser, Range, Value, inner_list}

abbrev pub backslash : ℕ
backslash = b'\\'

abbrev pub quote : ℕ
quote = 0x22

-- `&input[range]`, which panics out of range.
unfoldable pub slice : Text → Range → Option Text
slice input r =
    if leb r.start r.stop && leb r.stop (length input)
    then some (take (r.stop - r.start) (drop r.start input))
    else none

unfoldable pub unescape : Text → Text
unescape [] = []
unescape (c ∷ []) = if c == backslash then [] else c ∷ []
unescape (c ∷ escaped ∷ rest) =
    let jump = escaped ∷ unescape rest in
    let copy = c ∷ unescape (escaped ∷ rest) in if c == backslash then jump else copy

unfoldable pub string_value : Text → Range → Bool → Option Text
string_value input r escape = elim (slice input r) [
  | none ↦ none
  | some raw ↦ some (if escape then unescape raw else raw)
]

-- The characters of a string, `\` and `"` behind a backslash.
unfoldable pub escaped : Text → Text
escaped [] = []
escaped (c ∷ value) =
    let rest = escaped value in
    if (c == backslash) || (c == quote) then backslash ∷ c ∷ rest else c ∷ rest

unfoldable pub write_sf_string : Text → Text
unfolding escaped
write_sf_string value = quote ∷ (escaped value ++ (quote ∷ []))

module _ (p : SfParser) where
  open p use {State, parse_param, parse_inner_list}

  unfoldable pub drain_params : ℕ → State → Result State
  drain_params zero s = out_of_fuel
  drain_params (suc fuel) s = elim (parse_param s) [
    | none ↦ err
    | some (none, t) ↦ ok t
    | some (some param, t) ↦ drain_params fuel t
  ]

  unfoldable pub drain_inner_list : ℕ → State → Result State
  drain_inner_list zero s = out_of_fuel
  drain_inner_list (suc fuel) s = elim (parse_inner_list s) [
    | none ↦ err
    | some (none, t) ↦ ok t
    | some (some member, t) ↦ drain_inner_list fuel t
  ]

  unfoldable pub skip_item : ℕ → State → Value → Result State
  unfolding drain_params drain_inner_list
  skip_item fuel s inner_list = drain_inner_list fuel s >>= drain_params fuel
  skip_item fuel s other = drain_params fuel s

unescape-cons :
    (c : ℕ) (rest : Text) → (c == backslash) ≡ false → unescape (c ∷ rest) ≡ c ∷ unescape rest
unfolding unescape
unescape-cons c [] h = rw h
unescape-cons c (d ∷ rest) h = rw h

-- Stripping the backslashes of a text that was escaped for the wire gives the text back.
pub unescape-escaped : (value : Text) → unescape (escaped value) ≡ value
unfolding unescape escaped
unescape-escaped [] = refl
unescape-escaped (c ∷ value) =
    ground (arith, unescape-escaped value, unescape-cons c (escaped value))
