-- ===== src/Tests/Reader.antt =====
-- A parser that reads a part of RFC 9651: lists of strings with parameters that are numbers, strings
-- or byte sequences. It reads all of the text first, and then hands back one reply after another.
use trillium_ratelimit.Common.{
  ℕ, zero, suc, ◌+◌, Bool, true, false, ◌&&◌, ◌||◌, not, List, [], ◌∷◌, ◌++◌, length, drop, Text,
  ◌==◌, if◌then◌else◌,
}
use trillium_ratelimit.Headers.Parser.{SfParser, IsConsuming, Value, pos, integer, string, byte_seq}
use trillium_ratelimit.Headers.Grammar.{number, is_digit}
use trillium_ratelimit.Headers.Sf.{backslash, quote}
use trillium_ratelimit.Tests.Samples.{Reply, item, param, stop, replying, replying-IsConsuming}

-- What stands before the first character that meets the test, and from there on.
unfoldable pub split_at : (ℕ → Bool) → Text → Text × Text
split_at test [] = ([], [])
split_at test (c ∷ s) =
    let (before, rest) = split_at test s in if test c then ([], c ∷ s) else (c ∷ before, rest)

-- The length of a string up to its closing quote, and whether it has a backslash. The flag says
-- that a backslash stands before.
unfoldable pub string_end : Bool → Text → ℕ × Bool × Text
string_end escaped [] = (0, false, [])
string_end escaped (c ∷ s) =
    let (n, has, rest) = string_end (not escaped && c == backslash) s in
    if not escaped && c == quote then (0, false, s) else (n + 1, c == backslash || has, rest)

abbrev drop_one : Text → Text
drop_one [] = []
drop_one (x ∷ xs) = xs

-- A value at a place of the text, and what is behind it.
unfoldable pub value_at : ℕ → Text → List Value × ℕ × Text
unfolding split_at number string_end
value_at at [] = ([], at, [])
value_at at (c ∷ s) =
    let (n, escape, rest) = string_end false s in
    let (bytes, behind) = split_at (λ x. x == b':') s in
    let (digits, after) = split_at (λ x. if is_digit x then false else true) (c ∷ s) in
    if c == quote
    then (string (record { start = at + 1; stop = at + 1 + n }) escape ∷ [], at + n + 2, rest)
    else if c == b':'
    then (
      byte_seq (record { start = at + 1; stop = at + 1 + length bytes }) ∷ [],
      at + length bytes + 2,
      drop_one behind,
    )
    else if is_digit c
    then (integer (pos (number 0 digits)) ∷ [], at + length digits, after)
    else ([], at, c ∷ s)

-- The spaces and tabs that a list may have between its items.
unfoldable pub blanks : Text → ℕ
blanks [] = 0
blanks (c ∷ s) = let n = blanks s in if c == b' ' || c == 9 then n + 1 else 0

abbrev items_of : List Value → List Reply
items_of [] = []
items_of (v ∷ vs) = item v ∷ []

abbrev params_of : Text → List Value → List Reply
params_of key [] = []
params_of key (v ∷ vs) = param (key, v) ∷ []

unfoldable mutual
  unfolding value_at split_at blanks

  pub read_item : ℕ → ℕ → Text → List Reply
  read_item zero at s = []
  read_item (suc fuel) at s =
      let (v, next, rest) = value_at at s in items_of v ++ read_params fuel next rest

  pub read_params : ℕ → ℕ → Text → List Reply
  read_params zero at s = []
  read_params (suc fuel) at [] = stop ∷ stop ∷ []
  read_params (suc fuel) at (c ∷ s) =
      let (key, rest) = split_at (λ x. x == b'=') s in
      let (v, next, behind) = value_at (at + length key + 2) (drop_one rest) in
      elim (c == b';') [
        | true ↦ params_of key v ++ read_params fuel next behind
        | false ↦ let n = blanks s in stop ∷ read_item fuel (at + 1 + n) (drop n s)
      ]

abbrev pub reader : SfParser
reader = replying λ text. read_item (suc (length text)) 0 text

pub reader-IsConsuming : IsConsuming reader
reader-IsConsuming = replying-IsConsuming λ text. read_item (suc (length text)) 0 text
