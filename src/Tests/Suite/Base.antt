-- ===== src/Tests/Suite/Base.antt =====
-- What the repository's unit tests use of Rust's standard library.
use trillium_ratelimit.Common.{
  ℕ, zero, suc, ◌*◌, Bool, true, false, ◌&&◌, Option, none, some, List, [], ◌∷◌, ◌>>=◌,
  if◌then◌else◌,
}
use trillium_ratelimit.Time.{Duration}
use trillium_ratelimit.Store.Moka.{Cache}
use trillium_ratelimit.Headers.Outcome.{Result, ok, err, panic, out_of_fuel}

-- A run that may panic.
abbrev pub Test : Type 0
Test = Option (Unit {0})

abbrev pub passed : Test
passed = some tt

-- `assert!`
abbrev pub assert : Bool → Test
assert true = some tt
assert false = none

-- A loop over a range, whose body goes from one state to the next.
abbrev pub repeat : {A : Type 0} → ℕ → (A → Option A) → A → Option A
repeat zero body a = some a
repeat (suc n) body a = body a >>= repeat n body

abbrev pub from_millis : ℕ → Duration
from_millis n = n * 1_000_000

-- `==` of options and of lists
abbrev pub option_eq : {A : Type 0} → (A → A → Bool) → Option A → Option A → Bool
option_eq same none none = true
option_eq same (some a) (some b) = same a b
option_eq same a b = false

abbrev pub list_eq : {A : Type 0} → (A → A → Bool) → List A → List A → Bool
list_eq same [] [] = true
list_eq same (x ∷ xs) (y ∷ ys) = same x y && list_eq same xs ys
list_eq same xs ys = false

-- A cache that drops nothing, as a list of its entries.
module _ {K V : Type 0} (same : K → K → Bool) where
  abbrev entry_of : List (K × V) → K → Option V
  entry_of [] key = none
  entry_of ((k, v) ∷ entries) key = if same k key then some v else entry_of entries key

  abbrev put_entry : List (K × V) → K → V → List (K × V)
  put_entry [] key value = (key, value) ∷ []
  put_entry ((k, v) ∷ entries) key value =
      let rest = put_entry entries key value in
      if same k key then (k, value) ∷ entries else (k, v) ∷ rest

  abbrev pub entries : Cache K V
  entries = record { State = List (K × V); build = λ n d. []; find = entry_of; put = put_entry }

-- `unwrap` of a parse
abbrev pub unwrap {ℓ} : {A : Type ℓ} → Result A → Option A
unwrap (ok a) = some a
unwrap err = none
unwrap panic = none
unwrap out_of_fuel = none

-- The only element of a list; any other list fails its test.
abbrev pub only : {A : Type 0} → List A → Option A
only [] = none
only (a ∷ []) = some a
only (a ∷ b ∷ rest) = none

abbrev pub is_empty : {A : Type 0} → List A → Bool
is_empty [] = true
is_empty (a ∷ rest) = false
