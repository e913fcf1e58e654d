-- ===== src/Headers/Slices.antt =====
-- The slices of the text in src/headers/.
use trillium_ratelimit.Common.{inl, inr, Bool, arith, Text, le→leb, text_eq, codes, Bool-cases}
use trillium_ratelimit.Headers.Outcome.{Result, ok, err, panic, out_of_fuel, or_panic, ◌>>=◌}
use trillium_ratelimit.Headers.Parser.{Range, Value, pos, integer, string, byte_seq}
use trillium_ratelimit.Headers.Sf.{slice, string_value}
use trillium_ratelimit.Headers.Limit
use trillium_ratelimit.Headers.Policy
use trillium_ratelimit.Headers.Located.{Inside, InText}

-- A run does not panic, and its result meets `P` if it succeeds.
abbrev pub Safe : {A : Type 0} → (A → Type 0) → Result A → Type 0
Safe P (ok a) = P a
Safe P err = Unit
Safe P panic = ⊥
Safe P out_of_fuel = Unit

pub >>=-Safe :
    {A B : Type 0} (P : A → Type 0) (Q : B → Type 0) (m : Result A) (f : A → Result B)
    → Safe P m
    → ((a : A) → P a → Safe Q (f a))
    → Safe Q (m >>= f)
>>=-Safe P Q (ok a) f h k = k a h
>>=-Safe P Q err f h k = tt
>>=-Safe P Q panic f h k = absurd h
>>=-Safe P Q out_of_fuel f h k = tt

slice-Safe :
    (text : Text) (r : Range) → Inside text r → Safe (λ a. Unit {0}) (or_panic (slice text r))
unfolding slice
slice-Safe text r (h, k) = rw (le→leb _ _ h, le→leb _ _ k) tt

pub string_value-Safe :
    (text : Text) (r : Range) (escape : Bool)
    → Inside text r
    → Safe (λ a. Unit {0}) (or_panic (string_value text r escape))
unfolding string_value slice
string_value-Safe text r escape (h, k) = rw (string_value, slice, le→leb _ _ h, le→leb _ _ k) tt

pub limit_keeps :
    (input : Text) (k : Limit.Params) (key : Text) (v : Value)
    → InText input v
    → Safe (λ a. Unit {0}) (Limit.keep_param input k key v)
unfolding Limit.keep_param
limit_keeps input k key (integer (pos n)) h = ground arith
limit_keeps input k key (byte_seq r) h = elim (Bool-cases (text_eq key (codes "pk"))) [
  | inl e ↦ rw e (
      >>=-Safe (λ a. Unit {0}) (λ a. Unit {0}) (or_panic (slice input r)) _ (slice-Safe input r h)
        (λ a _. tt))
  | inr e ↦ rw e tt
]
limit_keeps input k key _ h = tt

pub policy_keeps :
    (input : Text) (k : Policy.Params) (key : Text) (v : Value)
    → InText input v
    → Safe (λ a. Unit {0}) (Policy.keep_param input k key v)
unfolding Policy.keep_param
policy_keeps input k key (integer (pos n)) h = ground arith
policy_keeps input k key (string r escape) h = elim (Bool-cases (text_eq key (codes "qu"))) [
  | inl e ↦ rw e (
      >>=-Safe (λ a. Unit {0}) (λ a. Unit {0}) (or_panic (string_value input r escape)) _
        (string_value-Safe input r escape h) (λ a _. tt))
  | inr e ↦ rw e tt
]
policy_keeps input k key (byte_seq r) h = elim (Bool-cases (text_eq key (codes "pk"))) [
  | inl e ↦ rw e (
      >>=-Safe (λ a. Unit {0}) (λ a. Unit {0}) (or_panic (slice input r)) _ (slice-Safe input r h)
        (λ a _. tt))
  | inr e ↦ rw e tt
]
policy_keeps input k key _ h = tt
