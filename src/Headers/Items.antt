-- ===== src/Headers/Items.antt =====
-- The loop that `RateLimit::parse_list` and `RateLimitPolicy::parse_list` have in common. They
-- differ in the parameters that they keep (`P`), in what they do with a parameter (`keep`), and in
-- the item that they make of a name and the parameters, if the required one is there (`finish`).
use trillium_ratelimit.Common.{ℕ, zero, suc, Option, none, some, List, [], ◌∷◌, Text}
use trillium_ratelimit.Headers.Outcome.{Result, ok, err, out_of_fuel, or_panic, ◌>>=◌}
use trillium_ratelimit.Headers.Parser.{SfParser, Value, string}
use trillium_ratelimit.Headers.Sf.{string_value, skip_item}

-- An item without its required parameter is not pushed.
abbrev pub push {ℓ} : {A : Type ℓ} → Option A → List A → List A
push none items = items
push (some item) items = item ∷ items

module _ (p : SfParser) {P A : Type 0} (input : Text) (start : P)
    (keep : P → Text → Value → Result P) (finish : Text → P → Option A) where
  open p use {State, parse_list, parse_param}

  -- `while let Some((key, param)) = parser.parse_param()? { … }`
  unfoldable pub params : ℕ → State → P → Result (P × State)
  params zero s kept = out_of_fuel
  params (suc fuel) s kept = elim (parse_param s) [
    | none ↦ err
    | some (none, t) ↦ ok (kept, t)
    | some (some (key, param), t) ↦ keep kept key param >>= params fuel t
  ]

  -- One item: its name and parameters, or nothing if it is not a string.
  unfoldable pub item : ℕ → State → Value → Result (Option A × State)
  unfolding params
  item fuel s (string range escape) = do
    name ← or_panic (string_value input range escape)
    (kept, t) ← params fuel s start
    ok (finish name kept, t)
  item fuel s other = do t ← skip_item p fuel s other; ok (none, t)

  -- `while let Some(value) = parser.parse_list()? { … }`
  unfoldable pub items : ℕ → State → Result (List A)
  unfolding item
  items zero s = out_of_fuel
  items (suc fuel) s = elim (parse_list s) [
    | none ↦ err
    | some (none, t) ↦ ok []
    | some (some value, t) ↦
        item fuel t value >>= λ (made, u). items fuel u >>= λ rest. ok (push made rest)
  ]
