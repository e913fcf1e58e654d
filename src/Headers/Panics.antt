-- ===== src/Headers/Panics.antt =====
-- src/headers/ on malformed input: how the two parsers fail.
use trillium_ratelimit.Common.{
  ℕ, zero, suc, ◌≡◌, ◌≢◌, ◌⊎◌, inl, inr, refl, Option, none, List, Text,
}
use trillium_ratelimit.Headers.Outcome.{Result, ok, err, panic, out_of_fuel, or_panic, ◌>>=◌}
use trillium_ratelimit.Headers.Parser.{SfParser, IsConsuming, Value, string, inner_list}
use trillium_ratelimit.Headers.Sf.{drain_params, drain_inner_list, skip_item, string_value}
use trillium_ratelimit.Headers.Items.{params, item, items, push}
use trillium_ratelimit.Headers.Halting.{Reply-cases}
use trillium_ratelimit.Headers.Limit
use trillium_ratelimit.Headers.Policy
use trillium_ratelimit.Headers.Total.{parse_list_ends}
use trillium_ratelimit.Headers.Located.{InText, IsLocated}
use trillium_ratelimit.Headers.Slices.{Safe, >>=-Safe, string_value-Safe, limit_keeps, policy_keeps}

module _ (p : SfParser) (located : IsLocated p) (input : Text) where
  open p use {State, parse_list, parse_param, parse_inner_list}
  open located use {On, list_on, param_on, params_end_on, inner_on, inner_end_on}

  drain_params-Safe : (fuel : ℕ) (s : State) → On input s → Safe (On input) (drain_params p fuel s)
  unfolding drain_params
  drain_params-Safe zero s h = tt
  drain_params-Safe (suc fuel) s h = elim (Reply-cases (parse_param s)) [
    | inl e ↦ rw (e, drain_params) tt
    | inr (inl (t, e)) ↦ rw (e, drain_params) (params_end_on input s t h e)
    | inr (inr (v, t, e)) ↦
        rw (e, drain_params) (drain_params-Safe fuel t (param_on input s t v h e).0)
  ]

  drain_inner_list-Safe :
      (fuel : ℕ) (s : State) → On input s → Safe (On input) (drain_inner_list p fuel s)
  unfolding drain_inner_list
  drain_inner_list-Safe zero s h = tt
  drain_inner_list-Safe (suc fuel) s h = elim (Reply-cases (parse_inner_list s)) [
    | inl e ↦ rw (e, drain_inner_list) tt
    | inr (inl (t, e)) ↦ rw (e, drain_inner_list) (inner_end_on input s t h e)
    | inr (inr (v, t, e)) ↦
        rw (e, drain_inner_list) (drain_inner_list-Safe fuel t (inner_on input s t v h e))
  ]

  skip_item-Safe :
      (fuel : ℕ) (s : State) (v : Value) → On input s → Safe (On input) (skip_item p fuel s v)
  unfolding skip_item
  skip_item-Safe fuel s inner_list h =
      >>=-Safe (On input) (On input) (drain_inner_list p fuel s) (drain_params p fuel)
        (drain_inner_list-Safe fuel s h) λ t k. drain_params-Safe fuel t k
  skip_item-Safe fuel s other h = drain_params-Safe fuel s h

  module _ {P A : Type 0} (start : P) (keep : P → Text → Value → Result P)
      (finish : Text → P → Option A)
      (keeps : (k : P) (key : Text) (v : Value)
        → InText input v
        → Safe (λ a. Unit {0}) (keep k key v)) where
    params-Safe :
        (fuel : ℕ) (s : State) (kept : P)
        → On input s
        → Safe (λ r. On input r.1) (params p input start keep finish fuel s kept)
    unfolding params
    params-Safe zero s kept h = tt
    params-Safe (suc fuel) s kept h = elim (Reply-cases (parse_param s)) [
      | inl e ↦ rw (e, params) tt
      | inr (inl (t, e)) ↦ rw (e, params) (params_end_on input s t h e)
      | inr (inr (v, t, e)) ↦
          let (there, inside) = param_on input s t v h e in
          rw (e, params)
            (>>=-Safe (λ k. Unit {0}) (λ r. On input r.1) (keep kept v.0 v.1)
              (params p input start keep finish fuel t) (keeps kept v.0 v.1 inside)
              λ k _. params-Safe fuel t k there)
    ]

    abbrev OnItem : Option A × State → Type 0
    OnItem r = On input r.1

    skip-Safe :
        (fuel : ℕ) (s : State) (v : Value)
        → On input s
        → Safe OnItem (skip_item p fuel s v >>= λ t. ok (none, t))
    skip-Safe fuel s v h =
        >>=-Safe (On input) OnItem (skip_item p fuel s v) (λ t. ok (none, t))
          (skip_item-Safe fuel s v h) λ t k. k

    item-Safe :
        (fuel : ℕ) (s : State) (v : Value)
        → On input s
        → InText input v
        → Safe OnItem (item p input start keep finish fuel s v)
    unfolding item
    item-Safe fuel s (string range escape) h inside =
        let run = params p input start keep finish fuel s start in
        >>=-Safe (λ n. Unit {0}) OnItem (or_panic (string_value input range escape))
          (λ name. run >>= λ (kept, t). ok (finish name kept, t))
          (string_value-Safe input range escape inside)
          λ name _.
            >>=-Safe (λ r. On input r.1) OnItem run (λ (kept, t). ok (finish name kept, t))
              (params-Safe fuel s start h) λ r k. k
    item-Safe fuel s v h inside = skip-Safe fuel s v h

    rest_of : ℕ → Option A × State → Result (List A)
    rest_of fuel (made, u) = items p input start keep finish fuel u >>= λ rest. ok (push made rest)

    items-Safe :
        (fuel : ℕ) (s : State)
        → On input s
        → Safe (λ a. Unit {0}) (items p input start keep finish fuel s)
    unfolding items rest_of
    items-Safe zero s h = tt
    items-Safe (suc fuel) s h = elim (Reply-cases (parse_list s)) [
      | inl e ↦ rw (e, items) tt
      | inr (inl (t, e)) ↦ rw (e, items) tt
      | inr (inr (v, t, e)) ↦
          let (there, inside) = list_on input s t v h e in
          rw (e, items)
            (>>=-Safe OnItem (λ a. Unit {0}) (item p input start keep finish fuel t v)
              (rest_of fuel) (item-Safe fuel t v there inside)
              λ r k.
                >>=-Safe (λ a. Unit {0}) (λ a. Unit {0}) (items p input start keep finish fuel r.1)
                  (λ rest. ok (push r.0 rest)) (items-Safe fuel r.1 k) λ rest _. tt)
    ]

  fails_or_not :
      {A : Type 0} (r : Result A)
      → Safe (λ a. Unit {0}) r
      → r ≢ out_of_fuel
      → (r ≡ err) ⊎ ((a : A) × (r ≡ ok a))
  fails_or_not (ok a) h k = inr (a, refl)
  fails_or_not err h k = inl refl
  fails_or_not panic h k = absurd h
  fails_or_not out_of_fuel h k = absurd (k refl)

  -- On every input, however malformed, each of the two parsers returns either its items or
  -- `ParseError`: it neither runs on nor panics on a slice. The parser reads what it hands back, and
  -- its ranges lie in the text.
  pub parse_list_fails_cleanly :
      IsConsuming p
      → ((Limit.parse_list p input ≡ err)
          ⊎ ((limits : List Limit.RateLimit) × (Limit.parse_list p input ≡ ok limits)))
        × ((Policy.parse_list p input ≡ err)
            ⊎ ((policies : List Policy.RateLimitPolicy) × (Policy.parse_list p input
                  ≡ ok policies)))
  unfolding Limit.parse_list Policy.parse_list
  parse_list_fails_cleanly consuming =
      let (limit_ends, policy_ends) = parse_list_ends p consuming input in
      let s = p.new input in
      let h = located.on_new input in
      (
        fails_or_not (Limit.parse_list p input)
            (items-Safe Limit.no_params (Limit.keep_param input) Limit.finish (limit_keeps input)
              (suc (p.size s)) s h)
            limit_ends,
        fails_or_not (Policy.parse_list p input)
            (items-Safe Policy.no_params (Policy.keep_param input) Policy.finish
              (policy_keeps input) (suc (p.size s)) s h)
            policy_ends,
      )
