-- ===== src/Headers/Halting.antt =====
-- The fuel of the parse loops of src/headers/, on a parser that reads what it hands back.
use trillium_ratelimit.Common.{
  ℕ, zero, suc, ◌≤◌, ◌<◌, ◌≡◌, ◌⊎◌, inl, inr, refl, Option, none, some, List, arith, Text,
}
use trillium_ratelimit.Headers.Outcome.{Result, ok, err, panic, out_of_fuel, or_panic, ◌>>=◌}
use trillium_ratelimit.Headers.Parser.{SfParser, IsConsuming, Value, string, inner_list}
use trillium_ratelimit.Headers.Sf.{drain_params, drain_inner_list, skip_item, string_value}
use trillium_ratelimit.Headers.Items.{params, item, items, push}

-- What a step of the parser comes to.
pub Reply-cases {ℓ κ} :
    {A : Type ℓ} {S : Type κ} (o : Option (Option A × S))
    → (o ≡ none) ⊎ ((t : S) × (o ≡ some (none, t))) ⊎ ((a : A) × (t : S) × (o ≡ some (some a, t)))
Reply-cases none = inl refl
Reply-cases (some (none, t)) = inr (inl (t, refl))
Reply-cases (some (some a, t)) = inr (inr (a, t, refl))

-- A run ends, with a result that `P` holds of if it succeeds.
abbrev pub Ends : {A : Type 0} → (A → Type 0) → Result A → Type 0
Ends P (ok a) = P a
Ends P err = Unit
Ends P panic = Unit
Ends P out_of_fuel = ⊥

-- A run and what follows it, in the order of the program.
>>=-Ends :
    {A B : Type 0} (P : A → Type 0) (Q : B → Type 0) (m : Result A) (f : A → Result B)
    → Ends P m
    → ((a : A) → P a → Ends Q (f a))
    → Ends Q (m >>= f)
>>=-Ends P Q (ok a) f h k = k a h
>>=-Ends P Q err f h k = tt
>>=-Ends P Q panic f h k = tt
>>=-Ends P Q out_of_fuel f h k = absurd h

or_panic-Ends : {A : Type 0} (o : Option A) → Ends (λ a. Unit {0}) (or_panic o)
or_panic-Ends none = tt
or_panic-Ends (some a) = tt

module _ (p : SfParser) (consuming : IsConsuming p) where
  open p use {State, parse_list, parse_param, parse_inner_list, size}
  open consuming use {list_reads, param_reads, inner_reads, params_end, inner_end}

  -- no more is left than at `s`
  abbrev pub On : State → State → Type 0
  On s t = size t ≤ size s

  On-weaken : (s t : State) (r : Result State) → size t ≤ size s → Ends (On t) r → Ends (On s) r
  On-weaken s t (ok u) h k = omega arith
  On-weaken s t err h k = tt
  On-weaken s t panic h k = tt
  On-weaken s t out_of_fuel h k = absurd k

  drain_params-Ends : (fuel : ℕ) (s : State) → size s < fuel → Ends (On s) (drain_params p fuel s)
  unfolding drain_params
  drain_params-Ends zero s h = absurd (omega arith)
  drain_params-Ends (suc fuel) s h = elim (Reply-cases (parse_param s)) [
    | inl e ↦ rw (e, drain_params) tt
    | inr (inl (t, e)) ↦ rw (e, drain_params) (params_end s t e)
    | inr (inr (v, t, e)) ↦
        let read = param_reads s t v e in
        rw (e, drain_params)
          (On-weaken s t (drain_params p fuel t) (omega arith)
            (drain_params-Ends fuel t (omega arith)))
  ]

  drain_inner_list-Ends :
      (fuel : ℕ) (s : State) → size s < fuel → Ends (On s) (drain_inner_list p fuel s)
  unfolding drain_inner_list
  drain_inner_list-Ends zero s h = absurd (omega arith)
  drain_inner_list-Ends (suc fuel) s h = elim (Reply-cases (parse_inner_list s)) [
    | inl e ↦ rw (e, drain_inner_list) tt
    | inr (inl (t, e)) ↦ rw (e, drain_inner_list) (inner_end s t e)
    | inr (inr (v, t, e)) ↦
        let read = inner_reads s t v e in
        rw (e, drain_inner_list)
          (On-weaken s t (drain_inner_list p fuel t) (omega arith)
            (drain_inner_list-Ends fuel t (omega arith)))
  ]

  skip_item-Ends :
      (fuel : ℕ) (s : State) (v : Value) → size s < fuel → Ends (On s) (skip_item p fuel s v)
  unfolding skip_item
  skip_item-Ends fuel s inner_list h =
      >>=-Ends (On s) (On s) (drain_inner_list p fuel s) (drain_params p fuel)
        (drain_inner_list-Ends fuel s h)
        λ t k. On-weaken s t (drain_params p fuel t) k (drain_params-Ends fuel t (omega arith))
  skip_item-Ends fuel s other h = drain_params-Ends fuel s h

  module _ {P A : Type 0} (input : Text) (start : P) (keep : P → Text → Value → Result P)
      (finish : Text → P → Option A)
      (keeps : (k : P) (key : Text) (v : Value) → Ends (λ a. Unit {0}) (keep k key v)) where
    abbrev OnPair : State → P × State → Type 0
    OnPair s r = size r.1 ≤ size s

    abbrev OnItem : State → Option A × State → Type 0
    OnItem s r = size r.1 ≤ size s

    OnPair-weaken :
        (s t : State) (r : Result (P × State))
        → size t ≤ size s
        → Ends (OnPair t) r
        → Ends (OnPair s) r
    OnPair-weaken s t (ok u) h k = omega arith
    OnPair-weaken s t err h k = tt
    OnPair-weaken s t panic h k = tt
    OnPair-weaken s t out_of_fuel h k = absurd k

    params-Ends :
        (fuel : ℕ) (s : State) (kept : P)
        → size s < fuel
        → Ends (OnPair s) (params p input start keep finish fuel s kept)
    unfolding params
    params-Ends zero s kept h = absurd (omega arith)
    params-Ends (suc fuel) s kept h = elim (Reply-cases (parse_param s)) [
      | inl e ↦ rw (e, params) tt
      | inr (inl (t, e)) ↦ rw (e, params) (params_end s t e)
      | inr (inr (v, t, e)) ↦
          let read = param_reads s t v e in
          rw (e, params)
            (>>=-Ends (λ k. Unit {0}) (OnPair s) (keep kept v.0 v.1)
              (params p input start keep finish fuel t) (keeps kept v.0 v.1)
              λ k _.
                OnPair-weaken s t (params p input start keep finish fuel t k) (omega arith)
                  (params-Ends fuel t k (omega arith)))
    ]

    skip-Ends :
        (fuel : ℕ) (s : State) (v : Value)
        → size s < fuel
        → Ends (OnItem s) (skip_item p fuel s v >>= λ t. ok (none, t))
    skip-Ends fuel s v h =
        >>=-Ends (On s) (OnItem s) (skip_item p fuel s v) (λ t. ok (none, t))
          (skip_item-Ends fuel s v h) λ t k. k

    item-Ends :
        (fuel : ℕ) (s : State) (v : Value)
        → size s < fuel
        → Ends (OnItem s) (item p input start keep finish fuel s v)
    unfolding item
    item-Ends fuel s (string range escape) h =
        let run = params p input start keep finish fuel s start in
        >>=-Ends (λ n. Unit {0}) (OnItem s) (or_panic (string_value input range escape))
          (λ name. run >>= λ (kept, t). ok (finish name kept, t))
          (or_panic-Ends (string_value input range escape))
          λ name _.
            >>=-Ends (OnPair s) (OnItem s) run (λ (kept, t). ok (finish name kept, t))
              (params-Ends fuel s start h) λ r k. k
    item-Ends fuel s v h = skip-Ends fuel s v h

    -- The rest of the list, behind an item.
    rest_of : ℕ → Option A × State → Result (List A)
    rest_of fuel (made, u) = items p input start keep finish fuel u >>= λ rest. ok (push made rest)

    pub items-Ends :
        (fuel : ℕ) (s : State)
        → size s < fuel
        → Ends (λ a. Unit {0}) (items p input start keep finish fuel s)
    unfolding items rest_of
    items-Ends zero s h = absurd (omega arith)
    items-Ends (suc fuel) s h = elim (Reply-cases (parse_list s)) [
      | inl e ↦ rw (e, items) tt
      | inr (inl (t, e)) ↦ rw (e, items) tt
      | inr (inr (v, t, e)) ↦
          let read = list_reads s t v e in
          rw (e, items)
            (>>=-Ends (OnItem t) (λ a. Unit {0}) (item p input start keep finish fuel t v)
              (rest_of fuel) (item-Ends fuel t v (omega arith))
              λ r k.
                >>=-Ends (λ a. Unit {0}) (λ a. Unit {0}) (items p input start keep finish fuel r.1)
                  (λ rest. ok (push r.0 rest)) (items-Ends fuel r.1 (omega arith)) λ rest _. tt)
    ]
