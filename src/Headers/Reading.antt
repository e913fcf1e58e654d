-- ===== src/Headers/Reading.antt =====
-- What the loops of src/headers/ make of a text that the parser reads as one string item.
use trillium_ratelimit.Common.{
  ℕ, zero, suc, ◌+◌, ◌-◌, ◌<◌, ◌≡◌, ◌∙◌, refl, ap, Option, none, some, Bool, false, List, [], ◌∷◌,
  ◌++◌, arith, Text, length, length-append, take, drop, le→leb, ◌==◌, ◌||◌,
}
use trillium_ratelimit.Headers.Outcome.{Result, ok, err, panic, out_of_fuel, ◌>>=◌}
use trillium_ratelimit.Headers.Parser.{SfParser, IsConsuming, Range, Value, string}
use trillium_ratelimit.Headers.Sf.{slice, string_value, escaped, unescape-escaped, backslash, quote}
use trillium_ratelimit.Headers.Items.{params, item, items, push}

-- The item's parameters, one after the other.
abbrev pub keep_all :
    {P : Type 0} → (P → Text → Value → Result P) → P → List (Text × Value) → Result P
keep_all keep kept [] = ok kept
keep_all keep kept ((key, v) ∷ ps) = keep kept key v >>= λ k. keep_all keep k ps

module _ (sf : SfParser) where
  open sf use {State, new, parse_list, parse_param, size}

  -- From `s` on the parser hands back these parameters, and goes on from `t`.
  abbrev pub ReadsParams : State → List (Text × Value) → State → Type 0
  ReadsParams s [] t = parse_param s ≡ some (none, t)
  ReadsParams s (p ∷ ps) t = (u : State) × (parse_param s ≡ some (some p, u)) × ReadsParams u ps t

  -- The parser reads the text as one item, a string with these parameters.
  pub record ReadsItem (text : Text) (range : Range) (escape : Bool) (ps : List (Text × Value))
      : Type 0 where
    pub after_name : State
    pub after_params : State
    pub after_list : State
    pub name : parse_list (new text) ≡ some (some (string range escape), after_name)
    pub params_read : ReadsParams after_name ps after_params
    pub done : parse_list after_params ≡ some (none, after_list)

  module _ (consuming : IsConsuming sf) {P A : Type 0} (input : Text) (start : P)
      (keep : P → Text → Value → Result P) (finish : Text → P → Option A) where
    open consuming use {list_reads, param_reads, params_end}

    params-ReadsParams :
        (ps : List (Text × Value)) (s t : State) (kept : P) (fuel : ℕ)
        → size s < fuel
        → ReadsParams s ps t
        → params sf input start keep finish fuel s kept ≡ (keep_all keep kept ps >>= λ k. ok (k, t))
    unfolding params
    params-ReadsParams ps s t kept zero h r = absurd (omega arith)
    params-ReadsParams [] s t kept (suc fuel) h r = rw (r, params)
    params-ReadsParams ((key, v) ∷ ps) s t kept (suc fuel) h (u, e, r) =
        let read = param_reads s u (key, v) e in
        rw (e, params)
          (go (keep kept key v) (λ k. params-ReadsParams ps u t k fuel (omega arith) r))
      where
        go :
            (m : Result P)
            → ((k : P)
                → params sf input start keep finish fuel u k
                  ≡ (keep_all keep k ps >>= λ k'. ok (k', t)))
            → (m >>= params sf input start keep finish fuel u)
              ≡ ((m >>= λ k. keep_all keep k ps) >>= λ k'. ok (k', t))
        go (ok k) ih = ih k
        go err ih = refl
        go panic ih = refl
        go out_of_fuel ih = refl

    items_done :
        (fuel : ℕ) (s t : State)
        → 0 < fuel
        → parse_list s ≡ some (none, t)
        → items sf input start keep finish fuel s ≡ ok []
    unfolding items
    items_done zero s t h e = absurd (omega arith)
    items_done (suc fuel) s t h e = rw (e, items)

    -- Such a text is parsed to the item that its name and parameters make, if they make one.
    pub items-ReadsItem :
        (range : Range) (escape : Bool) (ps : List (Text × Value)) (name : Text) (kept : P)
        → ReadsItem input range escape ps
        → string_value input range escape ≡ some name
        → keep_all keep start ps ≡ ok kept
        → items sf input start keep finish (suc (size (new input))) (new input)
          ≡ ok (push (finish name kept) [])
    unfolding items item
    items-ReadsItem range escape ps name kept r named all =
        let read = list_reads (new input) r.after_name _ r.name in
        let loop =
          params-ReadsParams ps r.after_name r.after_params start (size (new input)) read
            r.params_read in
        let last = items_done (size (new input)) r.after_params r.after_list (omega arith) r.done in
        rw (r.name, items, named, loop, all, last)

-- A part of a text, behind `before`.
abbrev pub part : Text → Text → Range
part before mid = record { start = length before; stop = length before + length mid }

drop-append : (xs ys : Text) → drop (length xs) (xs ++ ys) ≡ ys
drop-append [] ys = refl
drop-append (x ∷ xs) ys = drop-append xs ys

take-append : (xs ys : Text) → take (length xs) (xs ++ ys) ≡ xs
take-append [] ys = refl
take-append (x ∷ xs) ys = ap (λ t. x ∷ t) (take-append xs ys)

pub slice-part :
    (before mid after : Text) → slice (before ++ (mid ++ after)) (part before mid) ≡ some mid
unfolding slice
slice-part before mid after =
    let front : length before + length mid - length before ≡ length mid = omega arith in
    let size : length (before ++ (mid ++ after)) ≡ length before + (length mid + length after) =
      length-append before (mid ++ after)
      ∙ ap (λ (n : ℕ). length before + n) (length-append mid after) in
    rw (
      front,
      size,
      drop-append before (mid ++ after),
      take-append mid after,
      le→leb (length before) (length before + length mid) (omega arith),
      le→leb (length before + length mid) (length before + (length mid + length after))
          (omega arith),
    )

-- The flag that the parser gives with a written string: whether there is a backslash.
abbrev pub has_escape : Text → Bool
has_escape [] = false
has_escape (c ∷ value) = (c == backslash || c == quote) || has_escape value

escaped-plain : (value : Text) → has_escape value ≡ false → escaped value ≡ value
unfolding escaped
escaped-plain [] h = refl
escaped-plain (c ∷ value) h = ground (arith, escaped-plain value)

pub string_value-escaped :
    (before value after : Text)
    → string_value
        (before ++ (escaped value ++ after))
        (part before (escaped value))
        (has_escape value)
      ≡ some value
unfolding string_value
string_value-escaped before value after =
    rw (slice-part before (escaped value) after, string_value)
      (ground (arith, unescape-escaped value, escaped-plain value))
