-- ===== src/Tests/Conforming.antt =====
-- The reader of Tests/Reader reads every item of RFC 9651 that is a string with parameters.
use trillium_ratelimit.Common.{
  ℕ, zero, suc, ◌+◌, ◌≤◌, ◌<◌, ◌≡◌, ◌∙◌, refl, ap, Bool, true, false, some, List, [], ◌∷◌, ◌++◌,
  append_assoc, append-nil, length, if◌then◌else◌, length-append, Text, All, arith, ◌==◌,
}
use trillium_ratelimit.Headers.Parser.{Value}
use trillium_ratelimit.Headers.Sf.{quote, backslash}
use trillium_ratelimit.Headers.Grammar.{
  Bare, digits, quoted, bytes, Item, spelled, params_spelled, item_spelled, is_digit, is_lower,
  is_symbol, IsString, padding, IsBase64, IsKey, IsBare, IsItem, has_backslash, value, values,
  ReadsRfc,
}
use trillium_ratelimit.Headers.Reading.{ReadsParams}
use trillium_ratelimit.Tests.Samples.{Reply, item, param, stop}
use trillium_ratelimit.Tests.Reader.{reader, read_item, read_params, value_at, split_at, string_end}

count_lem : (m n : ℕ) (b : Bool) (t : Text) → m ≡ n → ◌≡◌ {A = ℕ × Bool × Text} (m, b, t) (n, b, t)
count_lem m n b t e = rw e refl

string_end-IsString :
    (flag : Bool) (raw rest : Text)
    → IsString flag raw
    → string_end flag (raw ++ (quote ∷ rest)) ≡ (length raw, has_backslash raw, rest)
unfolding string_end
string_end-IsString false [] rest h = refl
string_end-IsString true [] rest h = absurd h
string_end-IsString true (c ∷ raw) rest (h, k) =
    rw (string_end-IsString false raw rest k) (count_lem _ _ _ _ (omega arith))
string_end-IsString false (c ∷ raw) rest (h, k, l) =
    rw (k, string_end-IsString (c == backslash) raw rest l) (count_lem _ _ _ _ (omega arith))

split_at-append :
    (test : ℕ → Bool) (s : Text) (c : ℕ) (rest : Text)
    → All (λ x. test x ≡ false) s
    → test c ≡ true
    → split_at test (s ++ (c ∷ rest)) ≡ (s, c ∷ rest)
unfolding split_at
split_at-append test [] c rest h k = rw k refl
split_at-append test (x ∷ s) c rest (h, hs) k = rw (h, split_at-append test s c rest hs k) refl

split_at_lem :
    (test : ℕ → Bool) (s : Text) → All (λ x. test x ≡ false) s → split_at test s ≡ (s, [])
unfolding split_at
split_at_lem test [] h = refl
split_at_lem test (x ∷ s) (h, hs) = rw (h, split_at_lem test s hs) refl

All-weaken : {P Q : ℕ → Type 0} (s : Text) → ((c : ℕ) → P c → Q c) → All P s → All Q s
All-weaken [] f h = tt
All-weaken (c ∷ s) f (h, hs) = (f c h, All-weaken s f hs)

All-append : (P : ℕ → Type 0) (s t : Text) → All P s → All P t → All P (s ++ t)
All-append P [] t h k = k
All-append P (c ∷ s) t (h, hs) k = (h, All-append P s t hs k)

place_lem :
    (v : Value) (m n : ℕ) (t : Text)
    → m ≡ n
    → ◌≡◌ {A = List Value × ℕ × Text} (v ∷ [], m, t) (v ∷ [], n, t)
place_lem v m n t e = rw e refl

quoted-read :
    (at : ℕ) (raw rest : Text)
    → IsString false raw
    → value_at at (spelled (quoted raw) ++ rest)
      ≡ (value at (quoted raw) ∷ [], at + length (spelled (quoted raw)), rest)
unfolding value_at
quoted-read at raw rest h =
    rw (append_assoc raw (quote ∷ []) rest, string_end-IsString false raw rest h)
      (place_lem _ _ _ _ (omega (arith, length-append raw (quote ∷ []))))

colon_free : (c : ℕ) → is_symbol c ≡ true → (c == b':') ≡ false
colon_free c h = ground arith

padding-colon : (n : ℕ) → All (λ c. (c == b':') ≡ false) (padding n)
padding-colon zero = tt
padding-colon (suc zero) = (refl, tt)
padding-colon (suc (suc n)) = (refl, (refl, tt))

bytes-colon : (raw : Text) → IsBase64 raw → All (λ c. (c == b':') ≡ false) raw
bytes-colon raw (body, n, e, all, _) =
    rw e (All-append _ body (padding n) (All-weaken body colon_free all) (padding-colon n))

bytes-read :
    (at : ℕ) (raw rest : Text)
    → IsBase64 raw
    → value_at at (spelled (bytes raw) ++ rest)
      ≡ (value at (bytes raw) ∷ [], at + length (spelled (bytes raw)), rest)
unfolding value_at
bytes-read at raw rest h =
    rw
      (
        append_assoc raw (b':' ∷ []) rest,
        split_at-append (λ x. x == b':') raw b':' rest (bytes-colon raw h) refl,
      )
      (place_lem _ _ _ _ (omega (arith, length-append raw (b':' ∷ []))))

abbrev not_digit : ℕ → Bool
not_digit x = if is_digit x then false else true

not_digit-false : (c : ℕ) → is_digit c ≡ true → not_digit c ≡ false
not_digit-false c h = rw h refl

digits_end :
    (ds : Text) (ps : List (Text × Bare))
    → All (λ c. is_digit c ≡ true) ds
    → split_at not_digit (ds ++ params_spelled ps) ≡ (ds, params_spelled ps)
digits_end ds [] h =
    rw (append-nil ds) (split_at_lem not_digit ds (All-weaken ds not_digit-false h))
digits_end ds (p ∷ ps) h =
    split_at-append not_digit ds b';' _ (All-weaken ds not_digit-false h) refl

digits-read :
    (at : ℕ) (ds : Text) (ps : List (Text × Bare))
    → IsBare (digits ds)
    → value_at at (ds ++ params_spelled ps)
      ≡ (value at (digits ds) ∷ [], at + length ds, params_spelled ps)
unfolding value_at
digits-read at [] ps (h, _, _) = absurd (h refl)
digits-read at (c ∷ ds) ps (_, (d, all), _) =
    let plain : (c == quote) ≡ false = ground arith in
    let single : (c == b':') ≡ false = ground arith in
    rw (plain, single, d, digits_end ds ps all) refl

bare-read :
    (at : ℕ) (v : Bare) (ps : List (Text × Bare))
    → IsBare v
    → value_at at (spelled v ++ params_spelled ps)
      ≡ (value at v ∷ [], at + length (spelled v), params_spelled ps)
bare-read at (digits ds) ps h = digits-read at ds ps h
bare-read at (quoted raw) ps h = quoted-read at raw (params_spelled ps) h
bare-read at (bytes raw) ps h = bytes-read at raw (params_spelled ps) h

equals_free : (c : ℕ) → is_lower c ≡ true → (c == b'=') ≡ false
equals_free c h = ground arith

abbrev replies : ℕ → List (Text × Bare) → List Reply
replies at [] = stop ∷ stop ∷ []
replies at ((key, v) ∷ ps) =
    let here = at + length key + 2 in
    param (key, value here v) ∷ replies (here + length (spelled v)) ps

params-read :
    (fuel at : ℕ) (ps : List (Text × Bare))
    → length ps < fuel
    → All (λ p. IsKey p.0 × IsBare p.1) ps
    → read_params fuel at (params_spelled ps) ≡ replies at ps
unfolding read_params
params-read zero at ps h k = absurd (omega arith)
params-read (suc fuel) at [] h k = refl
params-read (suc fuel) at ((key, v) ∷ ps) h (((_, lower), bare), k) =
    let here = at + length key + 2 in
    rw
      (
        split_at-append (λ x. x == b'=') key b'=' (spelled v ++ params_spelled ps)
            (All-weaken key equals_free lower) refl,
        bare-read here v ps bare,
        params-read fuel (here + length (spelled v)) ps (omega arith) k,
      )
      refl

params-fit : (ps : List (Text × Bare)) → length ps ≤ length (params_spelled ps)
params-fit [] = omega arith
params-fit ((key, v) ∷ ps) = omega (
  arith,
  params-fit ps,
  length-append key (b'=' ∷ (spelled v ++ params_spelled ps)),
  length-append (spelled v) (params_spelled ps),
)

replies-ReadsParams :
    (ps : List (Text × Bare)) (at : ℕ)
    → ReadsParams reader (replies at ps) (values at ps) (stop ∷ [])
replies-ReadsParams [] at = refl
replies-ReadsParams ((key, v) ∷ ps) at = (_, refl, replies-ReadsParams ps _)

item_lem :
    (fuel at next : ℕ) (s rest : Text) (v : Value)
    → value_at at s ≡ (v ∷ [], next, rest)
    → read_item (suc fuel) at s ≡ item v ∷ read_params fuel next rest
unfolding read_item
item_lem fuel at next s rest v e = rw e refl

item-read :
    (i : Item)
    → IsItem i
    → read_item (suc (length (item_spelled i))) 0 (item_spelled i)
      ≡ item (value 0 (quoted i.name)) ∷ replies (length i.name + 2) i.params
item-read i (h, k) =
    let text = item_spelled i in
    let whole = length-append (spelled (quoted i.name)) (params_spelled i.params) in
    let place : 0 + length (spelled (quoted i.name)) ≡ length i.name + 2 =
      omega (arith, length-append i.name (quote ∷ [])) in
    item_lem (length text) 0 _ text _ _ (quoted-read 0 i.name (params_spelled i.params) h)
    ∙ ap (λ r. item (value 0 (quoted i.name)) ∷ r)
        (ap (λ n. read_params (length text) n (params_spelled i.params)) place
          ∙ params-read (length text) (length i.name + 2) i.params
              (omega (arith, whole, params-fit i.params)) k)

list_lem :
    (script : List Reply) (v w : Value) (rest : List Reply)
    → script ≡ item v ∷ rest
    → v ≡ w
    → reader.parse_list script ≡ some (some w, rest)
list_lem script v w rest e same = rw (e, same) refl

pub reader-ReadsRfc : ReadsRfc reader
reader-ReadsRfc i h = record {
  after_name = replies (length i.name + 2) i.params;
  after_params = stop ∷ [];
  after_list = [];
  name = list_lem _ _ _ _ (item-read i h) refl;
  params_read = replies-ReadsParams i.params (length i.name + 2);
  done = refl;
}
