-- ===== src/Float/Binary/Made.antt =====
-- The results of a rounding, and the order of binary64.
use trillium_ratelimit.Common.{
  ℕ, ◌*◌, ◌≤◌, ◌<◌, ◌≡◌, ◌∙◌, refl, inl, inr, Bool, Bool-cases, true, false, ltb, lt→ltb, ltb→lt,
  le→leb, arith, subst, ap, sym,
}
use trillium_ratelimit.Float.{IsNonnegOrNan}
use trillium_ratelimit.Float.Binary.Round.{round, round_mono}
use trillium_ratelimit.Float.Binary.Defs.{
  overflow, IsDouble, Double, finite, infinite, nan, made, make, round-IsDouble, le, binary64,
  zero-IsDouble,
}

IsDouble-prop : (n : ℕ) → IsProp (IsDouble n)
IsDouble-prop n = hlevel

pub finite_eq : (n m : ℕ) (p : IsDouble n) (q : IsDouble m) → n ≡ m → finite n p ≡ finite m q
finite_eq n m p q e =
    subst (λ (t : ℕ). (r : IsDouble t) → finite n p ≡ finite t r) e
      (λ r. ap (λ (s : IsDouble n). finite n s) (IsDouble-prop n p r)) q

pub double_round : (n : ℕ) → IsDouble n → round n 1 ≡ n
double_round n p = ground arith

pub double_fits : (n : ℕ) → IsDouble n → n < overflow
double_fits n p = ground arith

made_finite :
    (n : ℕ) (b : Bool) (h : b ≡ true → IsDouble n) (p : IsDouble n)
    → b ≡ true
    → made n b h ≡ finite n p
made_finite n true h p e = finite_eq n n (h refl) p refl
made_finite n false h p e = cc

made_infinite : (n : ℕ) (b : Bool) (h : b ≡ true → IsDouble n) → b ≡ false → made n b h ≡ infinite
made_infinite n true h e = cc
made_infinite n false h e = refl

pub make_finite :
    (n d : ℕ) (h : 0 < d) (fits : round n d < overflow)
    → make n d h ≡ finite (round n d) (round-IsDouble n d h fits)
unfolding make
make_finite n d h fits = made_finite _ _ _ _ (lt→ltb _ _ fits)

pub make_infinite : (n d : ℕ) (h : 0 < d) → overflow ≤ round n d → make n d h ≡ infinite
unfolding make
make_infinite n d h large = made_infinite _ _ _ (ground arith)

pub data IsMade (n d : ℕ) (h : 0 < d) : Type 0 where
  fits :
      (small : round n d < overflow)
      → make n d h ≡ finite (round n d) (round-IsDouble n d h small)
      → IsMade n d h
  overflows : overflow ≤ round n d → make n d h ≡ infinite → IsMade n d h

pub make-IsMade : (n d : ℕ) (h : 0 < d) → IsMade n d h
make-IsMade n d h = elim (Bool-cases (ltb (round n d) overflow)) [
  | inl small ↦ let s = ltb→lt _ _ small in fits s (make_finite n d h s)
  | inr large ↦ let l : overflow ≤ round n d = ground arith in overflows l (make_infinite n d h l)
]

pub make_any : (n d : ℕ) (h k : 0 < d) → make n d h ≡ make n d k
make_any n d h k = elim (make-IsMade n d h) [
  | fits s e ↦ e ∙ finite_eq _ _ _ _ refl ∙ sym (make_finite n d k s)
  | overflows s e ↦ e ∙ sym (make_infinite n d k s)
]

-- A result is not NaN, and the results have the order of what is rounded.
pub make_mono :
    (n d m c : ℕ) (h : 0 < d) (k : 0 < c) → n * c ≤ m * d → le (make n d h) (make m c k) ≡ true
unfolding le
make_mono n d m c h k l = ordered (make-IsMade n d h) (make-IsMade m c k)
  where
    rounded : round n d ≤ round m c
    rounded = round_mono n d m c h k l

    ordered : IsMade n d h → IsMade m c k → le (make n d h) (make m c k) ≡ true
    ordered (fits s e) (fits s' e') = rw (e, e') (le→leb _ _ rounded)
    ordered (fits s e) (overflows s' e') = rw (e, e') refl
    ordered (overflows s e) (fits s' e') = absurd (omega (arith, rounded, s, s'))
    ordered (overflows s e) (overflows s' e') = rw (e, e') refl

-- A number is not rounded.
pub make_self : (n : ℕ) (h : 0 < 1) (p : IsDouble n) → make n 1 h ≡ finite n p
make_self n h p = elim (make-IsMade n 1 h) [
  | fits s e ↦ e ∙ finite_eq _ _ _ _ (double_round n p)
  | overflows s e ↦ absurd (omega (arith, s, double_round n p, double_fits n p))
]

pub nonneg : (x : Double) → IsNonnegOrNan binary64 x
unfolding le
nonneg (finite k p) = inl (le→leb _ _ (omega arith))
nonneg infinite = inl refl
nonneg nan = inr refl

pub make-IsNonneg : (n d : ℕ) (h : 0 < d) → le (finite 0 zero-IsDouble) (make n d h) ≡ true
unfolding le
make-IsNonneg n d h = elim (make-IsMade n d h) [
  | fits s e ↦ rw e (le→leb _ _ (omega arith))
  | overflows s e ↦ rw e refl
]
