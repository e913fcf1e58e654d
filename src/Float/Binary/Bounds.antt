-- ===== src/Float/Binary/Bounds.antt =====
-- The bounds on the rounding errors of binary64.
use trillium_ratelimit.Common.{
  ℕ, ◌+◌, ◌-◌, ◌*◌, ◌^◌, ◌≤◌, ◌<◌, ◌≡◌, ◌∙◌, inl, inr, Bool-cases, leb, true, leb→le, arith, subst,
  ap, sym,
}
use native.Mathlib.Nat.{mul-le-mul_right, le_of_mul-le-mul_right}
use trillium_ratelimit.Float.Binary.Exponent.{full}
use trillium_ratelimit.Float.Binary.Round.{round, round_mono, round-le, round-ge}
use trillium_ratelimit.Float.Binary.Defs.{one, Double, finite, infinite, nan, make, zero-IsDouble}
use trillium_ratelimit.Float.Binary.Made.{fits, overflows, make-IsMade, double_round, finite_eq}

abbrev pub AtMost : Double → ℕ → ℕ → Type 0
AtMost (finite k p) a d = k * d ≤ a * one
AtMost infinite a d = ⊥
AtMost nan a d = ⊥

abbrev pub AtLeast : Double → ℕ → ℕ → Type 0
AtLeast (finite k p) a d = a * one ≤ k * d
AtLeast infinite a d = Unit
AtLeast nan a d = ⊥

pub AtMost-trans : (x : Double) (a d b e : ℕ) → 0 < d → a * e ≤ b * d → AtMost x a d → AtMost x b e
AtMost-trans (finite k p) a d b e h l m =
    le_of_mul-le-mul_right {k = d} (omega (arith, mul-le-mul_right e m, mul-le-mul_right one l)) h
AtMost-trans infinite a d b e h l m = absurd m
AtMost-trans nan a d b e h l m = absurd m

pub AtLeast-trans :
    (x : Double) (a d b e : ℕ) → 0 < d → b * d ≤ a * e → AtLeast x a d → AtLeast x b e
AtLeast-trans (finite k p) a d b e h l m =
    le_of_mul-le-mul_right {k = d} (omega (arith, mul-le-mul_right e m, mul-le-mul_right one l)) h
AtLeast-trans infinite a d b e h l m = tt
AtLeast-trans nan a d b e h l m = absurd m

round_zero : (c : ℕ) → 0 < c → round 0 c ≡ 0
round_zero c h =
    omega (arith, round_mono 0 c 0 1 h (omega arith) (omega arith), double_round 0 zero-IsDouble)

pub make_zero : (c : ℕ) (h : 0 < c) → make 0 c h ≡ finite 0 zero-IsDouble
make_zero c h = elim (make-IsMade 0 c h) [
  | fits s e ↦ e ∙ finite_eq _ _ _ _ (round_zero c h)
  | overflows s e ↦ absurd (omega (arith, s, round_zero c h))
]

-- What is at most a / d is rounded to at most one part in 2^53 more.
module _ (n c a d : ℕ) (hc : 0 < c) (hd : 0 < d) (large : a ≤ 2 ^ 1010) (small : d ≤ 2 ^ 1010) where
  round-le-bound : 0 < a → n * d ≤ a * one * c → round n c * (d * full) ≤ a * (full + 1) * one
  round-le-bound positive h = omega (
    arith,
    mul-le-mul_right (d * full) (round_mono n c (a * one) d hc hd h),
    round-le (a * one) d hd (omega arith),
  )

  positive-AtMost : 0 < a → n * d ≤ a * one * c → AtMost (make n c hc) (a * (full + 1)) (d * full)
  positive-AtMost positive h =
      let bound = round-le-bound positive h in
      elim (make-IsMade n c hc) [
        | fits s e ↦ rw e (omega (arith, bound))
        | overflows s e ↦ absurd (omega (arith, s, bound, mul-le-mul_right (round n c * full) hd))
      ]

  none-AtLeast : leb a 0 ≡ true → AtLeast (make n c hc) (a * (full - 1)) (d * full)
  none-AtLeast h = elim (make-IsMade n c hc) [
    | fits s e ↦ rw e (omega (arith, leb→le _ _ h))
    | overflows s e ↦ rw e tt
  ]

  pub make-AtMost : n * d ≤ a * one * c → AtMost (make n c hc) (a * (full + 1)) (d * full)
  make-AtMost h = elim (Bool-cases (leb a 0)) [
    | inl none_at_all ↦
        let nothing = mul-le-mul_right (one * c) (leb→le a 0 none_at_all) in
        let empty : n ≡ 0 = omega (arith, nothing, h, mul-le-mul_right n hd) in
        subst (λ (x : Double). AtMost x (a * (full + 1)) (d * full))
          (sym (ap (λ (t : ℕ). make t c hc) empty ∙ make_zero c hc)) (omega arith)
    | inr some_at_all ↦ positive-AtMost (ground arith) h
  ]

  pub make-AtLeast : a * one * c ≤ n * d → AtLeast (make n c hc) (a * (full - 1)) (d * full)
  make-AtLeast h = elim (Bool-cases (leb a 0)) [
    | inl none_at_all ↦ none-AtLeast none_at_all
    | inr positive ↦ elim (make-IsMade n c hc) [
      | fits s e ↦ rw e (
          omega (
            arith,
            mul-le-mul_right (d * full) (round_mono (a * one) d n c hd hc h),
            round-ge (a * one) d hd (ground arith),
          ))
      | overflows s e ↦ rw e tt
    ]
  ]
