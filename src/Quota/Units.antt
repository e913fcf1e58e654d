-- ===== src/Quota/Units.antt =====
-- src/headers/quota.rs: the quota units that a policy's token is read as.
use std.Equiv.{IsEquiv, Iso, iso_to_equiv}
use mathlib.Core.HLevel.{Σ_prop_path}
use trillium_ratelimit.Common.{
  ◌≡◌, ◌≢◌, refl, Text, codes, inl, inr, false, Bool-cases, text_eq, text_eq_sound, text_eq_refl,
}
use trillium_ratelimit.Quota.{
  QuotaUnit, requests, content_bytes, concurrent_requests, other, as_str, from_cow, from_token,
  as_str-from_token,
}

-- A unit that is read from a token: a registered one, or another whose token is not registered.
abbrev pub IsRead : QuotaUnit → Type 0
IsRead requests = Unit
IsRead content_bytes = Unit
IsRead concurrent_requests = Unit
IsRead (other t) =
    (t ≢ codes "requests") × (t ≢ codes "content-bytes") × (t ≢ codes "concurrent-requests")

IsRead-prop : (u : QuotaUnit) → IsProp (IsRead u)
IsRead-prop requests = hlevel
IsRead-prop content_bytes = hlevel
IsRead-prop concurrent_requests = hlevel
IsRead-prop (other t) = hlevel

neq : (s t : Text) → text_eq s t ≡ false → s ≢ t
neq s t e h = let e' = rw h at e in cc (e', text_eq_refl t)

eq_false : (s t : Text) → s ≢ t → text_eq s t ≡ false
eq_false s t h = elim (Bool-cases (text_eq s t)) [
  | inl e ↦ absurd (h (text_eq_sound s t e))
  | inr e ↦ e
]

from_token-IsRead : (t : Text) → IsRead (from_token t)
unfolding from_token
from_token-IsRead t = elim (Bool-cases (text_eq t (codes "requests"))) [
  | inl e ↦ rw e tt
  | inr e ↦ elim (Bool-cases (text_eq t (codes "content-bytes"))) [
    | inl e' ↦ rw (e, e') tt
    | inr e' ↦ elim (Bool-cases (text_eq t (codes "concurrent-requests"))) [
      | inl e'' ↦ rw (e, e', e'') tt
      | inr e'' ↦ rw (e, e', e'') (neq _ _ e, neq _ _ e', neq _ _ e'')
    ]
  ]
]

from_token-as_str : (u : QuotaUnit) → IsRead u → from_token (as_str u) ≡ u
unfolding from_token as_str
from_token-as_str requests h = refl
from_token-as_str content_bytes h = refl
from_token-as_str concurrent_requests h = refl
from_token-as_str (other t) (a, b, c) = rw (eq_false _ _ a, eq_false _ _ b, eq_false _ _ c)

pub from_cow-as_str : (u : QuotaUnit) → IsRead u → from_cow (as_str u) ≡ u
unfolding from_token
from_cow-as_str u h = from_token-as_str u h

-- The token of a unit that is read from one.
unfoldable pub wire_token : ((u : QuotaUnit) × IsRead u) → Text
wire_token (u, h) = as_str u

-- The registered units and the tokens that are not registered are the units that are read, and they
-- are exactly the tokens: each token is that of one of them, and no two of them, of which `Other`
-- with a registered token is none, have the same token. Reading is the inverse: every token is read
-- as such a unit, whose token it is, and the token of such a unit is read as that unit.
pub wire_token-IsEquiv :
    IsEquiv wire_token
    × ((t : Text) → IsRead (from_token t) × (as_str (from_token t) ≡ t))
    × ((read : (u : QuotaUnit) × IsRead u) → from_token (wire_token read) ≡ read.0)
unfolding wire_token
wire_token-IsEquiv =
    let whole : Iso ((u : QuotaUnit) × IsRead u) Text = record {
      fun = wire_token;
      inv = λ token. (from_token token, from_token-IsRead token);
      rinv = as_str-from_token;
      linv = λ (u, h). Σ_prop_path IsRead-prop (from_token-as_str u h);
    } in
    (
      (iso_to_equiv whole).1,
      (λ t. (from_token-IsRead t, as_str-from_token t)),
      (λ (u, h). from_token-as_str u h),
    )
