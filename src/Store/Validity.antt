-- ===== src/Store/Validity.antt =====
-- src/store.rs: the range of the buckets, under calls and losses of entries.
use trillium_ratelimit.Common.{
  ℕ, ◌≤◌, ◌≡◌, inl, inr, refl, Option, none, some, Option-cases, u64_max, ◌∙◌, sym, subst,
}
use trillium_ratelimit.Time.{Instant}
use trillium_ratelimit.Quota.{Quota}
use trillium_ratelimit.Float.{F64, IsIeee}
use trillium_ratelimit.Bucket.{Bucket, Decision, try_consume}
use trillium_ratelimit.Bucket.Bounds.{IsValid, fresh-IsValid, try_consume-IsValid}
use trillium_ratelimit.Store.Moka.{Cache, Loses, IsLossy}
use trillium_ratelimit.Store.{Store, new, consume, bucket_or_fresh}

module _ (f : F64) {K : Type 0} (moka : Cache K (Bucket f)) where
  open moka use {State, find, put}

  -- A call, or a loss of entries between two calls.
  pub data Step : Store f moka → Store f moka → Type 0 where
    call :
        {s s' : Store f moka} {d : Decision} (now : Instant) (key : K) (cost : ℕ)
        → consume f moka s now key cost ≡ some (s', d)
        → Step s s'
    lose : {s : Store f moka} {c : State} → Loses moka s.cache c → Step s (record s { cache = c })

  pub data Reach (s : Store f moka) : Store f moka → Type 0 where
    here : Reach s s
    next : {t u : Store f moka} → Reach s t → Step t u → Reach s u

  abbrev pub AllValid : Store f moka → Type 0
  AllValid s = (k : K) (b : Bucket f) → find s.cache k ≡ some b → IsValid f s.quota b

  -- What `consume` did, if it returned.
  pub consume_inv :
      (s s' : Store f moka) (now : Instant) (key : K) (cost : ℕ) (d : Decision)
      → consume f moka s now key cost ≡ some (s', d)
      → (b : Bucket f) × (try_consume f
            (bucket_or_fresh f (find s.cache key) now s.quota)
            now
            s.quota
            cost
          ≡ some (b, d))
        × (s' ≡ record s { cache = put s.cache key b })
  unfolding consume
  consume_inv s s' now key cost d h =
      let bucket = bucket_or_fresh f (find s.cache key) now s.quota in
      elim (Option-cases (try_consume f bucket now s.quota cost)) [
        | inl e ↦ cc (rw e at h)
        | inr ((b, d'), e) ↦ let h' = rw e at h in (b, cc (e, h'), cc h')
      ]

  module _ (ieee : IsIeee f) (lossy : IsLossy moka) (same : Discrete K) where
    pub bucket_or_fresh-IsValid :
        (o : Option (Bucket f)) (now : Instant) (q : Quota)
        → ((b : Bucket f) → o ≡ some b → IsValid f q b)
        → IsValid f q (bucket_or_fresh f o now q)
    unfolding bucket_or_fresh
    bucket_or_fresh-IsValid none now q h = fresh-IsValid f ieee now q
    bucket_or_fresh-IsValid (some b) now q h = h b refl

    pub lost-IsValid :
        (s : Store f moka) (c : State)
        → Loses moka s.cache c
        → AllValid s
        → AllValid (record s { cache = c })
    lost-IsValid s c loses v k b e = elim (loses k) [
      | inl kept ↦ v k b (sym kept ∙ e)
      | inr gone ↦ cc (sym gone ∙ e)
    ]

    put-IsValid :
        (s : Store f moka) (key : K) (b : Bucket f)
        → IsValid f s.quota b
        → AllValid s
        → AllValid (record s { cache = put s.cache key b })
    put-IsValid s key b valid v k b' e = elim (same key k) [
      | yes p ↦ elim (lossy.put_self s.cache key b) [
        | inl kept ↦
            let e' = rw (← p) at e in
            let hit : b ≡ b' = cc (kept, e') in subst (IsValid f s.quota) hit valid
        | inr gone ↦ let e' = rw (← p) at e in cc (gone, e')
      ]
      | no p ↦ elim (lossy.put_other s.cache key k b p) [
        | inl kept ↦ v k b' (sym kept ∙ e)
        | inr gone ↦ cc (sym gone ∙ e)
      ]
    ]

    -- What holds of the store: its quota is the one it was built for, and all its buckets are valid.
    pub record Inv (q : Quota) (s : Store f moka) : Type 0 where
      pub same_quota : s.quota ≡ q
      pub valid : AllValid s

    pub call-Inv :
        (q : Quota) (s s' : Store f moka) (now : Instant) (key : K) (cost : ℕ) (d : Decision)
        → q.burst ≤ u64_max
        → consume f moka s now key cost ≡ some (s', d)
        → Inv q s
        → Inv q s'
    call-Inv q s s' now key cost d r h v =
        let (b, e, all) = consume_inv s s' now key cost d h in
        let before = bucket_or_fresh-IsValid (find s.cache key) now s.quota (v.valid key) in
        let after =
          try_consume-IsValid f ieee _ now s.quota cost b d (rw v.same_quota r) before e in
        subst (Inv q) (sym all)
          (record { same_quota = v.same_quota; valid = put-IsValid s key b after v.valid })

    Step-Inv :
        {q : Quota} {s s' : Store f moka} → q.burst ≤ u64_max → Step s s' → Inv q s → Inv q s'
    Step-Inv {q} {s} {s'} r (call {d = d} now key cost h) v = call-Inv q s s' now key cost d r h v
    Step-Inv {s} r (lose {c = c} loses) v = record {
      same_quota = v.same_quota;
      valid = lost-IsValid s c loses v.valid;
    }

    Reach-Inv :
        {q : Quota} {s s' : Store f moka} → q.burst ≤ u64_max → Inv q s → Reach s s' → Inv q s'
    Reach-Inv r v here = v
    Reach-Inv r v (next before step) = Step-Inv r step (Reach-Inv r v before)

    pub new-Inv : (q : Quota) (cap : ℕ) → Inv q (new f moka q cap)
    unfolding new
    new-Inv q cap = record {
      same_quota = refl;
      valid = λ k b e. cc (sym (lossy.build_empty cap q.window k) ∙ e);
    }

    -- After any sequence of calls on any keys at any times, with entries of the cache dropped in
    -- between, every bucket of a store holds between zero and burst tokens of the quota that the
    -- store was built for. The burst is a `u64`, and `f64` any arithmetic that meets the facts of
    -- IEEE 754.
    pub Reach-AllValid :
        (q : Quota) (cap : ℕ) (s : Store f moka)
        → q.burst ≤ u64_max
        → Reach (new f moka q cap) s
        → (k : K) (b : Bucket f) → find s.cache k ≡ some b
        → IsValid f q b
    Reach-AllValid q cap s r reach k b e =
        let v = Reach-Inv r (new-Inv q cap) reach in
        subst (λ p. IsValid f p b) v.same_quota (v.valid k b e)
