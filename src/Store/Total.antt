-- ===== src/Store/Total.antt =====
-- src/store.rs: when `consume` returns.
use trillium_ratelimit.Common.{ℕ, ◌≤◌, ◌≡◌, ◌⊎◌, sym, none, some, u64_max, subst, arith}
use trillium_ratelimit.Time.{Instant, Duration}
use trillium_ratelimit.Quota.{Quota}
use trillium_ratelimit.Float.{F64, IsIeee}
use trillium_ratelimit.Bucket.{Bucket, Decision, seconds_to_refill, refill_per_second}
use trillium_ratelimit.Bucket.Total.{try_consume_total}
use trillium_ratelimit.Store.Moka.{Cache, IsLossy}
use trillium_ratelimit.Store.Validity.{Inv, call-Inv, bucket_or_fresh-IsValid}
use trillium_ratelimit.Store.{Store, consume, bucket_or_fresh}

module _ (f : F64) {K : Type 0} (moka : Cache K (Bucket f)) (ieee : IsIeee f) (lossy : IsLossy moka)
    (same : Discrete K) (q : Quota) (m : ℕ) (d : Duration) (fits : m ≤ u64_max)
    (burst-le : q.burst ≤ m)
    (full : seconds_to_refill f (f.of_u64 m) (refill_per_second f q) ≡ some d) where
  open moka use {find}

  pub consume_total :
      (s : Store f moka) (now : Instant) (key : K) (cost : ℕ)
      → Inv f moka ieee lossy same q s
      → cost ≤ m
      → (s' : Store f moka) × (r : Decision) × (consume f moka s now key cost ≡ some (s', r))
        × Inv f moka ieee lossy same q s'
        × (r.time_to_full ≤ d)
        × ((r.retry_after ≡ none) ⊎ ((e : Duration) × (r.retry_after ≡ some e) × (e ≤ d)))
  consume_total s now key cost v c =
      let bucket = bucket_or_fresh f (find s.cache key) now s.quota in
      let range =
        bucket_or_fresh-IsValid f moka ieee lossy same (find s.cache key) now s.quota
          (v.valid key) in
      let full' =
        subst (λ p. seconds_to_refill f (f.of_u64 m) (refill_per_second f p) ≡ some d)
          (sym v.same_quota) full in
      let (b, r, e, fills, waits) =
        try_consume_total f ieee s.quota m d fits full' bucket now cost
          (subst (λ (p : Quota). p.burst ≤ m) (sym v.same_quota) burst-le) c range.level_nonneg in
      let s' : Store f moka = record s { cache = moka.put s.cache key b } in
      let done : consume f moka s now key cost ≡ some (s', r) = unfold consume in rw e in
      (
        s',
        r,
        done,
        call-Inv f moka ieee lossy same q s s' now key cost r (omega arith) done v,
        fills,
        waits,
      )
