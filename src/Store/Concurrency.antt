-- ===== src/Store/Concurrency.antt =====
-- src/store.rs: the calls of many threads within one instant.
use mathlib.Core.Logic.{ite, if_pos, if_neg}
use trillium_ratelimit.Common.{
  ℕ, suc, ◌≤◌, ◌<◌, ◌≡◌, refl, ap, Option, none, some, List, [], ◌∷◌, map, min, u64_max, replicate,
  arith, All,
}
use trillium_ratelimit.Time.{Instant, Duration}
use trillium_ratelimit.Quota.{Quota, IsInRange}
use trillium_ratelimit.Float.{F64, IsIeee, exact_max}
use trillium_ratelimit.Bucket.{Bucket, Decision, fresh, run, seconds_to_refill, refill_per_second}
use trillium_ratelimit.Bucket.Bounds.{run-cons}
use trillium_ratelimit.Bucket.Drain.{at_once, count_true, fresh_admits_burst}
use trillium_ratelimit.Store.Moka.{keeping-IsLossy, Cache, IsKeeping, IsLossy}
use trillium_ratelimit.Store.Validity.{Inv, new-Inv}
use trillium_ratelimit.Store.Total.{consume_total}
use trillium_ratelimit.Store.{Store, new, bucket_or_fresh}
use trillium_ratelimit.Store.Partitions.{
  calls_of, decisions_of, run_key, run_store, run_store-run_key,
}

module _ {K : Type 0} (same : Discrete K) where
  pub occurrences : K → List K → ℕ
  occurrences k [] = 0
  occurrences k (key ∷ keys) = ite (same key k) (suc (occurrences k keys)) (occurrences k keys)

-- One request for one token from each key of the list, all at one time.
abbrev pub requests_at : {K : Type 0} → Instant → List K → List (Instant × K × ℕ)
requests_at now = map (λ key. (now, key, 1))

calls_of-requests_at :
    {K : Type 0} (same : Discrete K) (now : Instant) (k : K) (keys : List K)
    → calls_of same k (requests_at now keys) ≡ at_once now (replicate (occurrences same k keys) 1)
unfolding calls_of occurrences
calls_of-requests_at same now k [] = refl
calls_of-requests_at same now k (key ∷ keys) = elim (same key k) [
  | yes p ↦
      rw (if_pos _ p, if_pos _ p) (ap (λ c. (now, 1) ∷ c) (calls_of-requests_at same now k keys))
  | no p ↦ rw (if_neg _ p, if_neg _ p) (calls_of-requests_at same now k keys)
]

module _ (f : F64) where
  run_key-run :
      (b b' : Bucket f) (q : Quota) (calls : List (Instant × ℕ)) (ds : List Decision)
      → run f b q calls ≡ some (b', ds)
      → run_key f (some b) q calls ≡ some (some b', ds)
  unfolding run run_key bucket_or_fresh
  run_key-run b b' q [] ds h = let e : b ≡ b' = cc h in rw e (cc h)
  run_key-run b b' q ((now, cost) ∷ calls) ds h =
      let (next, d, rest, first, others, all) = run-cons f b q now cost calls b' ds h in
      rw (first, run_key-run next b' q calls rest others, all)

  -- Of a key that the store does not hold, the first call makes the bucket.
  run_key-none :
      (q : Quota) (now : Instant) (costs : List ℕ) (o : Option (Bucket f)) (ds : List Decision)
      (b' : Bucket f) (rs : List Decision)
      → run_key f none q (at_once now costs) ≡ some (o, ds)
      → run f (fresh f now q) q (at_once now costs) ≡ some (b', rs)
      → ds ≡ rs
  unfolding run run_key bucket_or_fresh
  run_key-none q now [] o ds b' rs h k = cc (h, k)
  run_key-none q now (c ∷ cs) o ds b' rs h k =
      let h' : run_key f (some (fresh f now q)) q (at_once now (c ∷ cs)) ≡ some (o, ds) = h in
      cc (h', run_key-run (fresh f now q) b' q (at_once now (c ∷ cs)) rs k)

  module _ {K : Type 0} (moka : Cache K (Bucket f)) (same : Discrete K) (keeps : IsKeeping moka)
      (ieee : IsIeee f) where
    open moka use {find}

    lossy : IsLossy moka
    lossy = keeping-IsLossy moka keeps

    module _ (q : Quota) (m : ℕ) (d : Duration) (fits : m ≤ u64_max) (burst-le : q.burst ≤ m)
        (full : seconds_to_refill f (f.of_u64 m) (refill_per_second f q) ≡ some d) where
      run_store_total :
          (s : Store f moka) (calls : List (Instant × K × ℕ))
          → Inv f moka ieee lossy same q s
          → All (λ call. call.2 ≤ m) calls
          → (s' : Store f moka) × (ds : List Decision) × (run_store f moka s calls ≡ some (s', ds))
      unfolding run_store
      run_store_total s [] v costs = (s, [], refl)
      run_store_total s ((now, key, cost) ∷ calls) v (c, costs) =
          let (t, r, e, v', _, _) =
            consume_total f moka ieee lossy same q m d fits burst-le full s now key cost v c in
          let (s', ds, e') = run_store_total t calls v' costs in (s', r ∷ ds, rw (e, e'))

    -- Requests for one token each, on any keys, in any order, within one instant, on a new store
    -- whose cache drops nothing meanwhile: each is answered, and of each key exactly as many are
    -- admitted as its burst, or all of them if they are fewer. The burst is a whole number that
    -- binary64 represents, the window is not zero, and the time in which `m` tokens accrue is
    -- representable, `m` being at least 1 and the burst. `f64` is any arithmetic that meets the
    -- facts of IEEE 754.
    pub concurrent_admits_burst :
        (q : Quota) (m : ℕ) (d : Duration) (cap : ℕ) (now : Instant) (keys : List K)
        → IsInRange q
        → 0 < q.window
        → m ≤ exact_max
        → q.burst ≤ m
        → 1 ≤ m
        → seconds_to_refill f (f.of_u64 m) (refill_per_second f q) ≡ some d
        → (s' : Store f moka) × (ds : List Decision) × (run_store f moka
              (new f moka q cap)
              (requests_at now keys)
            ≡ some (s', ds))
          × ((k : K)
              → count_true (map (λ r. r.allowed) (decisions_of same k (requests_at now keys) ds))
                ≡ min (occurrences same k keys) q.burst)
    unfolding new
    concurrent_admits_burst q m d cap now keys ranges lasts fits burst-le one full =
        let (s', ds, e) =
          run_store_total q m d (omega arith) burst-le full (new f moka q cap)
            (requests_at now keys) (new-Inv f moka ieee lossy same q cap) (unit_costs keys one) in
        (s', ds, e, λ k. of_key s' ds e k)
      where
        unit_costs : (ks : List K) → 1 ≤ m → All (λ call. call.2 ≤ m) (requests_at now ks)
        unit_costs [] h = tt
        unit_costs (k ∷ ks) h = (h, unit_costs ks h)

        of_key :
            (s' : Store f moka) (ds : List Decision)
            → run_store f moka (new f moka q cap) (requests_at now keys) ≡ some (s', ds)
            → (k : K)
            → count_true (map (λ r. r.allowed) (decisions_of same k (requests_at now keys) ds))
              ≡ min (occurrences same k keys) q.burst
        of_key s' ds e k =
            let alone =
              run_store-run_key f moka same keeps (new f moka q cap) s' (requests_at now keys) ds k
                e in
            let (b', rs, e', counted) =
              fresh_admits_burst f ieee q now ranges lasts (omega arith) m d fits burst-le full
                (occurrences same k keys) one in
            let alone' : run_key f none q (at_once now (replicate (occurrences same k keys) 1))
                ≡ some (find s'.cache k, decisions_of same k (requests_at now keys) ds) =
              rw (keeps.build_empty cap q.window k, calls_of-requests_at same now k keys) at
                alone in
            let equal = run_key-none q now _ _ _ b' rs alone' e' in rw equal counted
