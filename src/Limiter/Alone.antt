-- ===== src/Limiter/Alone.antt =====
-- src/limiter.rs: what the handler lets through under one key, as calls of that key's bucket.
use trillium_ratelimit.Common.{
  ℕ, ◌+◌, ◌≤◌, ◌≡◌, refl, sym, subst, inl, inr, false, Option, none, some, Option-cases, List, [],
  ◌∷◌, Text, All, arith, u64_max,
}
use mathlib.Core.Logic.{if_pos, if_neg}
use trillium_ratelimit.Time.{Instant, Duration, from_secs, max_duration}
use trillium_ratelimit.Quota.{Quota}
use trillium_ratelimit.Float.{F64, IsIeee}
use trillium_ratelimit.Bucket.{
  Bucket, Decision, fresh, try_consume, run, seconds_to_refill, refill_per_second,
}
use trillium_ratelimit.Bucket.Rate.{admitted, Ordered}
use trillium_ratelimit.Store
use trillium_ratelimit.Store.{Store, bucket_or_fresh}
use trillium_ratelimit.Store.Moka.{Cache, IsKeeping, keeping-IsLossy}
use trillium_ratelimit.Store.Partitions.{calls_of, run_key, run_store-run_key}
use trillium_ratelimit.Store.Validity.{Inv, new-Inv}
use trillium_ratelimit.Limiter.{RateLimiter, MissingKey}
use trillium_ratelimit.Limiter.Trillium.{ConnApi, IsConn}
use trillium_ratelimit.Limiter.Handler.{Course, course, passed, rejected, metered}
use trillium_ratelimit.Limiter.Serve.{call_of, metered_calls, through, serve}
use trillium_ratelimit.Limiter.Through.{serve-run_store}
use trillium_ratelimit.Limiter.Total.{run_total}

-- The requests come in the order of their times, from `start` to `end`.
abbrev pub InOrder : {Conn : Type 0} → Instant → List (Instant × Conn) → Instant → Type 0
InOrder start [] end = start ≤ end
InOrder start ((now, conn) ∷ requests) end = (start ≤ now) × InOrder now requests end

Ordered-weaken :
    (start now end : Instant) (calls : List (Instant × ℕ))
    → start ≤ now
    → Ordered now calls end
    → Ordered start calls end
Ordered-weaken start now end [] h o = omega arith
Ordered-weaken start now end ((t, cost) ∷ calls) h (k, o) = (omega arith, o)

module _ {K : Type 0} (same : Discrete (Option K)) (k : Option K) where
  calls_of-call_of :
      (start now end : Instant) (c : Course K) (calls : List (Instant × Option K × ℕ))
      → start ≤ now
      → Ordered now (calls_of same k calls) end
      → Ordered start (calls_of same k (call_of now c calls)) end
  unfolding calls_of
  calls_of-call_of start now end passed calls h o = Ordered-weaken start now end _ h o
  calls_of-call_of start now end rejected calls h o = Ordered-weaken start now end _ h o
  calls_of-call_of start now end (metered key) calls h o = elim (same key k) [
    | yes p ↦ rw (if_pos _ p) (h, o)
    | no p ↦ rw (if_neg _ p) (Ordered-weaken start now end _ h o)
  ]

  pub metered_calls-Ordered :
      (api : ConnApi) (extractor : api.Conn → Option K) (missing_key : MissingKey)
      (start end : Instant) (requests : List (Instant × api.Conn))
      → InOrder start requests end
      → Ordered start (calls_of same k (metered_calls api extractor missing_key requests)) end
  unfolding metered_calls calls_of
  metered_calls-Ordered api extractor missing_key start end [] o = o
  metered_calls-Ordered api extractor missing_key start end ((now, conn) ∷ requests) (h, o) =
      calls_of-call_of start now end (course (extractor conn) missing_key) _ h
        (metered_calls-Ordered api extractor missing_key now end requests o)

pub run-run_key :
    (f : F64) (b : Bucket f) (q : Quota) (calls : List (Instant × ℕ)) (o : Option (Bucket f))
    (ds : List Decision)
    → run_key f (some b) q calls ≡ some (o, ds)
    → (b' : Bucket f) × (run f b q calls ≡ some (b', ds))
unfolding run run_key bucket_or_fresh
run-run_key f b q [] o ds h = (b, cc h)
run-run_key f b q ((now, cost) ∷ calls) o ds h = elim (Option-cases (try_consume f b now q cost)) [
  | inl e ↦ cc (rw e at h)
  | inr ((next, d), e) ↦ elim (Option-cases (run_key f (some next) q calls)) [
    | inl e' ↦ cc (rw (e, e') at h)
    | inr ((last, rest), e') ↦
        let h' = rw (e, e') at h in
        let (b', e'') = run-run_key f next q calls last rest e' in (b', rw (e, e'') (cc h'))
  ]
]

module _ (f : F64) (ieee : IsIeee f) {K : Type 0} (moka : Cache (Option K) (Bucket f))
    (keeps : IsKeeping moka) (same : Discrete (Option K)) (api : ConnApi) (conns : IsConn api)
    (random : ℕ → ℕ) (draws : (max : ℕ) → random max ≤ max) (encode : Text → Text) where
  open api use {Conn, is_halted}
  open moka use {find}

  module _ (q : Quota) (m : ℕ) (d : Duration) (fits : m ≤ u64_max) (burst-le : q.burst ≤ m)
      (one : 1 ≤ m) (full : seconds_to_refill f (f.of_u64 m) (refill_per_second f q) ≡ some d) where
    serve_total :
        (l : RateLimiter f moka api) (requests : List (Instant × Conn))
        → Inv f moka ieee (keeping-IsLossy moka keeps) same q l.store
        → d + l.jitter + from_secs 1 ≤ max_duration
        → (l' : RateLimiter f moka api) × (answers : List Conn) × (serve f moka api random encode l
              requests
            ≡ some (l', answers))
    unfolding serve
    serve_total l [] v room = (l, [], refl)
    serve_total l ((now, conn) ∷ requests) v room =
        let (next, answer, e, v', j) =
          run_total f moka api ieee (keeping-IsLossy moka keeps) conns same q m d fits burst-le one
            full random draws encode l conn now v room in
        let (l', answers, e') = serve_total next requests v' (omega (arith, j)) in
        (l', answer ∷ answers, rw (e, e'))

    of_new :
        (cap : ℕ) (s : Store f moka) (k : Option K) (calls : List (Instant × ℕ))
        (o : Option (Bucket f)) (ds : List Decision)
        → s ≡ Store.new f moka q cap
        → run_key f (find s.cache k) s.quota calls ≡ some (o, ds)
        → run_key f none q calls ≡ some (o, ds)
    unfolding Store.new
    of_new cap s k calls o ds built h = rw (built, keeps.build_empty cap q.window k) at h

    -- What goes through under a key is what a fresh bucket admits of the calls on that key.
    pub served_alone :
        (l : RateLimiter f moka api) (cap : ℕ) (requests : List (Instant × Conn)) (k : Option K)
        → l.store ≡ Store.new f moka q cap
        → d + l.jitter + from_secs 1 ≤ max_duration
        → All (λ request. is_halted request.1 ≡ false) requests
        → let calls = calls_of same k (metered_calls api l.extractor l.missing_key requests) in
          (l' : RateLimiter f moka api) × (answers : List Conn) × (serve f moka api random encode l
              requests
            ≡ some (l', answers))
          × (o : Option (Bucket f)) × (ds : List Decision) × (run_key f none q calls ≡ some (o, ds))
          × (through api l.extractor l.missing_key same k requests answers ≡ admitted calls ds)
    served_alone l cap requests k built room fresh =
        let lossy = keeping-IsLossy moka keeps in
        let v =
          subst (Inv f moka ieee lossy same q) (sym built) (new-Inv f moka ieee lossy same q cap) in
        let (l', answers, e) = serve_total l requests v room in
        let (s, ds, calls, counted) =
          serve-run_store f moka api random encode conns same l l' requests answers k fresh e in
        let alone = run_store-run_key f moka same keeps l.store s _ ds k calls in
        (l', answers, e, _, _, of_new cap l.store k _ _ _ built alone, counted)
