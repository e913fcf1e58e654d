-- ===== src/Limiter/Total.antt =====
-- src/limiter.rs: when `Handler::run` returns.
use trillium_ratelimit.Common.{
  ℕ, ◌+◌, ◌≤◌, ◌≡◌, ◌⊎◌, inl, inr, Bool, true, false, Option, none, some, Text, refl, arith,
  u64_max, if◌then◌else◌,
}
use trillium_ratelimit.Time.{Instant, Duration, from_secs, max_duration}
use trillium_ratelimit.Quota.{Quota}
use trillium_ratelimit.Float.{F64, IsIeee}
use trillium_ratelimit.Bucket.{Bucket, Decision, seconds_to_refill, refill_per_second}
use trillium_ratelimit.Store.Moka.{Cache, IsLossy}
use trillium_ratelimit.Store.Validity.{Inv}
use trillium_ratelimit.Store.Total.{consume_total}
use trillium_ratelimit.Headers.Decimal.{decimal}
use trillium_ratelimit.Limiter.{RateLimiter, random_jitter}
use trillium_ratelimit.Limiter.Trillium.{ConnApi, IsConn}
use trillium_ratelimit.Limiter.Handler.{
  Course, course, passed, rejected, metered, wire_key, annotated, respond, refused, run, or_zero,
  retry_after_header,
}
use trillium_ratelimit.Limiter.Answer.{sum_lem, random_jitter-le}

chosen :
    {A : Type 0} (b : Bool) (x : A) (o : Option A)
    → (y : A) × (o ≡ some y)
    → (y : A) × ((if b then some x else o) ≡ some y)
chosen true x o h = (x, refl)
chosen false x o h = h

or_zero-le :
    (d : Duration) (o : Option Duration)
    → (o ≡ none) ⊎ ((e : Duration) × (o ≡ some e) × (e ≤ d))
    → or_zero o ≤ d
or_zero-le d o (inl e) = rw e (omega arith)
or_zero-le d o (inr (w, e, h)) = rw e h

module _ (f : F64) {K : Type 0} (moka : Cache (Option K) (Bucket f)) (api : ConnApi) where
  open api use {Conn, insert, with_status, halt}

  respond_total :
      (l : RateLimiter f moka api) (conn : Conn) (pk : Option Text) (r : Decision)
      (jitter : Duration)
      → r.time_to_full + jitter + from_secs 1 ≤ max_duration
      → or_zero r.retry_after + jitter + from_secs 1 ≤ max_duration
      → (answer : Conn) × (respond f moka api l conn pk r jitter ≡ some answer)
  unfolding respond refused
  respond_total l conn pk r jitter full waits =
      let (n, sum, told, _, _) = sum_lem r.time_to_full jitter full in
      let (k, sum', told', _, _) = sum_lem (or_zero r.retry_after) jitter waits in
      let noted = annotated f moka api l conn pk r n in
      let halted = halt (with_status (insert noted retry_after_header (decimal k)) l.status) in
      let turned : refused f moka api l noted r jitter ≡ some halted =
        rw (refused, sum', told') refl in
      rw (respond, sum, told) (chosen r.allowed noted _ (halted, turned))

  module _ (ieee : IsIeee f) (lossy : IsLossy moka) (conns : IsConn api)
      (same : Discrete (Option K)) (q : Quota) (m : ℕ) (d : Duration) (fits : m ≤ u64_max)
      (burst-le : q.burst ≤ m) (one : 1 ≤ m)
      (full : seconds_to_refill f (f.of_u64 m) (refill_per_second f q) ≡ some d) (random : ℕ → ℕ)
      (draws : (max : ℕ) → random max ≤ max) (encode : Text → Text) where
    -- Every request on every connection is answered: the handler panics on none, and keeps its
    -- store's buckets in range, so that it answers the next one too. The store is in range, as that
    -- of a new limiter is; the time in which `m` tokens accrue is representable, `m` being at least
    -- 1 and the burst; and that time, the jitter and a second stay below the greatest duration. The
    -- burst and `m` are `u64`, the connection, the cache and `f64` are any that meet their laws,
    -- and `fastrand` stays in its bounds.
    pub run_total :
        (l : RateLimiter f moka api) (conn : Conn) (now : Instant)
        → Inv f moka ieee lossy same q l.store
        → d + l.jitter + from_secs 1 ≤ max_duration
        → (l' : RateLimiter f moka api) × (answer : Conn) × (run f moka api random encode l conn now
            ≡ some (l', answer))
          × Inv f moka ieee lossy same q l'.store
          × (l'.jitter ≡ l.jitter)
    unfolding run
    run_total l conn now v room = metered_total (course (l.extractor conn) l.missing_key) refl
      where
        metered_total :
            (c : Course K)
            → course (l.extractor conn) l.missing_key ≡ c
            → (l' : RateLimiter f moka api) × (answer : Conn) × (run f moka api random encode l conn
                  now
                ≡ some (l', answer))
              × Inv f moka ieee lossy same q l'.store
              × (l'.jitter ≡ l.jitter)
        metered_total passed e = (l, conn, rw (run, e) refl, v, refl)
        metered_total rejected e = (l, halt (with_status conn l.status), rw (run, e) refl, v, refl)
        metered_total (metered key) e =
            let (s, r, taken, v', fills, waits) =
              consume_total f moka ieee lossy same q m d fits burst-le full l.store now key 1 v
                one in
            let j = random_jitter f moka api random l in
            let small = random_jitter-le f moka api conns random encode l draws in
            let wait : or_zero r.retry_after ≤ d = or_zero-le d r.retry_after waits in
            let (answer, answered) =
              respond_total l conn (wire_key encode l.partition_key key) r j (omega arith)
                (omega arith) in
            (record l { store = s }, answer, rw (run, e, taken, answered) refl, v', refl)
