-- ===== src/Together/Unrefused.antt =====
-- src/client.rs and src/limiter.rs over exact arithmetic: the requests of a client that paces itself,
-- at a handler that serves others too.
use trillium_ratelimit.Common.{
  ℕ, suc, ◌+◌, ◌*◌, ◌≤◌, ◌<◌, ◌≡◌, ◌∙◌, refl, subst, true, false, Option, none, some, List, [], ◌∷◌,
  All, Text, arith, length, u64_max,
}
use trillium_ratelimit.Time.{Instant, Duration, from_secs, max_duration}
use trillium_ratelimit.Quota.{Quota}
use trillium_ratelimit.Float.Exact.{exact, exact-IsIeee}
use trillium_ratelimit.Bucket.{Bucket, Decision, fresh, seconds_to_refill, refill_per_second, run}
use trillium_ratelimit.Bucket.Bounds.{run-cons}
use trillium_ratelimit.Bucket.Rate.{admitted}
use trillium_ratelimit.Store
use trillium_ratelimit.Store.{bucket_or_fresh}
use trillium_ratelimit.Store.Moka.{Cache, IsKeeping}
use trillium_ratelimit.Store.Partitions.{calls_of, run_key}
use trillium_ratelimit.Limiter.{RateLimiter}
use trillium_ratelimit.Limiter.Trillium.{ConnApi, IsConn}
use trillium_ratelimit.Limiter.Serve.{metered_calls, through, serve}
use trillium_ratelimit.Limiter.Alone.{run-run_key, served_alone}
use trillium_ratelimit.Client.Throttle.{Throttle, new, claim}
use trillium_ratelimit.Client.New.{new_lem}
use trillium_ratelimit.Client.Pacing.{claims, claim_lem, proceed_at_bounds, length-claims}
use trillium_ratelimit.Together.Paced.{arrivals, paced_client_admitted}

-- Where all of a client's requests are admitted, so many are.
admitted-length :
    (q : Quota) (b b' : Bucket exact) (lag : Duration) (starts : List Instant) (ds : List Decision)
    → run exact b q (arrivals lag starts) ≡ some (b', ds)
    → All (λ d. d.allowed ≡ true) ds
    → admitted (arrivals lag starts) ds ≡ length starts
admitted-length q b b' lag [] ds h all = refl
admitted-length q b b' lag (start ∷ starts) ds h all =
    let (next, d, rest, first, others, e) =
      run-cons exact b q (start + lag) 1 (arrivals lag starts) b' ds h in
    let (here, there) = subst (All (λ d. d.allowed ≡ true)) e all in
    let ih = admitted-length q next b' lag starts rest others there in
    rw (e, here, ih) (omega arith)

-- The first request on a new scope proceeds at once.
first_start :
    {Url : Type 0} (latest : Instant) (t : Throttle Url) (scope : Text) (now : Instant)
    → latest ≤ max_duration
    → now + t.interval ≤ latest
    → t.state scope ≡ none
    → now + (claim latest t scope now).1 ≡ now
first_start latest t scope now span room unclaimed =
    let (start, _, _, _) =
      claim_lem latest t scope now now span (omega (arith, room)) (rw unclaimed) in
    omega (arith, start, proceed_at_bounds t now now)

-- A bucket that is not yet in the store is fresh at its first call.
run_key-run :
    (q : Quota) (now : Instant) (cost : ℕ) (calls : List (Instant × ℕ)) (o : Option (Bucket exact))
    (ds : List Decision)
    → run_key exact none q ((now, cost) ∷ calls) ≡ some (o, ds)
    → (b' : Bucket exact) × (run exact (fresh exact now q) q ((now, cost) ∷ calls) ≡ some (b', ds))
unfolding run_key bucket_or_fresh
run_key-run q now cost calls o ds h =
    run-run_key exact (fresh exact now q) q ((now, cost) ∷ calls) o ds h

module _ {K : Type 0} (moka : Cache (Option K) (Bucket exact)) (keeps : IsKeeping moka)
    (same : Discrete (Option K)) (api : ConnApi) (conns : IsConn api) (random : ℕ → ℕ)
    (draws : (max : ℕ) → random max ≤ max) (encode : Text → Text) where
  open api use {Conn, is_halted}

  -- A client that paces itself by the quota that a limiter enforces is never refused, whatever the
  -- other keys ask: over exact arithmetic, a limiter with a new store answers every request, and
  -- lets each of those through that come under the client's key, if these come some fixed time after
  -- they proceed and in the order of their claims, from a new throttle of that quota. None is
  -- halted before, the connection meets its laws, `fastrand` stays in its bounds, and the cache
  -- drops nothing meanwhile. The window and the burst are not zero, the throttle's interval is not
  -- rounded down, and the claims are early enough that no arrival time passes the last instant of
  -- the client's platform, whose instants span at most the greatest duration. The burst is a
  -- `u64`, and the time in which it accrues, with the jitter and a second, is representable.
  pub paced_client_served :
      {Url : Type 0} (origin_scope : Url → Text) (q : Quota) (t : Throttle Url) (scope : Text)
      (lag d : Duration) (latest bound now : Instant) (nows : List Instant)
      (l : RateLimiter exact moka api) (cap : ℕ) (requests : List (Instant × Conn)) (k : Option K)
      → l.store ≡ Store.new exact moka q cap
      → new exact origin_scope q ≡ some t
      → 0 < q.window
      → 0 < q.burst
      → q.burst ≤ u64_max
      → seconds_to_refill exact (exact.of_u64 q.burst) (refill_per_second exact q) ≡ some d
      → d + l.jitter + from_secs 1 ≤ max_duration
      → q.window ≤ t.interval * q.count
      → latest ≤ max_duration
      → now ≤ bound
      → All (λ later. later ≤ bound) nows
      → bound + suc (length nows) * t.interval ≤ latest
      → All (λ request. is_halted request.1 ≡ false) requests
      → calls_of same k (metered_calls api l.extractor l.missing_key requests)
        ≡ arrivals lag (claims latest t scope (now ∷ nows)).1
      → (l' : RateLimiter exact moka api) × (answers : List Conn) × (serve exact moka api random
            encode l requests
          ≡ some (l', answers))
        × (through api l.extractor l.missing_key same k requests answers ≡ suc (length nows))
  unfolding claims
  paced_client_served origin_scope q t scope lag d latest bound now nows l cap requests k built made
        positive some_burst fits full room slots span here early last halted from_client =
      let (l', answers, e, o, ds, mine, counted) =
        served_alone exact exact-IsIeee moka keeps same api conns random draws encode q q.burst d
          fits (omega arith) some_burst full l cap requests k built room halted in
      let (b1, ds1, paced, all) =
        paced_client_admitted origin_scope q t scope lag d latest bound now nows made positive
          some_burst fits full slots span here early last in
      let (_, _, unclaimed) = new_lem origin_scope q t scope made in
      let starts = (claims latest t scope (now ∷ nows)).1 in
      let (b2, alone) = run_key-run q _ 1 _ o ds (rw from_client at mine) in
      let at_once = first_start latest t scope now span (omega arith) unclaimed in
      let both : ds1 ≡ ds = cc (paced, rw at_once at alone) in
      let number = admitted-length q (fresh exact (now + lag) q) b1 lag starts ds1 paced all in
      (
        l',
        answers,
        e,
        rw (counted, from_client, ← both) (number ∙ length-claims latest t scope (now ∷ nows)),
      )
