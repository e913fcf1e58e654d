-- ===== src/Limiter/Built.antt =====
-- src/limiter.rs: the limiters that the constructor, the builders and the requests make.
use trillium_ratelimit.Common.{ℕ, ◌≤◌, ◌≡◌, refl, subst, sym, Option, some, Text, u64_max}
use trillium_ratelimit.Time.{Instant, Duration}
use trillium_ratelimit.Quota.{Quota}
use trillium_ratelimit.Float.{F64, IsIeee}
use trillium_ratelimit.Bucket.{Bucket}
use trillium_ratelimit.Store.Moka.{Cache, Loses, IsLossy}
use trillium_ratelimit.Store
use trillium_ratelimit.Store.{Store, consume}
use trillium_ratelimit.Store.Validity.{Inv, new-Inv, call-Inv, lost-IsValid}
use trillium_ratelimit.Limiter
use trillium_ratelimit.Limiter.{
  RateLimiter, MissingKey, with_policy_name, with_missing_key, with_status, with_capacity,
  with_jitter, with_partition_key,
}
use trillium_ratelimit.Limiter.Trillium.{ConnApi, IsConn}
use trillium_ratelimit.Limiter.Handler.{Course, course, passed, rejected, metered, run}
use trillium_ratelimit.Limiter.Through.{run-metered}

module _ (f : F64) {K : Type 0} (moka : Cache (Option K) (Bucket f)) (api : ConnApi)
    (random : ℕ → ℕ) (encode : Text → Text) where
  open api use {Conn, Status}

  -- A step of a limiter: a builder, a request, or a loss of entries of its cache.
  pub data Step : RateLimiter f moka api → RateLimiter f moka api → Type 0 where
    policy_named :
        {l : RateLimiter f moka api} (name : Text) → Step l (with_policy_name f moka api l name)
    missing_key_set :
        {l : RateLimiter f moka api} (missing_key : MissingKey)
        → Step l (with_missing_key f moka api l missing_key)
    status_set :
        {l : RateLimiter f moka api} (status : Status) → Step l (with_status f moka api l status)
    capacity_set :
        {l : RateLimiter f moka api} (max_partitions : ℕ)
        → Step l (with_capacity f moka api l max_partitions)
    jitter_set :
        {l : RateLimiter f moka api} (jitter : Duration) → Step l (with_jitter f moka api l jitter)
    partition_key_set :
        {l : RateLimiter f moka api} (render : K → Text)
        → Step l (with_partition_key f moka api l render)
    request :
        {l l' : RateLimiter f moka api} {answer : Conn} (conn : Conn) (now : Instant)
        → run f moka api random encode l conn now ≡ some (l', answer)
        → Step l l'
    lose :
        {l : RateLimiter f moka api} {c : moka.State}
        → Loses moka l.store.cache c
        → Step l (record l { store = record l.store { cache = c } })

  -- The limiters that come of `RateLimiter::new`.
  pub data Built (quota : Quota) : RateLimiter f moka api → Type 0 where
    new : (extractor : Conn → Option K) → Built quota (Limiter.new f moka api quota extractor)
    next : {l l' : RateLimiter f moka api} → Built quota l → Step l l' → Built quota l'

  module _ (ieee : IsIeee f) (lossy : IsLossy moka) (conns : IsConn api)
      (same : Discrete (Option K)) (q : Quota) (fits : q.burst ≤ u64_max) where
    -- What holds of a limiter: it announces the quota that its store enforces, and its store is in
    -- range.
    pub record Serving (l : RateLimiter f moka api) : Type 0 where
      pub announced : l.quota ≡ q
      pub enforced : Inv f moka ieee lossy same q l.store

    run-Serving :
        (l l' : RateLimiter f moka api) (conn answer : Conn) (now : Instant) (c : Course K)
        → course (l.extractor conn) l.missing_key ≡ c
        → run f moka api random encode l conn now ≡ some (l', answer)
        → Serving l
        → Serving l'
    unfolding run
    run-Serving l l' conn answer now passed on h v = subst Serving (cc (rw (run, on) at h)) v
    run-Serving l l' conn answer now rejected on h v = subst Serving (cc (rw (run, on) at h)) v
    run-Serving l l' conn answer now (metered key) on h v =
        let (s, d, taken, after, _) =
          run-metered f moka api random encode conns l l' conn answer now key on h in
        subst Serving (sym after) (record {
          announced = v.announced;
          enforced = call-Inv f moka ieee lossy same q l.store s now key 1 d fits taken v.enforced;
        })

    Step-Serving : {l l' : RateLimiter f moka api} → Step l l' → Serving l → Serving l'
    unfolding with_policy_name with_missing_key with_status with_capacity with_jitter
        with_partition_key
    Step-Serving (policy_named name) v = record { announced = v.announced; enforced = v.enforced }
    Step-Serving (missing_key_set missing_key) v = record {
      announced = v.announced;
      enforced = v.enforced;
    }
    Step-Serving (status_set status) v = record { announced = v.announced; enforced = v.enforced }
    Step-Serving {l} (capacity_set max_partitions) v = record {
      announced = v.announced;
      enforced =
          subst (λ p. Inv f moka ieee lossy same q (Store.new f moka p max_partitions))
            (sym v.announced) (new-Inv f moka ieee lossy same q max_partitions);
    }
    Step-Serving (jitter_set jitter) v = record { announced = v.announced; enforced = v.enforced }
    Step-Serving (partition_key_set render) v = record {
      announced = v.announced;
      enforced = v.enforced;
    }
    Step-Serving {l} {l'} (request conn now h) v =
        run-Serving l l' conn _ now (course (l.extractor conn) l.missing_key) refl h v
    Step-Serving {l} (lose {c = c} loses) v = record {
      announced = v.announced;
      enforced = record {
        same_quota = v.enforced.same_quota;
        valid = lost-IsValid f moka ieee lossy same l.store c loses v.enforced.valid;
      };
    }

    -- After any sequence of builders, requests at any times, and losses of entries of the cache, in
    -- any order, a limiter announces the quota it was made with, its store enforces that same quota,
    -- and every bucket of the store is in range: setting the capacity, which builds another store,
    -- too. The burst is a `u64`, and the cache, the connection and `f64` are any that meet their laws.
    pub Built-Serving : (l : RateLimiter f moka api) → Built q l → Serving l
    unfolding Limiter.new
    Built-Serving l (new extractor) = record {
      announced = refl;
      enforced = new-Inv f moka ieee lossy same q Limiter.default_max_partitions;
    }
    Built-Serving l (next before step) = Step-Serving step (Built-Serving _ before)
