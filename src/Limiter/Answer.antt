-- ===== src/Limiter/Answer.antt =====
-- src/limiter.rs: the responses of `Handler::run` to metered requests.
use trillium_ratelimit.Common.{
  ℕ, ◌+◌, ◌≤◌, ◌<◌, ◌≡◌, ◌≢◌, refl, ap, ◌∙◌, Bool, true, false, Option, some, [], ◌∷◌, ◌++◌, Text,
  text_eq, text_eq_refl, min, u64_max, arith, if◌then◌else◌, le→leb,
}
use trillium_ratelimit.Time.{Instant, Duration, add_duration, from_secs, max_duration}
use trillium_ratelimit.Float.{F64}
use trillium_ratelimit.Bucket.{Bucket, Decision}
use trillium_ratelimit.Store.Moka.{Cache}
use trillium_ratelimit.Store.{Store, consume}
use trillium_ratelimit.Headers.Decimal.{decimal}
use trillium_ratelimit.Headers.Limit
use trillium_ratelimit.Headers.Limit.{RateLimit, rate_limit_header}
use trillium_ratelimit.Headers.Policy
use trillium_ratelimit.Headers.Policy.{RateLimitPolicy, policy_header}
use trillium_ratelimit.Limiter.{RateLimiter, random_jitter}
use trillium_ratelimit.Limiter.Trillium.{ConnApi, IsConn}
use trillium_ratelimit.Limiter.Seconds.{secs_ceil, secs_ceil-bounds}
use trillium_ratelimit.Limiter.Announced.{
  announced_policy, announced_limit, policy_item_announced, limit_item_announced,
}
use trillium_ratelimit.Limiter.Handler.{
  course, metered, wire_key, annotated, respond, refused, run, retry_after_header, policy_item,
  limit_item,
}

text_neq : (a b : Text) → text_eq a b ≡ false → a ≢ b
text_neq a b e h = let e' = rw (← h) at e in cc (e', text_eq_refl a)

refusal_lem :
    {A : Type 0} {b : Bool} (x : Option A) {y z : Option A}
    → b ≡ false
    → y ≡ z
    → (if b then x else y) ≡ z
refusal_lem x h e = rw h e

pub sum_lem :
    (a b : Duration)
    → a + b + from_secs 1 ≤ max_duration
    → (n : ℕ) × (add_duration a b ≡ some (a + b))
      × (secs_ceil (a + b) ≡ some n)
      × (a ≤ from_secs n)
      × (from_secs n < a + b + from_secs 1)
sum_lem a b h =
    let (n, e, low, high) = secs_ceil-bounds (a + b) h in
    let fits = le→leb (a + b) max_duration (omega arith) in
    (n, rw fits refl, e, omega (arith, low), high)

module _ (f : F64) {K : Type 0} (moka : Cache (Option K) (Bucket f)) (api : ConnApi)
    (conns : IsConn api) (random : ℕ → ℕ) (encode : Text → Text) where
  open api use {Conn, append, insert, with_status, halt, values, status, is_halted}

  pub random_jitter-le :
      (l : RateLimiter f moka api)
      → ((max : ℕ) → random max ≤ max)
      → random_jitter f moka api random l ≤ l.jitter
  unfolding random_jitter
  random_jitter-le l draws = ground (arith, draws (min l.jitter u64_max))

  pub annotated_lem :
      (l : RateLimiter f moka api) (conn : Conn) (pk : Option Text) (d : Decision) (n : ℕ)
      → (is_halted (annotated f moka api l conn pk d n) ≡ is_halted conn)
        × (values (annotated f moka api l conn pk d n) policy_header
            ≡ values conn policy_header ++ (Policy.display (policy_item f moka api l pk) ∷ []))
        × (values (annotated f moka api l conn pk d n) rate_limit_header
            ≡ values conn rate_limit_header
              ++ (Limit.display (limit_item f moka api l pk d n) ∷ []))
        × (values (annotated f moka api l conn pk d n) retry_after_header
            ≡ values conn retry_after_header)
  unfolding annotated
  annotated_lem l conn pk d n =
      let u = Policy.display (policy_item f moka api l pk) in
      let v = Limit.display (limit_item f moka api l pk d n) in
      let c = append conn policy_header u in
      (
        conns.is_halted-append c rate_limit_header v ∙ conns.is_halted-append conn policy_header u,
        conns.append_other c rate_limit_header v policy_header (text_neq _ _ refl)
            ∙ conns.append_same conn policy_header u,
        conns.append_same c rate_limit_header v
            ∙ ap (λ vs. vs ++ (v ∷ []))
                (conns.append_other conn policy_header u rate_limit_header (text_neq _ _ refl)),
        conns.append_other c rate_limit_header v retry_after_header (text_neq _ _ refl)
            ∙ conns.append_other conn policy_header u retry_after_header (text_neq _ _ refl),
      )

  refused_lem :
      (l : RateLimiter f moka api) (answer : Conn) (d : Decision) (w jitter : Duration)
      → d.retry_after ≡ some w
      → w + jitter + from_secs 1 ≤ max_duration
      → (c : Conn) × (n : ℕ) × (refused f moka api l answer d jitter ≡ some c)
        × (is_halted c ≡ true)
        × (status c ≡ some l.status)
        × (values c retry_after_header ≡ decimal n ∷ [])
        × (w ≤ from_secs n)
        × (from_secs n < w + jitter + from_secs 1)
  unfolding refused
  refused_lem l answer d w jitter e room =
      let (n, sum, told, low, high) = sum_lem w jitter room in
      let inserted = insert answer retry_after_header (decimal n) in
      (
        halt (with_status inserted l.status),
        n,
        rw (e, sum, told),
        conns.is_halted-halt _,
        conns.status-halt _ ∙ conns.status-with_status inserted l.status,
        conns.values-halt _ _
            ∙ conns.values-with_status inserted _ _
            ∙ conns.insert_same answer _ _,
        low,
        high,
      )

  module _ (draws : (max : ℕ) → random max ≤ max) (l : RateLimiter f moka api) (conn : Conn)
      (now : Instant) (key : Option K) (s : Store f moka) (d : Decision) where
    run_lem :
        (answer : Conn)
        → course (l.extractor conn) l.missing_key ≡ metered key
        → consume f moka l.store now key 1 ≡ some (s, d)
        → respond f moka api l conn
            (wire_key encode l.partition_key key)
            d
            (random_jitter f moka api random l)
          ≡ some answer
        → run f moka api random encode l conn now ≡ some (record l { store = s }, answer)
    unfolding run
    run_lem answer on taken e = rw (run, on, taken, e)

    -- A request that the store refuses is answered, and with a halt, the configured status and a
    -- single `Retry-After` of whole seconds, which are at least the wait that the store reports and
    -- less than a second more than that wait and the jitter; the limiter keeps the store's new
    -- state. The times stay a jitter and a second below the greatest duration.
    pub run_refused :
        (w : Duration)
        → course (l.extractor conn) l.missing_key ≡ metered key
        → consume f moka l.store now key 1 ≡ some (s, d)
        → d.allowed ≡ false
        → d.retry_after ≡ some w
        → w + l.jitter + from_secs 1 ≤ max_duration
        → d.time_to_full + l.jitter + from_secs 1 ≤ max_duration
        → (answer : Conn) × (n : ℕ) × (run f moka api random encode l conn now
            ≡ some (record l { store = s }, answer))
          × (is_halted answer ≡ true)
          × (status answer ≡ some l.status)
          × (values answer retry_after_header ≡ decimal n ∷ [])
          × (w ≤ from_secs n)
          × (from_secs n < w + l.jitter + from_secs 1)
    unfolding respond
    run_refused w on taken no' asks room full =
        let j = random_jitter f moka api random l in
        let small = random_jitter-le l draws in
        let (m, sum, told, _, _) = sum_lem d.time_to_full j (omega arith) in
        let pk = wire_key encode l.partition_key key in
        let (answer, n, e, halted, state, header, low, high) =
          refused_lem l (annotated f moka api l conn pk d m) d w j asks (omega arith) in
        (
          answer,
          n,
          run_lem answer on taken (rw (respond, sum, told) (refusal_lem _ no' e)),
          halted,
          state,
          header,
          low,
          omega arith,
        )

    -- A request that the store admits is answered and passes on, its `Retry-After` as it was, with
    -- one item appended to each of the two fields: a policy with the configured name, count and
    -- window, and a service limit with that name, the tokens that the store says are left, and a
    -- reset in whole seconds, which is at least the time to full and less than a second more than it
    -- and the jitter. Both have the encoded partition key if a renderer is set and the request has a
    -- key, and none otherwise. The limiter keeps the store's new state. The time stays a jitter and
    -- a second below the greatest duration.
    pub run_admitted :
        course (l.extractor conn) l.missing_key ≡ metered key
        → consume f moka l.store now key 1 ≡ some (s, d)
        → d.allowed ≡ true
        → d.time_to_full + l.jitter + from_secs 1 ≤ max_duration
        → (answer : Conn) × (n : ℕ) × (run f moka api random encode l conn now
            ≡ some (record l { store = s }, answer))
          × (is_halted answer ≡ is_halted conn)
          × (values answer policy_header
              ≡ values conn policy_header
                ++ (Policy.display (announced_policy f moka api encode l key) ∷ []))
          × (values answer rate_limit_header
              ≡ values conn rate_limit_header
                ++ (Limit.display (announced_limit f moka api encode l key d n) ∷ []))
          × (values answer retry_after_header ≡ values conn retry_after_header)
          × (d.time_to_full ≤ from_secs n)
          × (from_secs n < d.time_to_full + l.jitter + from_secs 1)
    unfolding respond
    run_admitted on taken yes' full =
        let j = random_jitter f moka api random l in
        let small = random_jitter-le l draws in
        let (n, sum, told, low, high) = sum_lem d.time_to_full j (omega arith) in
        let pk = wire_key encode l.partition_key key in
        let (halted, policies, limits, retry) = annotated_lem l conn pk d n in
        (
          annotated f moka api l conn pk d n,
          n,
          run_lem _ on taken (rw (respond, sum, told, yes')),
          halted,
          policies
              ∙ ap (λ p. values conn policy_header ++ (Policy.display p ∷ []))
                  (policy_item_announced f moka api encode l key),
          limits
              ∙ ap (λ r. values conn rate_limit_header ++ (Limit.display r ∷ []))
                  (limit_item_announced f moka api encode l key d n),
          retry,
          low,
          omega arith,
        )
