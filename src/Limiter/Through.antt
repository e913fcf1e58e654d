-- ===== src/Limiter/Through.antt =====
-- src/limiter.rs: the requests that go through, by the calls that they make of the store.
use mathlib.Core.Logic.{if_pos, if_neg}
use trillium_ratelimit.Common.{
  ℕ, ◌≡◌, ◌∙◌, refl, sym, ap, inl, inr, Bool, true, false, Option, some, Option-cases, List, [],
  ◌∷◌, Text, All, arith, if◌then◌else◌,
}
use trillium_ratelimit.Time.{Instant, Duration, add_duration}
use trillium_ratelimit.Float.{F64}
use trillium_ratelimit.Bucket.{Bucket, Decision}
use trillium_ratelimit.Bucket.Rate.{admitted}
use trillium_ratelimit.Store.Moka.{Cache}
use trillium_ratelimit.Store.{Store, consume}
use trillium_ratelimit.Store.Partitions.{calls_of, decisions_of, run_store}
use trillium_ratelimit.Limiter.{RateLimiter, random_jitter}
use trillium_ratelimit.Limiter.Trillium.{ConnApi, IsConn}
use trillium_ratelimit.Limiter.Handler.{
  Course, course, passed, rejected, metered, wire_key, annotated, respond, refused, run, or_zero,
}
use trillium_ratelimit.Limiter.Seconds.{secs_ceil}
use mathlib.Core.Option.{some-injective}
use trillium_ratelimit.Limiter.Answer.{annotated_lem}
use trillium_ratelimit.Limiter.Serve.{metered_calls, through, serve, serve-cons}

count_lem :
    (b h a : Bool)
    → h ≡ false
    → a ≡ (if b then h else true)
    → ◌≡◌ {A = ℕ} (if a then 0 else 1) (if b then 1 else 0)
count_lem true h a e k = rw (k, e)
count_lem false h a e k = rw k

module _ (f : F64) {K : Type 0} (moka : Cache (Option K) (Bucket f)) (api : ConnApi)
    (random : ℕ → ℕ) (encode : Text → Text) where
  open api use {Conn, is_halted}

  module _ (conns : IsConn api) where
    refused_halts :
        (l : RateLimiter f moka api) (conn answer : Conn) (d : Decision) (j : Duration)
        → refused f moka api l conn d j ≡ some answer
        → is_halted answer ≡ true
    unfolding refused
    refused_halts l conn answer d j h =
        elim (Option-cases (add_duration (or_zero d.retry_after) j)) [
          | inl e ↦ cc (rw e at h)
          | inr (wait, e) ↦ elim (Option-cases (secs_ceil wait)) [
            | inl e' ↦ cc (rw (e, e') at h)
            | inr (secs, e') ↦
                let h' = rw (e, e') at h in
                let whole = some-injective _ _ h' in rw (← whole) (conns.is_halted-halt _)
          ]
        ]

    either_halts :
        (b : Bool) (noted answer conn : Conn) (o : Option Conn)
        → is_halted noted ≡ is_halted conn
        → (o ≡ some answer → is_halted answer ≡ true)
        → (if b then some noted else o) ≡ some answer
        → is_halted answer ≡ (if b then is_halted conn else true)
    either_halts true noted answer conn o e k h = ap is_halted (sym (some-injective _ _ h)) ∙ e
    either_halts false noted answer conn o e k h = k h

    respond_halts :
        (l : RateLimiter f moka api) (conn answer : Conn) (pk : Option Text) (d : Decision)
        (j : Duration)
        → respond f moka api l conn pk d j ≡ some answer
        → is_halted answer ≡ (if d.allowed then is_halted conn else true)
    unfolding respond
    respond_halts l conn answer pk d j h = elim (Option-cases (add_duration d.time_to_full j)) [
      | inl e ↦ cc (rw e at h)
      | inr (until_full, e) ↦ elim (Option-cases (secs_ceil until_full)) [
        | inl e' ↦ cc (rw (e, e') at h)
        | inr (secs, e') ↦
            let (halted, _, _, _) = annotated_lem f moka api conns random encode l conn pk d secs in
            let noted = annotated f moka api l conn pk d secs in
            either_halts d.allowed noted answer conn (refused f moka api l noted d j) halted
              (refused_halts l noted answer d j) (rw (e, e') at h)
      ]
    ]

    -- What a run over a metered request did.
    pub run-metered :
        (l l' : RateLimiter f moka api) (conn answer : Conn) (now : Instant) (key : Option K)
        → course (l.extractor conn) l.missing_key ≡ metered key
        → run f moka api random encode l conn now ≡ some (l', answer)
        → (s : Store f moka) × (d : Decision) × (consume f moka l.store now key 1 ≡ some (s, d))
          × (l' ≡ record l { store = s })
          × (is_halted answer ≡ (if d.allowed then is_halted conn else true))
    unfolding run
    run-metered l l' conn answer now key on h =
        elim (Option-cases (consume f moka l.store now key 1)) [
          | inl e ↦ cc (rw (run, on, e) at h)
          | inr ((s, d), e) ↦
              let j = random_jitter f moka api random l in
              elim (Option-cases
                (respond f moka api l conn (wire_key encode l.partition_key key) d j)) [
                  | inl e' ↦ cc (rw (run, on, e, e') at h)
                  | inr (given, e') ↦
                      let h' = rw (run, on, e, e') at h in
                      let same : given ≡ answer = cc h' in
                      (s, d, e, cc h', rw (← same) (respond_halts l conn given _ d j e'))
                ]
        ]

    -- What went through under a key is what the store admitted of it.
    pub serve-run_store :
        (same : Discrete (Option K)) (l l' : RateLimiter f moka api)
        (requests : List (Instant × Conn)) (answers : List Conn) (k : Option K)
        → All (λ request. is_halted request.1 ≡ false) requests
        → serve f moka api random encode l requests ≡ some (l', answers)
        → let calls = metered_calls api l.extractor l.missing_key requests in
          (s : Store f moka) × (ds : List Decision) × (run_store f moka l.store calls
            ≡ some (s, ds))
          × (through api l.extractor l.missing_key same k requests answers
              ≡ admitted (calls_of same k calls) (decisions_of same k calls ds))
    unfolding metered_calls through run_store calls_of decisions_of run
    serve-run_store same l l' [] answers k fresh h = (l.store, [], refl, refl)
    serve-run_store same l l' ((now, conn) ∷ requests) answers k (new, fresh) h =
        let (next, answer, rest, first, others, all) =
          serve-cons f moka api random encode l l' now conn requests answers h in
        by_course next answer rest (course (l.extractor conn) l.missing_key) refl first all (λ s1 e.
          serve-run_store same (record l { store = s1 }) l' requests rest k fresh (rw e at others))
      where
        Served : RateLimiter f moka api → List (Instant × Conn) → List Conn → Type 0
        Served t rs given =
            let calls = metered_calls api l.extractor l.missing_key rs in
            (s : Store f moka) × (ds : List Decision) × (run_store f moka t.store calls
              ≡ some (s, ds))
            × (through api l.extractor l.missing_key same k rs given
                ≡ admitted (calls_of same k calls) (decisions_of same k calls ds))

        by_course :
            (next : RateLimiter f moka api) (answer : Conn) (rest : List Conn) (c : Course K)
            → course (l.extractor conn) l.missing_key ≡ c
            → run f moka api random encode l conn now ≡ some (next, answer)
            → answers ≡ answer ∷ rest
            → ((s1 : Store f moka)
                → next ≡ record l { store = s1 }
                → Served (record l { store = s1 }) requests rest)
            → Served l ((now, conn) ∷ requests) answers
        by_course next answer rest passed on first all ih =
            let same_limiter : next ≡ l = cc (rw (run, on) at first) in
            let (s, ds, e, counted) = ih l.store same_limiter in
            (s, ds, rw on e, rw (all, on) (omega (arith, counted)))
        by_course next answer rest rejected on first all ih =
            let same_limiter : next ≡ l = cc (rw (run, on) at first) in
            let (s, ds, e, counted) = ih l.store same_limiter in
            (s, ds, rw on e, rw (all, on) (omega (arith, counted)))
        by_course next answer rest (metered key) on first all ih =
            let (s1, d, taken, after, halts) = run-metered l next conn answer now key on first in
            let (s, ds, e, counted) = ih s1 after in
            (
              s,
              d ∷ ds,
              rw (on, taken, e),
              rw (all, on)
                  (elim (same key k) [
                    | yes p ↦
                        rw (if_pos _ p, if_pos _ p, if_pos _ p)
                          (omega (
                            arith,
                            counted,
                            count_lem d.allowed (is_halted conn) (is_halted answer) new halts,
                          ))
                    | no p ↦ rw (if_neg _ p, if_neg _ p, if_neg _ p) (omega (arith, counted))
                  ]),
            )
