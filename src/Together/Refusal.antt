-- ===== src/Together/Refusal.antt =====
-- src/limiter.rs and src/client.rs: what a client does when the limiter refuses its request.
use trillium_ratelimit.Common.{
  ℕ, ◌+◌, ◌*◌, ◌≤◌, ◌≡◌, ◌∙◌, refl, sym, subst, true, false, Option, none, some, List, [], ◌∷◌,
  Text, All, get_elem?, length, arith,
}
use trillium_ratelimit.Time.{Instant, Duration, from_secs, max_duration}
use trillium_ratelimit.Float.{F64}
use trillium_ratelimit.Bucket.{Bucket, Decision}
use trillium_ratelimit.Store.Moka.{Cache}
use trillium_ratelimit.Store.{Store, consume}
use trillium_ratelimit.Headers.Outcome.{Result, ok, err, panic, out_of_fuel, or_panic}
use trillium_ratelimit.Headers.Parser.{SfParser}
use trillium_ratelimit.Headers.Decimal.{decimal}
use trillium_ratelimit.Headers.Fields.{HeaderMap, limits_from_headers}
use trillium_ratelimit.Headers.Limit.{RateLimit}
use trillium_ratelimit.Limiter.{RateLimiter}
use trillium_ratelimit.Limiter.Trillium.{ConnApi, IsConn}
use trillium_ratelimit.Limiter.Handler.{course, metered, run}
use trillium_ratelimit.Limiter.Answer.{run_refused}
use trillium_ratelimit.Client.Throttle.{Throttle, or_insert, back_off}
use trillium_ratelimit.Client.Signals.{
  retry_after, retry_after_header, longest, or_empty, longest_reset, server_backoff,
}
use trillium_ratelimit.Client.Handler.{honor, after_response}
use trillium_ratelimit.Client.Pacing.{claims}
use trillium_ratelimit.Client.Backoff.{Covers, covers, max_left, backed_off_starts}
use trillium_ratelimit.Client.Responses.{after_response-honor}
use trillium_ratelimit.Client.RetryAfter.{retry_after-decimal}

longest-Covers :
    (d : Duration) (limits : Result (List RateLimit)) (wait : Option Duration)
    → longest (some d) (or_empty limits) ≡ ok wait
    → Covers d wait
longest-Covers d (ok limits) wait h = subst (Covers d) (cc h) (max_left d (longest_reset limits))
longest-Covers d err wait h = subst (Covers d) (cc h) (max_left d (longest_reset []))
longest-Covers d panic wait h = cc
longest-Covers d out_of_fuel wait h = cc

covered : {d b : Duration} → Covers d (some b) → d ≤ b
covered (covers h) = h

or_panic-eq-ok : {A : Type 0} (o : Option A) (a : A) → or_panic o ≡ ok a → o ≡ some a
or_panic-eq-ok none a h = cc
or_panic-eq-ok (some b) a h = cc h

module _ {Url : Type 0} (latest : Instant) where
  -- A client that was told to wait has backed off.
  honor-Covers :
      (t t' : Throttle Url) (url : Url) (now : Instant) (d : Duration)
      (signal : Result (Option Duration))
      → ((wait : Option Duration) → signal ≡ ok wait → Covers d wait)
      → honor latest t url now signal ≡ ok t'
      → (b : Duration) × (d ≤ b) × (back_off latest t (t.scope url) b now ≡ some t')
  honor-Covers t t' url now d (ok none) c h = elim (c none refl) [ ]
  honor-Covers t t' url now d (ok (some b)) c h =
      (b, covered (c (some b) refl), or_panic-eq-ok _ _ h)
  honor-Covers t t' url now d err c h = cc
  honor-Covers t t' url now d panic c h = cc
  honor-Covers t t' url now d out_of_fuel c h = cc

-- What the client reads of a single `Retry-After` is what the server wrote.
abbrev pub Delivers : (api : ConnApi) (map : HeaderMap) → api.Conn → map.Headers → Type 0
Delivers api map answer headers =
    (value : Text)
    → api.values answer retry_after_header ≡ value ∷ []
    → map.get_str headers retry_after_header ≡ some value

module _ (f : F64) {K : Type 0} (moka : Cache (Option K) (Bucket f)) (api : ConnApi)
    (conns : IsConn api) (random : ℕ → ℕ) (encode : Text → Text)
    (draws : (max : ℕ) → random max ≤ max) (map : HeaderMap) where
  open api use {Conn}

  -- The response of a refusal, read back.
  after_refusal :
      (l l' : RateLimiter f moka api) (conn answer : Conn) (now : Instant) (key : Option K)
      (s : Store f moka) (d : Decision) (w : Duration) (headers : map.Headers)
      → course (l.extractor conn) l.missing_key ≡ metered key
      → consume f moka l.store now key 1 ≡ some (s, d)
      → d.allowed ≡ false
      → d.retry_after ≡ some w
      → w + l.jitter + from_secs 1 ≤ max_duration
      → d.time_to_full + l.jitter + from_secs 1 ≤ max_duration
      → run f moka api random encode l conn now ≡ some (l', answer)
      → Delivers api map answer headers
      → (secs : ℕ) × (retry_after (map.get_str headers retry_after_header) ≡ some (from_secs secs))
        × (w ≤ from_secs secs)
  after_refusal l l' conn answer now key s d w headers on taken no' asks room full ran delivers =
      let (given, secs, e, _, _, header, low, high) =
        run_refused f moka api conns random encode draws l conn now key s d w on taken no' asks room
          full in
      let same : given ≡ answer = cc (e, ran) in
      let told = delivers (decimal secs) (rw same at header) in
      (secs, rw told (retry_after-decimal secs (omega (arith, high))), low)

  module _ (sf : SfParser) {Url : Type 0} (latest : Instant) where
    -- A client whose metered request the limiter refuses, and that reads the response, keeps away
    -- for as long as the store says, whatever burst it has left: none of its later requests of that
    -- scope proceeds before the wait is over. A single `Retry-After` is delivered as it was
    -- written, the connection meets its laws, and `fastrand` stays in its bounds. The throttle
    -- honors signals and handles the response without a panic, its claims are early enough that no
    -- arrival time passes the last instant of the platform, whose instants span at most the
    -- greatest duration, and the server's times stay a jitter and a second below that.
    pub refused_client_waits :
        (l l' : RateLimiter f moka api) (conn answer : Conn) (now : Instant) (key : Option K)
        (s : Store f moka) (d : Decision) (w : Duration) (headers : map.Headers)
        (t t' : Throttle Url) (url : Url) (read bound : Instant) (nows : List Instant) (n : ℕ)
        (start : Instant)
        → course (l.extractor conn) l.missing_key ≡ metered key
        → consume f moka l.store now key 1 ≡ some (s, d)
        → d.allowed ≡ false
        → d.retry_after ≡ some w
        → w + l.jitter + from_secs 1 ≤ max_duration
        → d.time_to_full + l.jitter + from_secs 1 ≤ max_duration
        → run f moka api random encode l conn now ≡ some (l', answer)
        → Delivers api map answer headers
        → t.honor_server_signals ≡ true
        → after_response latest map sf t url headers read ≡ ok t'
        → latest ≤ max_duration
        → or_insert (t'.state (t.scope url)) 0 ≤ bound
        → All (λ later. later ≤ bound) nows
        → bound + length nows * t.interval ≤ latest
        → get_elem? (claims latest t' (t.scope url) nows).1 n ≡ some start
        → read + w ≤ start
    unfolding server_backoff
    refused_client_waits l l' conn answer now key s d w headers t t' url read bound nows n start on
          taken no' asks room full ran delivers honors handled span low rest space claimed =
        let (secs, told, long) =
          after_refusal l l' conn answer now key s d w headers on taken no' asks room full ran
            delivers in
        let heard : honor latest t url read (server_backoff map sf headers) ≡ ok t' =
          sym (after_response-honor latest map sf t url headers read honors) ∙ handled in
        let (b, b-le, backed) =
          honor-Covers latest t t' url read (from_secs secs) (server_backoff map sf headers)
            (λ wait e.
              longest-Covers (from_secs secs) (limits_from_headers map sf headers) wait
                (rw told at e))
            heard in
        let begins =
          backed_off_starts latest t t' (t.scope url) b read bound nows n start span backed low rest
            space claimed in
        omega (arith, begins, long, b-le)
