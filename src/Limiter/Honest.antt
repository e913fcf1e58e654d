-- ===== src/Limiter/Honest.antt =====
-- src/limiter.rs and src/store.rs: what `Retry-After` promises, over exact arithmetic.
use trillium_ratelimit.Common.{
  ℕ, ◌+◌, ◌≤◌, ◌<◌, ◌≡◌, true, false, Option, some, [], ◌∷◌, Text, arith, ap,
}
use trillium_ratelimit.Time.{Instant, Duration, from_secs, max_duration}
use trillium_ratelimit.Float.Exact.{exact}
use trillium_ratelimit.Bucket.{Bucket, Decision}
use trillium_ratelimit.Bucket.Scaled.{Amount}
use trillium_ratelimit.Bucket.Retry.{retry_admitted}
use trillium_ratelimit.Store.Moka.{Cache, IsKeeping}
use trillium_ratelimit.Store.{Store, consume, bucket_or_fresh}
use trillium_ratelimit.Store.Validity.{consume_inv}
use trillium_ratelimit.Client.RetryAfter.{decimal-injective}
use trillium_ratelimit.Headers.Decimal.{decimal}
use trillium_ratelimit.Limiter.{RateLimiter}
use trillium_ratelimit.Limiter.Trillium.{ConnApi, IsConn}
use trillium_ratelimit.Limiter.Handler.{course, metered, run, retry_after_header}
use trillium_ratelimit.Limiter.Answer.{run_refused}
use trillium_ratelimit.Limiter.Through.{run-metered}

module _ {K : Type 0} (moka : Cache K (Bucket exact)) (keeps : IsKeeping moka) where
  open moka use {find}

  found_lem :
      (o : Option (Bucket exact)) (b : Bucket exact) (now : Instant) (s : Store exact moka)
      → o ≡ some b
      → bucket_or_fresh exact o now s.quota ≡ b
  unfolding bucket_or_fresh
  found_lem o b now s e = rw e

  -- The next request of a refused key is admitted once its rounded wait and one nanosecond more have
  -- passed.
  consume_again :
      (s s' s'' : Store exact moka) (now later : Instant) (key : K) (cost n secs : ℕ) (w : Duration)
      (d d' : Decision)
      → 0 < s.quota.window
      → 0 < s.quota.count
      → cost ≤ s.quota.burst
      → Amount s.quota.window n (bucket_or_fresh exact (find s.cache key) now s.quota).tokens
      → consume exact moka s now key cost ≡ some (s', d)
      → d.retry_after ≡ some w
      → w ≤ from_secs secs
      → now + from_secs secs + 1 ≤ later
      → later ≤ now + max_duration
      → consume exact moka s' later key cost ≡ some (s'', d')
      → d'.allowed ≡ true
  consume_again s s' s'' now later key cost n secs w d d' lasts flows covered amount first asks low
        waited near second =
      let (b, e, stored) = consume_inv exact moka s s' now key cost d first in
      let (b', e', _) = consume_inv exact moka s' s'' later key cost d' second in
      let hit : find s'.cache key ≡ some b = rw stored (keeps.put_self s.cache key b) in
      let kept : s'.quota ≡ s.quota = ap (λ (x : Store exact moka). x.quota) stored in
      let next = rw (found_lem _ b later s' hit, kept) at e' in
      retry_admitted s.quota _ b b' now later n cost w d d' lasts flows covered amount e asks
        (omega arith) near next

module _ {K : Type 0} (moka : Cache (Option K) (Bucket exact)) (keeps : IsKeeping moka)
    (api : ConnApi) (conns : IsConn api) (random : ℕ → ℕ) (draws : (max : ℕ) → random max ≤ max)
    (encode : Text → Text) where
  open moka use {find}
  open api use {Conn, values, is_halted}

  -- A client that waits for as long as the `Retry-After` of its refusal says is not refused again:
  -- where the handler answers a metered request that the store refuses, and the response has
  -- `Retry-After: secs`, the handler does not halt the next request of the key that comes at least
  -- `secs` seconds and one nanosecond later. The quota's burst, count and window are not zero, the
  -- cache keeps the bucket, no other request of the key comes in between, and the bucket's level is
  -- a whole number of units. Arithmetic is exact, the handler returns for both requests, the waits
  -- with the jitter and a second stay within the greatest duration, and so does the time between
  -- the requests.
  pub retry_after-admits :
      (l l' l'' : RateLimiter exact moka api) (conn conn' answer answer' : Conn)
      (now later : Instant) (key : Option K) (n secs : ℕ) (s : Store exact moka) (w : Duration)
      (d : Decision)
      → 0 < l.store.quota.window
      → 0 < l.store.quota.count
      → 1 ≤ l.store.quota.burst
      → Amount l.store.quota.window n
          (bucket_or_fresh exact (find l.store.cache key) now l.store.quota).tokens
      → course (l.extractor conn) l.missing_key ≡ metered key
      → consume exact moka l.store now key 1 ≡ some (s, d)
      → d.allowed ≡ false
      → d.retry_after ≡ some w
      → w + l.jitter + from_secs 1 ≤ max_duration
      → d.time_to_full + l.jitter + from_secs 1 ≤ max_duration
      → run exact moka api random encode l conn now ≡ some (l', answer)
      → values answer retry_after_header ≡ decimal secs ∷ []
      → course (l.extractor conn') l.missing_key ≡ metered key
      → now + from_secs secs + 1 ≤ later
      → later ≤ now + max_duration
      → run exact moka api random encode l' conn' later ≡ some (l'', answer')
      → is_halted answer' ≡ is_halted conn'
  retry_after-admits l l' l'' conn conn' answer answer' now later key n secs s w d lasts flows
        covered amount on taken no' asks room full ran header on' waited near again =
      let (given, m, e, _, _, told, low, high) =
        run_refused exact moka api conns random encode draws l conn now key s d w on taken no' asks
          room full in
      let same : decimal m ≡ decimal secs = cc (e, ran, told, header) in
      let equal : m ≡ secs = decimal-injective m secs (omega arith) (omega arith) same in
      let next : l' ≡ record l { store = s } = cc (e, ran) in
      let again' = rw next at again in
      let (s', d', taken', _, halted) =
        run-metered exact moka api random encode conns (record l { store = s }) l'' conn' answer'
          later key on' again' in
      let yes' =
        consume_again moka keeps l.store s s' now later key 1 n secs w d d' lasts flows covered
          amount taken asks (rw equal at low) waited near taken' in
      rw yes' at halted
