-- ===== src/Store/Expiry.antt =====
-- src/store.rs: what is lost when an idle bucket is dropped. A dropped bucket is replaced by a full
-- one on the next call.
use trillium_ratelimit.Common.{
  ℕ, ◌+◌, ◌-◌, ◌*◌, ◌≤◌, ◌<◌, ◌≡◌, ◌∙◌, sym, true, false, some, none, arith, leb, le→leb,
}
use native.Mathlib.Nat.{mul-le-mul_right}
use trillium_ratelimit.Time.{Instant, saturating_duration_since, max_duration}
use trillium_ratelimit.Quota.{Quota}
use trillium_ratelimit.Float.Exact.{exact}
use trillium_ratelimit.Bucket.{Bucket, Decision, fresh, try_consume}
use trillium_ratelimit.Bucket.Scaled.{Amount, filled, fresh-Amount, try_consume-Amount}
use trillium_ratelimit.Bucket.Retry.{since_within}
use trillium_ratelimit.Store.{bucket_or_fresh}

-- A window without calls fills a bucket whose burst is no more than the quota's count.
window_fills :
    (q : Quota) (n e : ℕ) → q.burst ≤ q.count → q.window ≤ e → filled q n e ≡ q.burst * q.window
window_fills q n e h k = ground (arith, mul-le-mul_right q.count k, mul-le-mul_right q.window h)

full_stays : (q : Quota) (e : ℕ) → filled q (q.burst * q.window) e ≡ q.burst * q.window
full_stays q e = ground arith

window-le-since :
    (w now t : ℕ) → w ≤ max_duration → t + w ≤ now → w ≤ saturating_duration_since now t
unfolding saturating_duration_since
window-le-since w now t h k = ground arith

module _ (q : Quota) (positive : 0 < q.window) where
  -- Dropping a bucket that has been idle for a window changes nothing where the burst is at most
  -- the count: over exact arithmetic the next call is decided as on the bucket itself, and reports
  -- the same number of tokens. The window is not zero and a duration, the level is a whole number
  -- of units, and both calls return.
  pub expiry_lossless :
      (b b' b'' : Bucket exact) (now : Instant) (n cost : ℕ) (d d' : Decision)
      → q.burst ≤ q.count
      → q.window ≤ max_duration
      → Amount q.window n b.tokens
      → b.last_update + q.window ≤ now
      → try_consume exact (bucket_or_fresh exact (some b) now q) now q cost ≡ some (b', d)
      → try_consume exact (bucket_or_fresh exact none now q) now q cost ≡ some (b'', d')
      → (d.allowed ≡ d'.allowed) × (d.remaining ≡ d'.remaining)
  unfolding bucket_or_fresh
  expiry_lossless b b' b'' now n cost d d' small fits amount idle kept dropped =
      let (_, _, admits, reports) = try_consume-Amount q positive b now n cost b' d amount kept in
      let (_, _, admits', reports') =
        try_consume-Amount q positive (fresh exact now q) now _ cost b'' d'
          (fresh-Amount q positive now) dropped in
      let full =
        window_fills q n (saturating_duration_since now b.last_update) small
          (window-le-since q.window now b.last_update fits idle) in
      let again = full_stays q (saturating_duration_since now (fresh exact now q).last_update) in
      (
        rw full at admits ∙ sym (rw again at admits'),
        rw full at reports ∙ sym (rw again at reports'),
      )

  -- Where the burst is more than the count, dropping a bucket gives tokens away. Of a bucket that
  -- has been idle for a window and whose level, with what accrued, is still below the burst, a
  -- request for the whole burst is refused; once the bucket is dropped it is admitted. The call
  -- comes one window after the last, over exact arithmetic; the window is not zero and a duration,
  -- the level is a whole number of units, and both calls return.
  pub expiry_gains :
      (b b' b'' : Bucket exact) (now : Instant) (n : ℕ) (d d' : Decision)
      → n + q.window * q.count < q.burst * q.window
      → q.window ≤ max_duration
      → Amount q.window n b.tokens
      → now ≡ b.last_update + q.window
      → try_consume exact (bucket_or_fresh exact (some b) now q) now q q.burst ≡ some (b', d)
      → try_consume exact (bucket_or_fresh exact none now q) now q q.burst ≡ some (b'', d')
      → (d.allowed ≡ false) × (d'.allowed ≡ true)
  unfolding bucket_or_fresh
  expiry_gains b b' b'' now n d d' low fits amount idle kept dropped =
      let (_, _, admits, _) = try_consume-Amount q positive b now n q.burst b' d amount kept in
      let (_, _, admits', _) =
        try_consume-Amount q positive (fresh exact now q) now _ q.burst b'' d'
          (fresh-Amount q positive now) dropped in
      let passed = since_within now b.last_update (omega arith) in
      let exactly : now - b.last_update ≡ q.window = omega arith in
      let again = full_stays q (saturating_duration_since now (fresh exact now q).last_update) in
      (rw (passed, exactly) at admits ∙ short, rw again at admits' ∙ le→leb _ _ (omega arith))
    where
      short : leb (q.burst * q.window) (filled q n q.window) ≡ false
      short = ground arith
