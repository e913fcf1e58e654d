-- ===== src/Limiter/Announced.antt =====
-- src/limiter.rs: the two items that a response announces.
use trillium_ratelimit.Common.{ℕ, ◌≡◌, refl, Option, none, some, ◌>>=◌, Text}
use trillium_ratelimit.Time.{from_secs}
use trillium_ratelimit.Float.{F64}
use trillium_ratelimit.Bucket.{Bucket, Decision}
use trillium_ratelimit.Store.Moka.{Cache}
use trillium_ratelimit.Headers.Limit
use trillium_ratelimit.Headers.Limit.{RateLimit, rate_limit_header}
use trillium_ratelimit.Headers.Policy
use trillium_ratelimit.Headers.Policy.{RateLimitPolicy, policy_header}
use trillium_ratelimit.Quota.{requests}
use trillium_ratelimit.Limiter.{RateLimiter}
use trillium_ratelimit.Limiter.Trillium.{ConnApi}
use trillium_ratelimit.Limiter.Handler.{wire_key, policy_item, limit_item}

-- The partition key on the wire, where there are a renderer and a key.
abbrev pub announced_key : {K : Type 0} → (Text → Text) → Option (K → Text) → Option K → Option Text
announced_key encode render key = do render ← render; key ← key; some (encode (render key))

wire_key_lem :
    {K : Type 0} (encode : Text → Text) (render : Option (K → Text)) (key : Option K)
    → wire_key encode render key ≡ announced_key encode render key
unfolding wire_key
wire_key_lem encode none key = refl
wire_key_lem encode (some render) none = refl
wire_key_lem encode (some render) (some key) = refl

module _ (f : F64) {K : Type 0} (moka : Cache (Option K) (Bucket f)) (api : ConnApi)
    (encode : Text → Text) where
  -- The items that a response announces: the quota as it is configured, and what is left of it with
  -- a reset of `n` seconds.
  abbrev pub announced_policy : RateLimiter f moka api → Option K → RateLimitPolicy
  announced_policy l key = record {
    name = l.policy_name;
    quota = l.quota.count;
    unit = requests;
    window = some l.quota.window;
    partition_key = announced_key encode l.partition_key key;
  }

  abbrev pub announced_limit : RateLimiter f moka api → Option K → Decision → ℕ → RateLimit
  announced_limit l key d n = record {
    name = l.policy_name;
    remaining = d.remaining;
    reset = some (from_secs n);
    partition_key = announced_key encode l.partition_key key;
  }

  policy_item_lem :
      (l : RateLimiter f moka api) (pk : Option Text)
      → policy_item f moka api l pk ≡ record {
        name = l.policy_name;
        quota = l.quota.count;
        unit = requests;
        window = some l.quota.window;
        partition_key = pk;
      }
  unfolding policy_item Policy.policy Policy.with_window Policy.with_partition_key
  policy_item_lem l none = refl
  policy_item_lem l (some pk) = refl

  limit_item_lem :
      (l : RateLimiter f moka api) (pk : Option Text) (d : Decision) (n : ℕ)
      → limit_item f moka api l pk d n ≡ record {
        name = l.policy_name;
        remaining = d.remaining;
        reset = some (from_secs n);
        partition_key = pk;
      }
  unfolding limit_item Limit.limit Limit.with_reset Limit.with_partition_key
  limit_item_lem l none d n = refl
  limit_item_lem l (some pk) d n = refl

  pub policy_item_announced :
      (l : RateLimiter f moka api) (key : Option K)
      → policy_item f moka api l (wire_key encode l.partition_key key) ≡ announced_policy l key
  policy_item_announced l key = rw wire_key_lem (policy_item_lem l _)

  pub limit_item_announced :
      (l : RateLimiter f moka api) (key : Option K) (d : Decision) (n : ℕ)
      → limit_item f moka api l (wire_key encode l.partition_key key) d n
        ≡ announced_limit l key d n
  limit_item_announced l key d n = rw wire_key_lem (limit_item_lem l _ d n)
