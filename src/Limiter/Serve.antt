-- ===== src/Limiter/Serve.antt =====
-- src/limiter.rs: requests that the handler serves one after another.
use mathlib.Core.Logic.{ite}
use trillium_ratelimit.Common.{
  ℕ, ◌+◌, ◌≡◌, inl, inr, Bool, Option, some, Option-cases, List, [], ◌∷◌, Text, ◌>>=◌,
  if◌then◌else◌,
}
use trillium_ratelimit.Time.{Instant}
use trillium_ratelimit.Float.{F64}
use trillium_ratelimit.Bucket.{Bucket}
use trillium_ratelimit.Store.Moka.{Cache}
use trillium_ratelimit.Limiter.{RateLimiter, MissingKey}
use trillium_ratelimit.Limiter.Trillium.{ConnApi}
use trillium_ratelimit.Limiter.Handler.{Course, course, passed, rejected, metered, run}

-- One token of the store for each request that is metered.
abbrev pub call_of :
    {K : Type 0}
    → Instant
    → Course K
    → List (Instant × Option K × ℕ)
    → List (Instant × Option K × ℕ)
call_of now passed calls = calls
call_of now rejected calls = calls
call_of now (metered key) calls = (now, key, 1) ∷ calls

-- One for a request that is metered under the key and was not halted.
abbrev pub passes : {K : Type 0} → Discrete (Option K) → Option K → Course K → Bool → ℕ
passes same k passed halted = 0
passes same k rejected halted = 0
passes same k (metered key) halted = ite (same key k) (if halted then 0 else 1) 0

module _ {K : Type 0} (api : ConnApi) (extractor : api.Conn → Option K)
    (missing_key : MissingKey) where
  open api use {Conn, is_halted}

  -- The calls that requests make of the store.
  unfoldable pub metered_calls : List (Instant × Conn) → List (Instant × Option K × ℕ)
  metered_calls [] = []
  metered_calls ((now, conn) ∷ requests) =
      call_of now (course (extractor conn) missing_key) (metered_calls requests)

  -- How many requests under the key went through.
  unfoldable pub through : Discrete (Option K) → Option K → List (Instant × Conn) → List Conn → ℕ
  through same k [] answers = 0
  through same k (request ∷ requests) [] = 0
  through same k ((now, conn) ∷ requests) (answer ∷ answers) =
      passes same k (course (extractor conn) missing_key) (is_halted answer)
      + through same k requests answers

module _ (f : F64) {K : Type 0} (moka : Cache (Option K) (Bucket f)) (api : ConnApi)
    (random : ℕ → ℕ) (encode : Text → Text) where
  open api use {Conn, is_halted}

  -- The requests, each at its own time, and the connections that are answered.
  unfoldable pub serve :
      RateLimiter f moka api → List (Instant × Conn) → Option (RateLimiter f moka api × List Conn)
  serve l [] = some (l, [])
  serve l ((now, conn) ∷ requests) = do
    (l', answer) ← run f moka api random encode l conn now
    (l'', answers) ← serve l' requests
    some (l'', answer ∷ answers)

  pub serve-cons :
      (l l'' : RateLimiter f moka api) (now : Instant) (conn : Conn)
      (requests : List (Instant × Conn)) (answers : List Conn)
      → serve l ((now, conn) ∷ requests) ≡ some (l'', answers)
      → (l' : RateLimiter f moka api) × (answer : Conn) × (rest : List Conn) × (run f moka api
            random encode l conn now
          ≡ some (l', answer))
        × (serve l' requests ≡ some (l'', rest))
        × (answers ≡ answer ∷ rest)
  unfolding serve
  serve-cons l l'' now conn requests answers h =
      elim (Option-cases (run f moka api random encode l conn now)) [
        | inl e ↦ cc (rw e at h)
        | inr ((l', answer), e) ↦ elim (Option-cases (serve l' requests)) [
          | inl e' ↦ cc (rw (e, e') at h)
          | inr ((last, rest), e') ↦
              let h' = rw (e, e') at h in (l', answer, rest, e, cc (e', h'), cc h')
        ]
      ]
