-- ===== src/Store/Partitions.antt =====
-- src/store.rs: calls on several partitions, in whatever order they interleave.
-- Each call is atomic, since moka runs it under a lock of its key, so the calls of all threads form
-- one sequence. The cache is one that drops nothing meanwhile.
use trillium_ratelimit.Common.{
  ℕ, ◌≡◌, inl, inr, Option, some, Option-cases, List, [], ◌∷◌, ◌>>=◌, subst,
}
use mathlib.Core.Logic.{ite, if_pos, if_neg}
use trillium_ratelimit.Time.{Instant}
use trillium_ratelimit.Quota.{Quota}
use trillium_ratelimit.Float.{F64}
use trillium_ratelimit.Bucket.{Bucket, Decision, try_consume}
use trillium_ratelimit.Store.Moka.{Cache, IsKeeping}
use trillium_ratelimit.Store.Validity.{consume_inv}
use trillium_ratelimit.Store.{Store, consume, bucket_or_fresh}

module _ {K : Type 0} (same : Discrete K) where
  -- The calls on one key, and their decisions among all.
  unfoldable pub calls_of : K → List (Instant × K × ℕ) → List (Instant × ℕ)
  calls_of k [] = []
  calls_of k ((now, key, cost) ∷ calls) =
      ite (same key k) ((now, cost) ∷ calls_of k calls) (calls_of k calls)

  unfoldable pub decisions_of : K → List (Instant × K × ℕ) → List Decision → List Decision
  decisions_of k [] ds = []
  decisions_of k (call ∷ calls) [] = []
  decisions_of k ((now, key, cost) ∷ calls) (d ∷ ds) =
      ite (same key k) (d ∷ decisions_of k calls ds) (decisions_of k calls ds)

module _ (f : F64) where
  -- The calls on one key, on its bucket alone.
  unfoldable pub run_key :
      Option (Bucket f) → Quota → List (Instant × ℕ) → Option (Option (Bucket f) × List Decision)
  run_key o quota [] = some (o, [])
  run_key o quota ((now, cost) ∷ calls) = do
    (next, decision) ← try_consume f (bucket_or_fresh f o now quota) now quota cost
    (last, decisions) ← run_key (some next) quota calls
    some (last, decision ∷ decisions)

  module _ {K : Type 0} (moka : Cache K (Bucket f)) where
    open moka use {find, put}

    unfoldable pub run_store :
        Store f moka → List (Instant × K × ℕ) → Option (Store f moka × List Decision)
    run_store s [] = some (s, [])
    run_store s ((now, key, cost) ∷ calls) = do
      (s', d) ← consume f moka s now key cost
      (s'', ds) ← run_store s' calls
      some (s'', d ∷ ds)

    run_store-cons :
        (s s'' : Store f moka) (now : Instant) (key : K) (cost : ℕ) (calls : List (Instant × K × ℕ))
        (ds : List Decision)
        → run_store s ((now, key, cost) ∷ calls) ≡ some (s'', ds)
        → (s' : Store f moka) × (d : Decision) × (rest : List Decision) × (consume f moka s now key
              cost
            ≡ some (s', d))
          × (run_store s' calls ≡ some (s'', rest))
          × (ds ≡ d ∷ rest)
    unfolding run_store
    run_store-cons s s'' now key cost calls ds h =
        elim (Option-cases (consume f moka s now key cost)) [
          | inl e ↦ cc (rw e at h)
          | inr ((s', d), e) ↦ elim (Option-cases (run_store s' calls)) [
            | inl e' ↦ cc (rw (e, e') at h)
            | inr ((last, rest), e') ↦
                let h' = rw (e, e') at h in (s', d, rest, e, cc (h', e'), cc h')
          ]
        ]

    module _ (same : Discrete K) (keeps : IsKeeping moka) where
      -- However the calls on all keys interleave, the calls on one key get the decisions, and leave
      -- the bucket, that they get and leave alone. The cache drops nothing meanwhile, and all the
      -- calls return.
      pub run_store-run_key :
          (s s' : Store f moka) (calls : List (Instant × K × ℕ)) (ds : List Decision) (k : K)
          → run_store s calls ≡ some (s', ds)
          → run_key (find s.cache k) s.quota (calls_of same k calls)
            ≡ some (find s'.cache k, decisions_of same k calls ds)
      unfolding run_key run_store calls_of decisions_of
      run_store-run_key s s' [] ds k h = let e : s ≡ s' = cc h in rw e
      run_store-run_key s s' ((now, key, cost) ∷ calls) ds k h =
          let (t, d, rest, first, others, all) = run_store-cons s s' now key cost calls ds h in
          let (b, e, stored) = consume_inv f moka s t now key cost d first in
          let ih = run_store-run_key t s' calls rest k others in
          elim (same key k) [
            | yes p ↦
                let first' = rw p at e in
                let kept =
                  subst (λ x. find (put s.cache key b) x ≡ some b) p
                    (keeps.put_self s.cache key b) in
                let later = rw (stored, kept) at ih in
                rw (all, if_pos _ p, if_pos _ p, first', later)
            | no p ↦
                let kept = keeps.put_other s.cache key k b p in
                let later = rw (stored, kept) at ih in rw (all, if_neg _ p, if_neg _ p) later
          ]
