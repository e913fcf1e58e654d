-- ===== src/Store/Moka.antt =====
-- The cache of src/store.rs is moka's, which is not part of the repository: its operations are an
-- interface, and what its documentation promises are the laws.
use trillium_ratelimit.Common.{inl, ℕ, ◌≡◌, ◌≢◌, ◌⊎◌, Option, none, some}
use trillium_ratelimit.Time.{Duration}

pub record Cache (K V : Type 0) : Type 1 where
  pub State : Type 0
  -- `Cache::builder().max_capacity(n).time_to_idle(d).build()`
  pub build : ℕ → Duration → State
  -- the entry that `and_compute_with` hands to its closure
  pub find : State → K → Option V
  -- what `Op::Put` does
  pub put : State → K → V → State

module _ {K V : Type 0} (moka : Cache K V) where
  open moka use {State, build, find, put}

  -- An entry may be dropped at any time, by expiry or to make room, and is never changed.
  abbrev pub Loses : State → State → Type 0
  Loses s s' = (k : K) → (find s' k ≡ find s k) ⊎ (find s' k ≡ none)

  pub record IsLossy : Type 0 where
    pub build_empty : (n : ℕ) (d : Duration) (k : K) → find (build n d) k ≡ none
    pub put_self :
        (s : State) (k : K) (v : V) → (find (put s k v) k ≡ some v) ⊎ (find (put s k v) k ≡ none)
    pub put_other :
        (s : State) (j k : K) (v : V)
        → j ≢ k
        → (find (put s j v) k ≡ find s k) ⊎ (find (put s j v) k ≡ none)

  -- A cache that drops nothing meanwhile: it has room, and no entry expires.
  pub record IsKeeping : Type 0 where
    pub build_empty : (n : ℕ) (d : Duration) (k : K) → find (build n d) k ≡ none
    pub put_self : (s : State) (k : K) (v : V) → find (put s k v) k ≡ some v
    pub put_other : (s : State) (j k : K) (v : V) → j ≢ k → find (put s j v) k ≡ find s k

  pub keeping-IsLossy : IsKeeping → IsLossy
  keeping-IsLossy keeps = record {
    build_empty = keeps.build_empty;
    put_self = λ s k v. inl (keeps.put_self s k v);
    put_other = λ s j k v h. inl (keeps.put_other s j k v h);
  }
