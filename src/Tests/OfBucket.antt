-- ===== src/Tests/OfBucket.antt =====
-- Runs of src/bucket.rs.
use trillium_ratelimit.Common.{
  ℕ, ◌+◌, ◌-◌, ◌*◌, ◌/◌, ◌≤◌, ◌<◌, ◌≡◌, ◌⊎◌, refl, true, none, some, List, [], ◌∷◌, map, leb,
  u64_max, arith,
}
use trillium_ratelimit.Time.{Instant, Duration, saturating_duration_since}
use trillium_ratelimit.Float.Exact.{exact, exact-IsIeee, of_u64}
use trillium_ratelimit.Bucket.{Bucket, Decision, fresh, try_consume, run}
use trillium_ratelimit.Bucket.Bounds.{remaining-le-burst}
use trillium_ratelimit.Bucket.Total.{try_consume_total}
use trillium_ratelimit.Bucket.Drain
use trillium_ratelimit.Bucket.Drain.{
  at_once, pays, balances, count_true, run-pays, fresh_admits_burst,
}
use trillium_ratelimit.Bucket.Scaled.{Amount, filled, paid, smaller, try_consume-Amount}
use trillium_ratelimit.Bucket.Rate.{admitted}
use trillium_ratelimit.Bucket.Rewind.{
  forward, admitted-le-forward, there_and_back, rewind_over_admits,
}
use trillium_ratelimit.Bucket.Retry.{retry_admitted}
use trillium_ratelimit.Tests.Attempts.{
  two_per_second, two_per_second-IsInRange, full_at, empty_at, one_at, one_left, too_many, accrues,
  admits_one, refuses_one, full_at-IsValid, barely_one_at, barely, admits_later,
}

abbrev pub three_calls : List (Instant × ℕ)
three_calls = (7, 2) ∷ (7, 1) ∷ (500_000_007, 1) ∷ []

try_consume-Amount_example :
    Amount 1_000_000_000
      (paid two_per_second (filled two_per_second 2_000_000_000 (saturating_duration_since 7 7)) 1)
      (one_at 7).tokens
    × ((one_at 7).last_update ≡ 7)
    × (one_left.allowed
        ≡ leb
            (1 * 1_000_000_000)
            (filled two_per_second 2_000_000_000 (saturating_duration_since 7 7)))
    × (one_left.remaining
        ≡ smaller
            (paid two_per_second
                (filled two_per_second 2_000_000_000 (saturating_duration_since 7 7))
                1
              / 1_000_000_000)
            u64_max)
try_consume-Amount_example =
    try_consume-Amount two_per_second (omega arith) (full_at 7) 7 2_000_000_000 1 (one_at 7)
      one_left refl admits_one

try_consume_total_example :
    (b' : Bucket exact) × (r : Decision) × (try_consume exact (full_at 7) 7 two_per_second 1
      ≡ some (b', r))
    × (r.time_to_full ≤ 1_000_000_000)
    × ((r.retry_after ≡ none) ⊎ ((e : Duration) × (r.retry_after ≡ some e) × (e ≤ 1_000_000_000)))
try_consume_total_example =
    try_consume_total exact exact-IsIeee two_per_second 2 1_000_000_000 (omega arith) accrues
      (full_at 7) 7 1 (omega arith) (omega arith) full_at-IsValid.level_nonneg

remaining-le-burst_example : one_left.remaining ≤ two_per_second.burst
remaining-le-burst_example =
    remaining-le-burst exact exact-IsIeee (full_at 7) 7 two_per_second 1 (one_at 7) one_left
      (omega arith) full_at-IsValid admits_one

full_at-Holds : Drain.Holds exact exact-IsIeee 2 7 (full_at 7)
unfolding of_u64
full_at-Holds = record { level = refl; stamped = refl }

run-pays_example :
    (b' : Bucket exact) × (rs : List Decision) × (run exact
        (full_at 7)
        two_per_second
        (at_once 7 (1 ∷ 2 ∷ 1 ∷ []))
      ≡ some (b', rs))
    × (map (λ r. r.allowed) rs ≡ pays 2 (1 ∷ 2 ∷ 1 ∷ []))
    × (map (λ r. r.remaining) rs ≡ balances 2 (1 ∷ 2 ∷ 1 ∷ []))
run-pays_example =
    run-pays exact exact-IsIeee two_per_second 7 two_per_second-IsInRange (omega arith)
      (omega arith) 2 1_000_000_000 (omega arith) (omega arith) accrues (full_at 7) 2
      (1 ∷ 2 ∷ 1 ∷ []) (omega arith) (omega arith, (omega arith, (omega arith, tt))) full_at-Holds

retry_admitted_example : barely.allowed ≡ true
retry_admitted_example =
    retry_admitted two_per_second (empty_at 7) (empty_at 7) (barely_one_at 500_000_008) 7
      500_000_008 0 1 500_000_000 too_many barely (omega arith) (omega arith) (omega arith) refl
      refuses_one refl (omega arith) (omega arith) admits_later

abbrev out_of_order : List (Instant × ℕ)
out_of_order = (500_000_007, 2) ∷ (7, 1) ∷ (500_000_007, 1) ∷ []

admitted-le-forward_example :
    (b' : Bucket exact) × (ds : List Decision) × (run exact
        (fresh exact 7 two_per_second)
        two_per_second
        out_of_order
      ≡ some (b', ds))
    × (admitted out_of_order ds * 1_000_000_000 ≤ 2 * 1_000_000_000 + forward 7 out_of_order * 2)
admitted-le-forward_example =
    admitted-le-forward two_per_second (omega arith) 7 out_of_order 2 1_000_000_000 (omega arith)
      (omega arith) (omega arith, (omega arith, (omega arith, tt))) accrues

rewind_over_admits_example :
    (b' : Bucket exact) × (ds : List Decision) × (run exact
        (fresh exact 7 two_per_second)
        two_per_second
        (there_and_back two_per_second 7)
      ≡ some (b', ds))
    × (2 * 1_000_000_000 + (7 + 1_000_000_000 - 7) * 2
        < admitted (there_and_back two_per_second 7) ds * 1_000_000_000)
rewind_over_admits_example =
    rewind_over_admits two_per_second (omega arith) 7 1_000_000_000 (omega arith) (omega arith) refl
      (omega arith) accrues
