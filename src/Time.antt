-- ===== src/Time.antt =====
-- What the crate uses of `std::time`. A `Duration` is its number of nanoseconds, at most
-- `max_duration`. An `Instant` is the number of nanoseconds since the earliest instant that the
-- platform can represent; the latest one is a parameter, `latest`.
use trillium_ratelimit.Common.{
  ℕ, ◌+◌, ◌-◌, ◌*◌, ◌/◌, ◌%◌, ◌^◌, ◌≡◌, arith, Option, none, some, leb, if◌then◌else◌,
}

abbrev pub Duration : Type 0
Duration = ℕ

abbrev pub Instant : Type 0
Instant = ℕ

abbrev pub nanos_per_sec : ℕ
nanos_per_sec = 1_000_000_000

-- `Duration::MAX`.
abbrev pub max_duration : Duration
max_duration = 2 ^ 64 * nanos_per_sec - 1

abbrev pub from_secs : ℕ → Duration
from_secs s = s * nanos_per_sec

abbrev pub as_secs : Duration → ℕ
as_secs d = d / nanos_per_sec

abbrev pub subsec_nanos : Duration → ℕ
subsec_nanos d = d % nanos_per_sec

-- `Duration + Duration` panics on overflow.
abbrev pub add_duration : Duration → Duration → Option Duration
add_duration a b = if leb (a + b) max_duration then some (a + b) else none

-- `Duration::checked_mul`.
abbrev pub checked_mul : Duration → ℕ → Option Duration
checked_mul d n = if leb (d * n) max_duration then some (d * n) else none

-- `Instant::saturating_duration_since`: zero if `earlier` is later, and `Duration::MAX` at most.
unfoldable pub saturating_duration_since : Instant → Instant → Duration
saturating_duration_since now earlier =
    if leb (now - earlier) max_duration then now - earlier else max_duration

-- `Instant::checked_sub`.
abbrev pub checked_sub : Instant → Duration → Option Instant
checked_sub t d = if leb d t then some (t - d) else none

-- `Instant::checked_add`, on a platform whose last instant is `latest`.
abbrev pub checked_add : Instant → Instant → Duration → Option Instant
checked_add latest t d = if leb (t + d) latest then some (t + d) else none

pub since_self : (now t : Instant) → t ≡ now → saturating_duration_since now t ≡ 0
unfolding saturating_duration_since
since_self now t e = ground arith
