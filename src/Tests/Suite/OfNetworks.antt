-- ===== src/Tests/Suite/OfNetworks.antt =====
-- The unit tests of src/limiter.rs on networks, over binary64 and on a cache that drops
-- nothing.
use trillium_ratelimit.Common.{
  ℕ, ◌+◌, ◌*◌, ◌==◌, ◌&&◌, ◌>>=◌, ◌≡◌, refl, Bool, false, not, some, [], ◌∷◌,
}
use trillium_ratelimit.Time.{Instant}
use trillium_ratelimit.Quota.{per_minute}
use trillium_ratelimit.Float.Binary.{binary64}
use trillium_ratelimit.Limiter.{by_network}
use trillium_ratelimit.Limiter.Network.{IpAddr, Segments, v4, v6, network_key}
use trillium_ratelimit.Tests.Samples.{Exchange, exchange_api, first_request}
use trillium_ratelimit.Tests.Suite.Base.{Test, passed, assert, from_millis}
use trillium_ratelimit.Tests.Suite.Computing.{serving}
use trillium_ratelimit.Tests.Suite.Server.{partitions, get, assert_status}

-- `==` of two addresses
abbrev segments_eq : Segments → Segments → Bool
segments_eq s t =
    s.a == t.a
    && s.b == t.b
    && s.c == t.c
    && s.d == t.d
    && s.e == t.e
    && s.f == t.f
    && s.g == t.g
    && s.h == t.h

abbrev ip_eq : IpAddr → IpAddr → Bool
ip_eq (v4 m) (v4 n) = m == n
ip_eq (v6 s) (v6 t) = segments_eq s t
ip_eq (v4 m) (v6 t) = false
ip_eq (v6 s) (v4 n) = false

-- `Ipv4Addr::new` and `Ipv6Addr::new`
abbrev ipv4 : ℕ → ℕ → ℕ → ℕ → IpAddr
ipv4 a b c d = v4 (((a * 256 + b) * 256 + c) * 256 + d)

abbrev ipv6 : ℕ → ℕ → ℕ → ℕ → ℕ → ℕ → ℕ → ℕ → IpAddr
ipv6 a b c d e f g h = v6 (record { a = a; b = b; c = c; d = d; e = e; f = f; g = g; h = h })

abbrev from_peer : IpAddr → Exchange
from_peer ip = record first_request { peer = some ip }

abbrev by_network_meters_per_peer_ip : Instant → Test
by_network_meters_per_peer_ip t = do
  let app = by_network binary64 (partitions ip_eq) exchange_api (per_minute 1) ∷ []
  (app, conn) ← get ip_eq app (from_peer (ipv4 10 0 0 1)) t
  _ ← assert_status conn 200
  (app, conn) ← get ip_eq app (from_peer (ipv4 10 0 0 1)) (t + from_millis 1)
  _ ← assert_status conn 429
  (app, conn) ← get ip_eq app (from_peer (ipv4 10 0 0 2)) (t + from_millis 2)
  _ ← assert_status conn 200
  (app, conn) ← get ip_eq app first_request (t + from_millis 3)
  assert_status conn 200

by_network_meters_per_peer_ip_passes : by_network_meters_per_peer_ip 7 ≡ passed
unfolding serving
by_network_meters_per_peer_ip_passes = refl

abbrev network_key_masks_ipv6_to_64 : Test
network_key_masks_ipv6_to_64 = do
  let v4 = ipv4 10 0 0 1
  _ ← assert (ip_eq (network_key v4) v4)
  let a = ipv6 0x2001 0xdb8 1 2 0xaaaa 0xbbbb 0xcccc 0xdddd
  let b = ipv6 0x2001 0xdb8 1 2 0x1111 0x2222 0x3333 0x4444
  let c = ipv6 0x2001 0xdb8 1 3 0 0 0 1
  _ ← assert (ip_eq (network_key a) (network_key b))
  _ ← assert (not (ip_eq (network_key a) (network_key c)))
  assert (ip_eq (network_key a) (ipv6 0x2001 0xdb8 1 2 0 0 0 0))

network_key_masks_ipv6_to_64_passes : network_key_masks_ipv6_to_64 ≡ passed
unfolding serving
network_key_masks_ipv6_to_64_passes = refl

-- `::ffff:a.b.c.d`
abbrev ipv4_mapped : ℕ → ℕ → ℕ → ℕ → IpAddr
ipv4_mapped a b c d = ipv6 0 0 0 0 0 0xffff (a * 256 + b) (c * 256 + d)

abbrev network_key_unmaps_ipv4_mapped_ipv6 : Test
network_key_unmaps_ipv4_mapped_ipv6 = do
  let mapped = ipv4_mapped 198 51 100 1
  _ ← assert (ip_eq (network_key mapped) (ipv4 198 51 100 1))
  let other = ipv4_mapped 203 0 113 9
  _ ← assert (not (ip_eq (network_key mapped) (network_key other)))
  assert (ip_eq (network_key mapped) (network_key (ipv4 198 51 100 1)))

network_key_unmaps_ipv4_mapped_ipv6_passes : network_key_unmaps_ipv4_mapped_ipv6 ≡ passed
unfolding serving
network_key_unmaps_ipv4_mapped_ipv6_passes = refl
