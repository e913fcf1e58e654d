-- ===== src/Limiter/Network.antt =====
-- src/limiter.rs: `network_key`. An IPv4 address is its number, an IPv6 address its eight segments.
use trillium_ratelimit.Common.{
  ℕ, ◌+◌, ◌*◌, ◌^◌, ◌≡◌, ◌↔◌, refl, sym, ◌∙◌, inl, inr, ◌&&◌, Option, none, some, Option-cases,
  ◌==◌, if◌then◌else◌, arith, ap,
}

pub record Segments : Type 0 where
  pub a : ℕ
  pub b : ℕ
  pub c : ℕ
  pub d : ℕ
  pub e : ℕ
  pub f : ℕ
  pub g : ℕ
  pub h : ℕ

pub data IpAddr : Type 0 where
  v4 : ℕ → IpAddr
  v6 : Segments → IpAddr

-- `Ipv6Addr::to_ipv4_mapped`: the address of `::ffff:0:0/96`
unfoldable pub to_ipv4_mapped : Segments → Option ℕ
to_ipv4_mapped s =
    if s.a == 0 && s.b == 0 && s.c == 0 && s.d == 0 && s.e == 0 && s.f == 0xffff
    then some (s.g * 2 ^ 16 + s.h)
    else none

-- The first four segments.
abbrev pub masked : Segments → Segments
masked s = record { a = s.a; b = s.b; c = s.c; d = s.d; e = 0; f = 0; g = 0; h = 0 }

unfoldable pub network_key : IpAddr → IpAddr
unfolding to_ipv4_mapped
network_key (v4 n) = v4 n
network_key (v6 addr) = elim (to_ipv4_mapped addr) [ some n ↦ v4 n | none ↦ v6 (masked addr) ]

-- Two addresses of one network: the same IPv4 address, mapped into IPv6 or not, or two IPv6
-- addresses that are not mapped and have the same first 64 bits.
pub data SameNetwork : IpAddr → IpAddr → Type 0 where
  same_v4 : {m n : ℕ} → m ≡ n → SameNetwork (v4 m) (v4 n)
  left_mapped : {s : Segments} {n : ℕ} → to_ipv4_mapped s ≡ some n → SameNetwork (v6 s) (v4 n)
  right_mapped : {s : Segments} {n : ℕ} → to_ipv4_mapped s ≡ some n → SameNetwork (v4 n) (v6 s)
  both_mapped :
      {s t : Segments} {n : ℕ}
      → to_ipv4_mapped s ≡ some n
      → to_ipv4_mapped t ≡ some n
      → SameNetwork (v6 s) (v6 t)
  same_prefix :
      {s t : Segments}
      → to_ipv4_mapped s ≡ none
      → to_ipv4_mapped t ≡ none
      → s.a ≡ t.a
      → s.b ≡ t.b
      → s.c ≡ t.c
      → s.d ≡ t.d
      → SameNetwork (v6 s) (v6 t)

key_mapped : (s : Segments) (n : ℕ) → to_ipv4_mapped s ≡ some n → network_key (v6 s) ≡ v4 n
unfolding network_key
key_mapped s n e = rw (e, network_key)

key_masked : (s : Segments) → to_ipv4_mapped s ≡ none → network_key (v6 s) ≡ v6 (masked s)
unfolding network_key
key_masked s e = rw (e, network_key)

key_v4 : (n : ℕ) → network_key (v4 n) ≡ v4 n
unfolding network_key
key_v4 n = refl

-- The keys of two addresses are equal exactly if the addresses are of one network: the same IPv4
-- address, mapped into IPv6 or not, or two IPv6 addresses that are not mapped and agree in their
-- first 64 bits.
pub network_key-SameNetwork : (x y : IpAddr) → (network_key x ≡ network_key y) ↔ SameNetwork x y
network_key-SameNetwork x y = (to_same x y, to_equal x y)
  where
    to_equal : (x y : IpAddr) → SameNetwork x y → network_key x ≡ network_key y
    to_equal x y (same_v4 e) = rw e
    to_equal x y (left_mapped {s} {n} e) = key_mapped s n e ∙ sym (key_v4 n)
    to_equal x y (right_mapped {s} {n} e) = key_v4 n ∙ sym (key_mapped s n e)
    to_equal x y (both_mapped {s} {t} {n} e k) = key_mapped s n e ∙ sym (key_mapped t n k)
    to_equal x y (same_prefix {s} {t} e k pa pb pc pd) =
        key_masked s e ∙ rw (pa, pb, pc, pd, key_masked t k)

    to_same : (x y : IpAddr) → network_key x ≡ network_key y → SameNetwork x y
    to_same (v4 m) (v4 n) h = same_v4 (cc (h, key_v4 m, key_v4 n))
    to_same (v4 m) (v6 t) h = elim (Option-cases (to_ipv4_mapped t)) [
      | inl e ↦ cc (h, key_v4 m, key_masked t e)
      | inr (n, e) ↦
          let p : m ≡ n = cc (h, key_v4 m, key_mapped t n e) in right_mapped (rw (← p) at e)
    ]
    to_same (v6 s) (v4 n) h = elim (Option-cases (to_ipv4_mapped s)) [
      | inl e ↦ cc (h, key_v4 n, key_masked s e)
      | inr (m, e) ↦ let p : m ≡ n = cc (h, key_v4 n, key_mapped s m e) in left_mapped (rw p at e)
    ]
    to_same (v6 s) (v6 t) h = elim (Option-cases (to_ipv4_mapped s)) [
      | inl e ↦ elim (Option-cases (to_ipv4_mapped t)) [
        | inl k ↦
            let p : masked s ≡ masked t = cc (h, key_masked s e, key_masked t k) in
            same_prefix e k (ap (λ z. z.a) p) (ap (λ z. z.b) p) (ap (λ z. z.c) p) (ap (λ z. z.d) p)
        | inr (n, k) ↦ cc (h, key_masked s e, key_mapped t n k)
      ]
      | inr (m, e) ↦ elim (Option-cases (to_ipv4_mapped t)) [
        | inl k ↦ cc (h, key_mapped s m e, key_masked t k)
        | inr (n, k) ↦
            let p : m ≡ n = cc (h, key_mapped s m e, key_mapped t n k) in both_mapped (rw p at e) k
      ]
    ]

-- The key of a key is that key.
network_key-network_key : (x : IpAddr) → network_key (network_key x) ≡ network_key x
unfolding network_key to_ipv4_mapped
network_key-network_key (v4 n) = refl
network_key-network_key (v6 s) = elim (Option-cases (to_ipv4_mapped s)) [
  | inl e ↦ ground arith
  | inr (n, e) ↦ ground arith
]
