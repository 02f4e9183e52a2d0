-- ===== src/Nop/CallbackUrl/Laws.antt =====
-- nps-nop/src/validation.rs: the addresses that the guard refuses.
use nps_sdk_rust.Common.{
  ◌≤◌, ◌⊎◌, false, ℕ, ◌+◌, ◌*◌, ◌/◌, ◌%◌, ◌<◌, ◌≡◌, refl, false, List, Option, none, some, arith,
}
use nps_sdk_rust.Nop.CallbackUrl.{IpAddr, v4, v6, is_private_ip}

-- An IPv4 address that an IPv6 address maps is refused exactly where the IPv4 address is.
pub is_private_ip-mapped :
    (a b c d : ℕ)
    → b < 256
    → d < 256
    → is_private_ip (v6 0 0 0 0 0 0xffff (a * 256 + b) (c * 256 + d)) ≡ is_private_ip (v4 a b c d)
unfolding is_private_ip
is_private_ip-mapped a b c d h k = rw (high a b h, low a b h) refl
  where
    high : (a b : ℕ) → b < 256 → (a * 256 + b) / 256 ≡ a
    high a b h = omega arith

    low : (a b : ℕ) → b < 256 → (a * 256 + b) % 256 ≡ b
    low a b h = omega arith

-- The private IPv4 addresses by their first two octets: loopback, this network, the three private
-- ranges and the link-local one.
abbrev pub IsPrivateV4 : ℕ → ℕ → Type 0
IsPrivateV4 a b =
    (a ≡ 127)
    ⊎ (a ≡ 10)
    ⊎ (a ≡ 0)
    ⊎ ((a ≡ 172) × (16 ≤ b) × (b ≤ 31))
    ⊎ ((a ≡ 192) × (b ≡ 168))
    ⊎ ((a ≡ 169) × (b ≡ 254))

-- The private addresses: such an IPv4 address, one that an IPv6 address maps, ::1, the link-local
-- and site-local ranges from fe80 to feff, and the unique local range from fc00 to fdff.
abbrev pub IsPrivate : IpAddr → Type 0
IsPrivate (v4 a b c d) = IsPrivateV4 a b
IsPrivate (v6 s0 s1 s2 s3 s4 s5 s6 s7) =
    ((s0 ≡ 0)
      × (s1 ≡ 0)
      × (s2 ≡ 0)
      × (s3 ≡ 0)
      × (s4 ≡ 0)
      × (s5 ≡ 0xffff)
      × IsPrivateV4 (s6 / 256) (s6 % 256))
    ⊎ ((s0 ≡ 0) × (s1 ≡ 0) × (s2 ≡ 0) × (s3 ≡ 0) × (s4 ≡ 0) × (s5 ≡ 0) × (s6 ≡ 0) × (s7 ≡ 1))
    ⊎ ((0xfe80 ≤ s0) × (s0 ≤ 0xfeff))
    ⊎ ((0xfc00 ≤ s0) × (s0 ≤ 0xfdff))

module _ (parse_ip : List ℕ → Option IpAddr) where
  -- A host that no address is, or a public one.
  abbrev pub IsOpen : Option IpAddr → Type 0
  IsOpen none = Unit {0}
  IsOpen (some ip) = ¬ IsPrivate ip
