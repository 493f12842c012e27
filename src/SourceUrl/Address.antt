-- ===== src/SourceUrl/Address.antt =====
-- The classes of addresses of src/source_url.rs. An address is its number, of 32 or of 128 bits.
pub mod Never
use my_ai_gateway.Prelude.{
  ℕ, ◌+◌, ◌-◌, ◌*◌, ◌/◌, ◌%◌, ◌^◌, Bool, true, false, not, ◌&&◌, ◌||◌, Option, none, some,
  is_some_and, eqb, if◌then◌else◌,
}

pub data IpAddr : Type 0 where
  v4 v6 : ℕ → IpAddr

-- `Ipv4Addr::new`.
abbrev pub octets : ℕ → ℕ → ℕ → ℕ → ℕ
octets a b c d = a * 2 ^ 24 + b * 2 ^ 16 + c * 2 ^ 8 + d

-- The segment of 16 bits that has `below` segments below it.
abbrev segment : ℕ → ℕ → ℕ
segment below ip = (ip / 2 ^ (16 * below)) % 2 ^ 16

-- `Ipv6Addr::new`.
abbrev pub segments : ℕ → ℕ → ℕ → ℕ → ℕ → ℕ → ℕ → ℕ → ℕ
segments a b c d e f g h =
    a * 2 ^ 112 + b * 2 ^ 96 + c * 2 ^ 80 + d * 2 ^ 64 + e * 2 ^ 48 + f * 2 ^ 32 + g * 2 ^ 16 + h

-- Equality under the mask of the first `prefix` bits.
unfoldable pub ipv4_in : ℕ → ℕ → ℕ → Bool
ipv4_in ip network prefix = eqb (ip / 2 ^ (32 - prefix)) (network / 2 ^ (32 - prefix))

unfoldable pub ipv6_in : ℕ → ℕ → ℕ → Bool
ipv6_in ip network prefix = eqb (ip / 2 ^ (128 - prefix)) (network / 2 ^ (128 - prefix))

unfoldable pub mapped_ipv4 : ℕ → Option ℕ
mapped_ipv4 ip =
    if eqb (segment 7 ip) 0
      && eqb (segment 6 ip) 0
      && eqb (segment 5 ip) 0
      && eqb (segment 4 ip) 0
      && eqb (segment 3 ip) 0
      && eqb (segment 2 ip) 0xffff
    then some (
        octets (segment 1 ip / 2 ^ 8) (segment 1 ip % 2 ^ 8) (segment 0 ip / 2 ^ 8)
          (segment 0 ip % 2 ^ 8))
    else none

-- The classes of `Ipv4Addr` and `Ipv6Addr` that the standard library documents.
unfoldable pub is_unspecified : ℕ → Bool
is_unspecified ip = eqb ip 0

unfoldable pub is_multicast_v4 : ℕ → Bool
unfolding ipv4_in
is_multicast_v4 ip = ipv4_in ip (octets 224 0 0 0) 4

unfoldable pub is_broadcast : ℕ → Bool
is_broadcast ip = eqb ip (octets 255 255 255 255)

unfoldable is_loopback : ℕ → Bool
unfolding ipv4_in
is_loopback ip = ipv4_in ip (octets 127 0 0 0) 8

unfoldable is_private : ℕ → Bool
unfolding ipv4_in
is_private ip =
    ipv4_in ip (octets 10 0 0 0) 8
    || ipv4_in ip (octets 172 16 0 0) 12
    || ipv4_in ip (octets 192 168 0 0) 16

unfoldable is_link_local : ℕ → Bool
unfolding ipv4_in
is_link_local ip = ipv4_in ip (octets 169 254 0 0) 16

unfoldable is_documentation : ℕ → Bool
unfolding ipv4_in
is_documentation ip =
    ipv4_in ip (octets 192 0 2 0) 24
    || ipv4_in ip (octets 198 51 100 0) 24
    || ipv4_in ip (octets 203 0 113 0) 24

unfoldable pub is_multicast_v6 : ℕ → Bool
unfolding ipv6_in
is_multicast_v6 ip = ipv6_in ip (segments 0xff00 0 0 0 0 0 0 0) 8

unfoldable pub is_metadata_ipv4 : ℕ → Bool
is_metadata_ipv4 ip =
    eqb ip (octets 169 254 169 254)
    || eqb ip (octets 169 254 170 2)
    || eqb ip (octets 169 254 170 23)
    || eqb ip (octets 100 100 100 200)

unfoldable pub is_metadata_ip : IpAddr → Bool
unfolding is_metadata_ipv4 mapped_ipv4
is_metadata_ip (v4 ip) = is_metadata_ipv4 ip
is_metadata_ip (v6 ip) =
    eqb ip (segments 0xfd00 0x0ec2 0 0 0 0 0 0x0254)
    || is_some_and is_metadata_ipv4 (mapped_ipv4 ip)

-- `is_never_allowed_ip`, on an address of 32 bits.
unfoldable pub is_never_allowed_ipv4 : ℕ → Bool
unfolding is_metadata_ipv4 is_unspecified is_multicast_v4 is_broadcast
is_never_allowed_ipv4 ip =
    if is_metadata_ipv4 ip then true else is_unspecified ip || is_multicast_v4 ip || is_broadcast ip

unfoldable pub is_never_allowed_ip : IpAddr → Bool
unfolding is_never_allowed_ipv4 is_metadata_ip is_multicast_v6 mapped_ipv4 is_unspecified
is_never_allowed_ip (v4 ip) = is_never_allowed_ipv4 ip
is_never_allowed_ip (v6 ip) =
    if is_metadata_ip (v6 ip)
    then true
    else is_unspecified ip
      || is_multicast_v6 ip
      || is_some_and is_never_allowed_ipv4 (mapped_ipv4 ip)

unfoldable pub is_public_ipv4 : ℕ → Bool
unfolding is_unspecified is_loopback is_private is_link_local is_multicast_v4 is_broadcast
    is_documentation ipv4_in
is_public_ipv4 ip = not (
    is_unspecified ip
    || is_loopback ip
    || is_private ip
    || is_link_local ip
    || is_multicast_v4 ip
    || is_broadcast ip
    || is_documentation ip
    || ipv4_in ip (octets 0 0 0 0) 8
    || ipv4_in ip (octets 100 64 0 0) 10
    || ipv4_in ip (octets 192 0 0 0) 24
    || ipv4_in ip (octets 192 88 99 0) 24
    || ipv4_in ip (octets 198 18 0 0) 15
    || ipv4_in ip (octets 240 0 0 0) 4)

unfoldable pub is_public_ipv6 : ℕ → Bool
unfolding ipv6_in
is_public_ipv6 ip =
    ipv6_in ip (segments 0x2000 0 0 0 0 0 0 0) 3
    && not (ipv6_in ip (segments 0x2001 0 0 0 0 0 0 0) 23)
    && not (ipv6_in ip (segments 0x2001 0x0db8 0 0 0 0 0 0) 32)
    && not (ipv6_in ip (segments 0x2002 0 0 0 0 0 0 0) 16)

abbrev public_unless_mapped : ℕ → Option ℕ → Bool
public_unless_mapped ip none = is_public_ipv6 ip
public_unless_mapped ip (some mapped) = is_public_ipv4 mapped

unfoldable pub is_public_ip : IpAddr → Bool
unfolding is_public_ipv4 is_public_ipv6 mapped_ipv4
is_public_ip (v4 ip) = is_public_ipv4 ip
is_public_ip (v6 ip) = public_unless_mapped ip (mapped_ipv4 ip)

-- The derived `PartialEq`.
abbrev pub same_ip : IpAddr → IpAddr → Bool
same_ip (v4 a) (v4 b) = eqb a b
same_ip (v6 a) (v6 b) = eqb a b
same_ip _ _ = false
