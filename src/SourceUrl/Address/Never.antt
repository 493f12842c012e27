-- ===== src/SourceUrl/Address/Never.antt =====
-- The addresses that src/source_url.rs never allows, written out.
use my_ai_gateway.Prelude.{
  ℕ, ◌+◌, ◌*◌, ◌/◌, ◌%◌, ◌^◌, ◌-◌, ◌≤◌, ◌<◌, ◌≡◌, refl, ap, true, some, is_some_and, arith, eqb,
  List, ◌∷◌, any,
}
use my_ai_gateway.SourceUrl.Address.{
  IpAddr, v4, v6, octets, segments, mapped_ipv4, is_unspecified, is_multicast_v4, is_multicast_v6,
  is_broadcast, ipv4_in, ipv6_in, is_metadata_ipv4, is_metadata_ip, is_never_allowed_ipv4,
  is_never_allowed_ip,
}

-- An unspecified, broadcast or multicast address, or one of the metadata services of the clouds, or an
-- IPv6 address that maps one of these.
pub data IsNever : IpAddr → Type 0 where
  unspecified_v4 : IsNever (v4 0)
  broadcast : IsNever (v4 (octets 255 255 255 255))
  multicast_v4 : (ip : ℕ) → octets 224 0 0 0 ≤ ip → ip ≤ octets 239 255 255 255 → IsNever (v4 ip)
  instance_metadata : IsNever (v4 (octets 169 254 169 254))
  task_metadata : IsNever (v4 (octets 169 254 170 2))
  pod_metadata : IsNever (v4 (octets 169 254 170 23))
  alibaba_metadata : IsNever (v4 (octets 100 100 100 200))
  unspecified_v6 : IsNever (v6 0)
  multicast_v6 : (ip : ℕ) → segments 0xff00 0 0 0 0 0 0 0 ≤ ip → ip < 2 ^ 128 → IsNever (v6 ip)
  metadata_v6 : IsNever (v6 (segments 0xfd00 0x0ec2 0 0 0 0 0 0x0254))
  mapped : (ip : ℕ) → ip < 2 ^ 32 → IsNever (v4 ip) → IsNever (v6 (0xffff * 2 ^ 32 + ip))

multicast_v4-refused :
    (ip : ℕ)
    → octets 224 0 0 0 ≤ ip
    → ip ≤ octets 239 255 255 255
    → is_never_allowed_ip (v4 ip) ≡ true
unfolding is_never_allowed_ip is_never_allowed_ipv4 is_multicast_v4 ipv4_in
multicast_v4-refused ip low high =
    let top : ip / 2 ^ 28 ≡ 14 = omega arith in
    let hit : eqb (ip / 2 ^ (32 - 4)) (octets 224 0 0 0 / 2 ^ (32 - 4)) ≡ true = rw top refl in
    ground (arith, hit)

-- The two lowest segments of an address that maps one of 32 bits are its octets.
octets_of_segments :
    (ip : ℕ)
    → ip < 2 ^ 32
    → let n = 0xffff * 2 ^ 32 + ip in
      octets
        (n / 2 ^ 16 % 2 ^ 16 / 2 ^ 8)
        (n / 2 ^ 16 % 2 ^ 16 % 2 ^ 8)
        (n / 1 % 2 ^ 16 / 2 ^ 8)
        (n / 1 % 2 ^ 16 % 2 ^ 8)
      ≡ ip
octets_of_segments ip small = omega arith

mapped_ipv4-some : (ip : ℕ) → ip < 2 ^ 32 → mapped_ipv4 (0xffff * 2 ^ 32 + ip) ≡ some ip
unfolding mapped_ipv4
mapped_ipv4-some ip small =
    let n : ℕ = 0xffff * 2 ^ 32 + ip in
    let s7 : n / 2 ^ 112 ≡ 0 = omega arith in
    let s6 : n / 2 ^ 96 ≡ 0 = omega arith in
    let s5 : n / 2 ^ 80 ≡ 0 = omega arith in
    let s4 : n / 2 ^ 64 ≡ 0 = omega arith in
    let s3 : n / 2 ^ 48 ≡ 0 = omega arith in
    let s2 : n / 2 ^ 32 ≡ 0xffff = omega arith in
    rw (s7, s6, s5, s4, s3, s2) (ap some (octets_of_segments ip small))

multicast_v6-refused :
    (ip : ℕ)
    → segments 0xff00 0 0 0 0 0 0 0 ≤ ip
    → ip < 2 ^ 128
    → is_never_allowed_ip (v6 ip) ≡ true
unfolding is_never_allowed_ip is_multicast_v6 ipv6_in
multicast_v6-refused ip low high =
    let top : ip / 2 ^ 120 ≡ 255 = omega arith in
    let hit : eqb (ip / 2 ^ (128 - 8)) (segments 0xff00 0 0 0 0 0 0 0 / 2 ^ (128 - 8)) ≡ true =
      rw top refl in
    ground (arith, hit)

mapped-refused :
    (ip : ℕ)
    → ip < 2 ^ 32
    → is_never_allowed_ipv4 ip ≡ true
    → is_never_allowed_ip (v6 (0xffff * 2 ^ 32 + ip)) ≡ true
unfolding is_never_allowed_ip
mapped-refused ip small never =
    let maps : is_some_and is_never_allowed_ipv4 (mapped_ipv4 (0xffff * 2 ^ 32 + ip)) ≡ true =
      rw (mapped_ipv4-some ip small) never in
    ground (arith, maps)

pub IsNever-refused : {a : IpAddr} → IsNever a → is_never_allowed_ip a ≡ true
unfolding is_never_allowed_ip is_never_allowed_ipv4 is_unspecified is_broadcast is_metadata_ipv4
    is_metadata_ip
IsNever-refused unspecified_v4 = refl
IsNever-refused broadcast = refl
IsNever-refused (multicast_v4 ip low high) = multicast_v4-refused ip low high
IsNever-refused instance_metadata = refl
IsNever-refused task_metadata = refl
IsNever-refused pod_metadata = refl
IsNever-refused alibaba_metadata = refl
IsNever-refused unspecified_v6 = refl
IsNever-refused (multicast_v6 ip low high) = multicast_v6-refused ip low high
IsNever-refused metadata_v6 = refl
IsNever-refused (mapped ip small never) = mapped-refused ip small (IsNever-refused never)

-- One of the addresses is such an address.
pub data HasNever : List IpAddr → Type 0 where
  first : {a : IpAddr} (rest : List IpAddr) → IsNever a → HasNever (a ∷ rest)
  later : (a : IpAddr) {rest : List IpAddr} → HasNever rest → HasNever (a ∷ rest)

pub any-HasNever : {ips : List IpAddr} → HasNever ips → any is_never_allowed_ip ips ≡ true
any-HasNever (first {a = a} rest n) =
    let hit : is_never_allowed_ip a ≡ true = IsNever-refused n in ground (arith, hit)
any-HasNever (later a {rest = rest} h) =
    let hit : any is_never_allowed_ip rest ≡ true = any-HasNever h in ground (arith, hit)
