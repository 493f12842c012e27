-- ===== src/SourceUrl/Policy/Addresses.antt =====
-- Which addresses the resolver of src/source_url.rs lets through.
use my_ai_gateway.Prelude.{
  ◌⊎◌, Bool, true, false, ◌||◌, ◌≡◌, refl, ap, ◌∙◌, subst, Option, none, some, String, List, [],
  ◌∷◌, any, all, is_empty, All, Bool-cases, inl, inr, arith,
}
use my_ai_gateway.SourceUrl.Address.{IpAddr, v4, v6, is_never_allowed_ip, same_ip}
use my_ai_gateway.SourceUrl.Address.Never.{HasNever, any-HasNever}
use my_ai_gateway.SourceUrl.Policy.{
  Parsers, SourceUrlPolicy, Checked, ok, err, disallowed_target, both, normalize_host,
  is_metadata_hostname, ip_is_allowed, host_is_allowed, insert, sort_dedup,
  validate_resolved_addresses, resolve,
}

same_ip-path : (a b : IpAddr) → same_ip a b ≡ true → a ≡ b
same_ip-path (v4 a) (v4 b) h = let e : a ≡ b = ground arith in ap v4 e
same_ip-path (v6 a) (v6 b) h = let e : a ≡ b = ground arith in ap v6 e
same_ip-path (v4 a) (v6 b) h = absurd (cc)
same_ip-path (v6 a) (v4 b) h = absurd (cc)

any-insert :
    (p : IpAddr → Bool) (ip : IpAddr) (ips : List IpAddr)
    → any p (insert ip ips) ≡ (p ip || any p ips)
unfolding insert
any-insert p ip [] = refl
any-insert p ip (x ∷ xs) = ground (arith, any-insert p ip xs, same_ip-path ip x)

any-sort_dedup : (p : IpAddr → Bool) (ips : List IpAddr) → any p (sort_dedup ips) ≡ any p ips
unfolding sort_dedup
any-sort_dedup p [] = refl
any-sort_dedup p (ip ∷ ips) =
    any-insert p ip (sort_dedup ips) ∙ ap (λ b. p ip || b) (any-sort_dedup p ips)

all-All : (p : IpAddr → Bool) (ips : List IpAddr) → all p ips ≡ true → All (λ ip. p ip ≡ true) ips
all-All p [] h = tt
all-All p (ip ∷ ips) h = ground (arith, all-All p ips)

module _ {N : Type 0} (parsers : Parsers N) (policy : SourceUrlPolicy N) where
  abbrev pub is_allowed_for : String → IpAddr → Bool
  is_allowed_for name ip =
      ip_is_allowed parsers policy ip (host_is_allowed parsers policy (normalize_host name))

  -- The addresses that a connection may use.
  pub record IsAnswer (name : String) (ips : List IpAddr) : Type 0 where
    pub not_empty : is_empty ips ≡ false
    pub no_metadata : is_metadata_hostname (normalize_host name) ≡ false
    pub all_allowed : All (λ ip. is_allowed_for name ip ≡ true) ips

  validate-IsAnswer :
      (name : String) (ips : List IpAddr)
      → Path (Checked {0} Unit) (validate_resolved_addresses parsers policy name ips) (ok tt)
      → IsAnswer name ips
  unfolding validate_resolved_addresses
  validate-IsAnswer name ips h = record {
    not_empty = ground (arith, h);
    no_metadata = ground (arith, h);
    all_allowed = all-All (is_allowed_for name) ips (ground (arith, h));
  }

  -- The addresses of a name are only used if there is one, the name is none of the metadata services, and
  -- every one of the addresses is allowed: one address that is not refuses them all.
  pub resolve-IsAnswer :
      (name : String) (lookup : Option (List IpAddr)) (ips : List IpAddr)
      → Path (Checked (List IpAddr)) (resolve parsers policy name lookup) (ok ips)
      → IsAnswer name ips
  unfolding resolve
  resolve-IsAnswer name none ips h = absurd (cc)
  resolve-IsAnswer name (some addresses) ips h =
      of_check (validate_resolved_addresses parsers policy name (sort_dedup addresses)) refl h
    where
      of_check :
          (c : Checked {0} Unit)
          → Path
              (Checked {0} Unit)
              (validate_resolved_addresses parsers policy name (sort_dedup addresses))
              c
          → Path (Checked (List IpAddr)) (both c (λ _. ok (sort_dedup addresses))) (ok ips)
          → IsAnswer name ips
      of_check (err e) eq h' = absurd (cc)
      of_check (ok u) eq h' =
          let same : sort_dedup addresses ≡ ips = ground arith in
          subst (IsAnswer name) same (validate-IsAnswer name (sort_dedup addresses) eq)

  never-allowed :
      (ip : IpAddr) (host_allowed : Bool)
      → is_never_allowed_ip ip ≡ true
      → ip_is_allowed parsers policy ip host_allowed ≡ false
  unfolding ip_is_allowed
  never-allowed ip host_allowed h = rw (h, ip_is_allowed) refl

  not_all :
      (name : String) (ips : List IpAddr)
      → any is_never_allowed_ip ips ≡ true
      → (is_empty ips ≡ false) × (all (is_allowed_for name) ips ≡ false)
  not_all name [] h = absurd (cc)
  not_all name (ip ∷ ips) h = (
    refl,
    elim (Bool-cases (is_never_allowed_ip ip)) [
      | inl never ↦ rw (never-allowed ip _ never) refl
      | inr other ↦ ground (arith, other, not_all name ips)
    ],
  )

  validate-never :
      (name : String) (ips : List IpAddr)
      → any is_never_allowed_ip ips ≡ true
      → Path
          (Checked {0} Unit)
          (validate_resolved_addresses parsers policy name ips)
          (err disallowed_target)
  unfolding validate_resolved_addresses
  validate-never name ips h =
      let (not_empty, refused) = not_all name ips h in ground (arith, not_empty, refused)

  -- Whatever the allowlist holds: a name is refused if one of its addresses is never allowed. So it is if
  -- one of them is unspecified (0.0.0.0, ::), the broadcast address, multicast (224.0.0.0 to
  -- 239.255.255.255, ff00:: and above), the address of a metadata service of a cloud (169.254.169.254,
  -- 169.254.170.2, 169.254.170.23, 100.100.100.200, fd00:ec2::254), or an IPv6 address that maps one of
  -- these IPv4 addresses.
  pub resolve-never :
      (name : String) (addresses : List IpAddr)
      → any is_never_allowed_ip addresses ≡ true ⊎ HasNever addresses
      → Path
          (Checked (List IpAddr))
          (resolve parsers policy name (some addresses))
          (err disallowed_target)
  unfolding resolve
  resolve-never name addresses h =
      let never : any is_never_allowed_ip addresses ≡ true = elim h [
        | inl e ↦ e
        | inr n ↦ any-HasNever n
      ] in
      rw
        (validate-never name (sort_dedup addresses)
          (any-sort_dedup is_never_allowed_ip addresses ∙ never))
        refl
