-- ===== src/SourceUrl/Policy.antt =====
-- `SourceUrlPolicy` of src/source_url.rs. The crates url and ipnet, and the text form of addresses, are
-- parameters.
pub mod Addresses
use my_ai_gateway.Prelude.{
  ℕ, Bool, true, false, not, ◌&&◌, ◌||◌, Option, none, some, String, ◌==◌, List, [], ◌∷◌, any, all,
  is_empty, is_some, eqb, length, leb, ltb, is_some_and, unwrap_or, and_then, if◌then◌else◌,
}
use my_ai_gateway.Prelude.Text.{
  to_ascii_lowercase, ends_with, contains, strip_prefix, strip_suffix, trim_end_matches, trim,
  split, concat,
}
use my_ai_gateway.SourceUrl.Address.{IpAddr, v4, v6, is_never_allowed_ip, is_public_ip, same_ip}

pub data SourceUrlPolicyError : Type 0 where
  invalid_allowlist invalid_url disallowed_target dns_resolution_failed no_resolved_addresses :
      SourceUrlPolicyError
  redirect_blocked : SourceUrlPolicyError

unfoldable pub is_policy_violation : SourceUrlPolicyError → Bool
is_policy_violation disallowed_target = true
is_policy_violation redirect_blocked = true
is_policy_violation invalid_url = true
is_policy_violation _ = false

pub data Checked {ℓ} (A : Type ℓ) : Type ℓ where
  ok : A → Checked A
  err : SourceUrlPolicyError → Checked A

-- What the accessors of `url::Url` answer; `href` is its whole text.
pub record Url : Type 0 where
  pub href : String
  pub scheme : String
  pub host_str : Option String
  pub username : String
  pub password : Option String
  pub port : Option ℕ
  pub port_or_known_default : Option ℕ
  pub path : String
  pub query : Option String
  pub fragment : Option String

-- `N` is `IpNet`.
pub record Parsers (N : Type 0) : Type 0 where
  pub parse_url : String → Option Url
  pub parse_ip : String → Option IpAddr
  pub parse_network : String → Option N
  pub network_contains : N → IpAddr → Bool

pub record SourceUrlPolicy (N : Type 0) : Type 0 where
  pub allowed_hosts : List String
  pub allowed_ips : List IpAddr
  pub allowed_networks : List N

abbrev pub max_redirects : ℕ
max_redirects = 5

unfoldable pub normalize_host : String → String
unfolding to_ascii_lowercase strip_prefix strip_suffix trim_end_matches
normalize_host name =
    let host = trim_end_matches b'.' name in
    to_ascii_lowercase (unwrap_or host (and_then (strip_prefix "[" host) (strip_suffix "]")))

unfoldable pub is_local_hostname : String → Bool
unfolding ends_with contains
is_local_hostname host =
    host == "localhost"
    || ends_with host ".localhost"
    || ends_with host ".local"
    || ends_with host ".internal"
    || ends_with host ".home"
    || ends_with host ".lan"
    || not (contains b'.' host)

unfoldable pub is_metadata_hostname : String → Bool
is_metadata_hostname host =
    host == "metadata.google.internal"
    || host == "metadata.aws.internal"
    || host == "instance-data.ec2.internal"
    || host == "metadata.azure.internal"

abbrev same_text : Option String → Option String → Bool
same_text none none = true
same_text (some a) (some b) = a == b
same_text _ _ = false

abbrev same_port : Option ℕ → Option ℕ → Bool
same_port none none = true
same_port (some a) (some b) = eqb a b
same_port _ _ = false

unfoldable pub same_origin : Url → Url → Bool
same_origin left right =
    left.scheme == right.scheme
    && same_text left.host_str right.host_str
    && same_port left.port_or_known_default right.port_or_known_default

abbrev pub both {ℓ κ} : {A : Type ℓ} {B : Type κ} → Checked A → (A → Checked B) → Checked B
both (ok a) f = f a
both (err e) f = err e

abbrev pub is_err {ℓ} : {A : Type ℓ} → Checked A → Bool
is_err (ok a) = false
is_err (err e) = true

-- `slice::first`.
abbrev pub first {ℓ} : {A : Type ℓ} → List A → Option A
first [] = none
first (x ∷ xs) = some x

-- The derived order of addresses.
abbrev before : IpAddr → IpAddr → Bool
before (v4 a) (v4 b) = ltb a b
before (v4 a) (v6 b) = true
before (v6 a) (v4 b) = false
before (v6 a) (v6 b) = ltb a b

unfoldable insert : IpAddr → List IpAddr → List IpAddr
insert ip [] = ip ∷ []
insert ip (x ∷ xs) =
    let rest = insert ip xs in
    if same_ip ip x then x ∷ xs else if before ip x then ip ∷ (x ∷ xs) else x ∷ rest

-- `sort_unstable` and `dedup`.
unfoldable pub sort_dedup : List IpAddr → List IpAddr
unfolding insert
sort_dedup [] = []
sort_dedup (ip ∷ ips) = insert ip (sort_dedup ips)

module _ {N : Type 0} (parsers : Parsers N) where
  unfoldable pub ip_is_allowed : SourceUrlPolicy N → IpAddr → Bool → Bool
  unfolding is_never_allowed_ip is_public_ip
  ip_is_allowed policy ip host_is_allowed =
      if is_never_allowed_ip ip
      then false
      else is_public_ip ip
        || host_is_allowed
        || any (same_ip ip) policy.allowed_ips
        || any (λ network. parsers.network_contains network ip) policy.allowed_networks

  unfoldable pub host_is_allowed : SourceUrlPolicy N → String → Bool
  host_is_allowed policy host = any (λ allowed. allowed == host) policy.allowed_hosts

  unfoldable pub validate_ip : SourceUrlPolicy N → IpAddr → Bool → Checked {0} Unit
  unfolding ip_is_allowed
  validate_ip policy ip allowed =
      if ip_is_allowed policy ip allowed then ok tt else err disallowed_target

  -- The checks of a host name that is no address, or of the address.
  unfoldable pub validate_host : SourceUrlPolicy N → String → Checked {0} Unit
  unfolding is_metadata_hostname validate_ip is_local_hostname host_is_allowed
  validate_host policy host =
      if is_metadata_hostname host then err disallowed_target else elim (parsers.parse_ip host) [
        | some ip ↦ validate_ip policy ip false
        | none ↦
            if is_local_hostname host && not (host_is_allowed policy host)
            then err disallowed_target
            else ok tt
      ]

  unfoldable pub is_plain : Url → Bool
  is_plain url =
      (url.scheme == "http" || url.scheme == "https")
      && url.username == ""
      && not (is_some url.password)
      && not (is_some_and (λ p. eqb p 0) url.port)

  unfoldable pub validate_url_common : SourceUrlPolicy N → Url → Checked {0} Unit
  unfolding is_plain validate_host normalize_host
  validate_url_common policy url = elim url.host_str [
    | none ↦ err invalid_url
    | some host ↦
        if is_plain url then validate_host policy (normalize_host host) else err invalid_url
  ]

  unfoldable pub validate_request_url : SourceUrlPolicy N → Url → Checked {0} Unit
  unfolding validate_url_common
  validate_request_url policy url =
      both (validate_url_common policy url)
        (λ _. if is_some url.fragment then err invalid_url else ok tt)

  unfoldable pub validate_base_url : SourceUrlPolicy N → String → Checked Url
  unfolding validate_url_common
  validate_base_url policy value = elim (parsers.parse_url value) [
    | none ↦ err invalid_url
    | some url ↦
        both (validate_url_common policy url)
          (λ _. if is_some url.query || is_some url.fragment then err invalid_url else ok url)
  ]

  unfoldable pub parse_request_url : SourceUrlPolicy N → String → Checked Url
  unfolding validate_request_url
  parse_request_url policy value = elim (parsers.parse_url value) [
    | none ↦ err invalid_url
    | some url ↦ both (validate_request_url policy url) (λ _. ok url)
  ]

  unfoldable pub validate_resolved_addresses :
      SourceUrlPolicy N → String → List IpAddr → Checked {0} Unit
  unfolding normalize_host is_metadata_hostname ip_is_allowed host_is_allowed
  validate_resolved_addresses policy name addresses =
      let host = normalize_host name in
      if is_empty addresses
      then err no_resolved_addresses
      else if is_metadata_hostname host
      then err disallowed_target
      else if all (λ ip. ip_is_allowed policy ip (host_is_allowed policy host)) addresses
      then ok tt
      else err disallowed_target

  -- `Resolve::resolve`, of what `lookup_host` answers.
  unfoldable pub resolve : SourceUrlPolicy N → String → Option (List IpAddr) → Checked (List IpAddr)
  unfolding validate_resolved_addresses sort_dedup
  resolve policy name none = err dns_resolution_failed
  resolve policy name (some addresses) =
      both (validate_resolved_addresses policy name (sort_dedup addresses))
        (λ _. ok (sort_dedup addresses))

  -- `redirect_policy`: whether a redirect to the URL is followed, after the URLs that were requested.
  unfoldable pub follows : SourceUrlPolicy N → List Url → Url → Bool
  unfolding same_origin validate_request_url
  follows policy previous url = not (
      ltb max_redirects (length previous)
      || any (λ p. p.href == url.href) previous
      || not (is_some_and (λ initial. same_origin initial url) (first previous))
      || is_err (validate_request_url policy url))
