-- ===== src/Tests/SourceUrl.antt =====
-- The theorems on src/source_url.rs at concrete inputs, with parsers that know a few texts.
use my_ai_gateway.Prelude.{inr, none, some, refl, String, ◌==◌, List, [], ◌∷◌, if◌then◌else◌}
use my_ai_gateway.SourceUrl.Address.Never.{instance_metadata, first, later}
use my_ai_gateway.SourceUrl.Address.{IpAddr, v4, octets, same_ip}
use my_ai_gateway.SourceUrl.Policy.{
  Url, Parsers, SourceUrlPolicy, Checked, err, disallowed_target, resolve, follows,
}
use my_ai_gateway.SourceUrl.Policy.Addresses.{IsAnswer, resolve-IsAnswer, resolve-never}
use my_ai_gateway.SourceUrl.Redirect.{begun, redirected, IsSafeChain, Chain-safe}

abbrev parsers : Parsers IpAddr
parsers = record {
  parse_url = λ s. none;
  parse_ip = λ s. if s == "8.8.8.8" then some (v4 (octets 8 8 8 8)) else none;
  parse_network = λ s. none;
  network_contains = λ network ip. same_ip network ip;
}

abbrev policy : SourceUrlPolicy IpAddr
policy = record { allowed_hosts = "local" ∷ []; allowed_ips = []; allowed_networks = [] }

abbrev page : String → Url
page path = record {
  href = path;
  scheme = "https";
  host_str = some "api.example.com";
  username = "";
  password = none;
  port = none;
  port_or_known_default = some 443;
  path = path;
  query = none;
  fragment = none;
}

resolve-IsAnswer_example : IsAnswer parsers policy "api.example.com" (v4 (octets 8 8 8 8) ∷ [])
unfolding resolve
resolve-IsAnswer_example =
    resolve-IsAnswer parsers policy "api.example.com"
      (some (v4 (octets 8 8 8 8) ∷ v4 (octets 8 8 8 8) ∷ [])) (v4 (octets 8 8 8 8) ∷ []) refl

-- A public address does not save the metadata service beside it, even where the host is allowed.
resolve-never_example :
    Path
      (Checked (List IpAddr))
      (resolve parsers policy "local"
        (some (v4 (octets 8 8 8 8) ∷ v4 (octets 169 254 169 254) ∷ [])))
      (err disallowed_target)
resolve-never_example =
    resolve-never parsers policy "local" (v4 (octets 8 8 8 8) ∷ v4 (octets 169 254 169 254) ∷ [])
      (inr (later (v4 (octets 8 8 8 8)) (first [] instance_metadata)))

Chain-safe_example : IsSafeChain parsers policy (page "/a") (page "/a" ∷ page "/b" ∷ [])
unfolding follows
Chain-safe_example = Chain-safe parsers policy (redirected (page "/b") begun refl)
