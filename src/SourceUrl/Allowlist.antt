-- ===== src/SourceUrl/Allowlist.antt =====
-- The allowlist of src/source_url.rs.
use my_ai_gateway.Prelude.{
  Bool, not, ◌||◌, Option, none, some, String, ◌==◌, List, [], ◌∷◌, is_some, if◌then◌else◌,
}
use my_ai_gateway.Prelude.Text.{contains, trim, split, concat}
use my_ai_gateway.SourceUrl.Policy.{
  Url, Parsers, SourceUrlPolicy, Checked, ok, err, invalid_allowlist, both, normalize_host,
}

module _ {N : Type 0} (parsers : Parsers N) where
  abbrev empty_policy : SourceUrlPolicy N
  empty_policy = record { allowed_hosts = []; allowed_ips = []; allowed_networks = [] }

  -- Whether the URL of a host entry holds more than a host.
  unfoldable has_more : String → Url → Bool
  unfolding contains
  has_more entry url =
      is_some url.port
      || not (url.username == "")
      || is_some url.password
      || not (url.path == "/")
      || is_some url.query
      || is_some url.fragment
      || contains b'*' entry

  unfoldable add_host : String → Option Url → SourceUrlPolicy N → Checked (SourceUrlPolicy N)
  unfolding has_more normalize_host
  add_host entry none policy = err invalid_allowlist
  add_host entry (some url) policy = elim url.host_str [
    | none ↦ err invalid_allowlist
    | some host ↦
        if has_more entry url
        then err invalid_allowlist
        else ok (record policy { allowed_hosts = normalize_host host ∷ policy.allowed_hosts })
  ]

  unfoldable add_entry : String → SourceUrlPolicy N → Checked (SourceUrlPolicy N)
  unfolding contains add_host concat
  add_entry entry policy =
      if contains b'/' entry
      then elim (parsers.parse_network entry) [
        | none ↦ err invalid_allowlist
        | some network ↦ ok (record policy { allowed_networks = network ∷ policy.allowed_networks })
      ]
      else elim (parsers.parse_ip entry) [
        | some ip ↦ ok (record policy { allowed_ips = ip ∷ policy.allowed_ips })
        | none ↦ add_host entry (parsers.parse_url (concat ("http://" ∷ entry ∷ "/" ∷ []))) policy
      ]

  unfoldable add_entries : List String → SourceUrlPolicy N → Checked (SourceUrlPolicy N)
  unfolding add_entry trim
  add_entries [] policy = ok policy
  add_entries (entry ∷ entries) policy =
      both (if trim entry == "" then ok policy else add_entry (trim entry) policy)
        (add_entries entries)

  unfoldable pub from_allowlist : String → Checked (SourceUrlPolicy N)
  unfolding add_entries split
  from_allowlist value = add_entries (split b',' value) empty_policy
