-- ===== src/Proxy/Attribution.antt =====
-- The source of a client, of src/proxy/attribution.rs.
pub mod Identified
use Prim.Native.Char.{Char, code}
use Prim.Native.String
use my_ai_gateway.Prelude.{
  ℕ, Bool, true, false, not, ◌||◌, Option, none, some, String, ◌==◌, starts_with, List, [], ◌∷◌,
  eqb, and_then, if◌then◌else◌, find,
}
use mathlib.Core.Option
use my_ai_gateway.Prelude.Text.{trim, trim_start, is_whitespace, trim_end_matches}
use my_ai_gateway.Auth.{HeaderMap}
use my_ai_gateway.Auth.Identity.{AuthIdentity, default_client_source}

-- `split_once('(')`, its first part, or the whole text.
unfoldable pub before_comment : String → String
before_comment String.[] = String.[]
before_comment (String.◌∷◌ c s) =
    let rest = before_comment s in if eqb (code c) b'(' then String.[] else String.◌∷◌ c rest

unfoldable pub until_whitespace : String → String
unfolding is_whitespace
until_whitespace String.[] = String.[]
until_whitespace (String.◌∷◌ c s) =
    let rest = until_whitespace s in if is_whitespace (code c) then String.[] else String.◌∷◌ c rest

abbrev pub non_empty : String → Option String
non_empty s = if s == "" then none else some s

-- `split_whitespace().next()`.
unfoldable pub first_word : String → Option String
unfolding trim_start until_whitespace
first_word s = non_empty (until_whitespace (trim_start s))

unfoldable pub known_client_user_agents : List (String × String)
known_client_user_agents =
    ("kimi-code-cli", "kimi-code-cli")
    ∷ ("kimi-code", "kimi-code")
    ∷ ("kimi_code", "kimi-code")
    ∷ ("codex_app_server_daemon", "codex-cli")
    ∷ ("codex_cli_rs", "codex-cli")
    ∷ ("AsyncAnthropic/", "anthropic-sdk")
    ∷ ("Anthropic/", "anthropic-sdk")
    ∷ ("AsyncOpenAI/", "openai-sdk")
    ∷ ("OpenAI/", "openai-sdk")
    ∷ []

unfoldable pub label_of : String → List (String × String) → Option String
label_of product [] = none
label_of product ((prefix, label) ∷ rest) =
    let later = label_of product rest in
    if product == prefix || starts_with product prefix then some label else later

unfoldable pub known_product : String → Option String
unfolding label_of known_client_user_agents
known_product product = if product == "" then none else label_of product known_client_user_agents

unfoldable pub known_client_user_agent : String → Option String
unfolding before_comment first_word trim_end_matches known_product
known_client_user_agent user_agent =
    and_then (first_word (before_comment user_agent))
      (λ word. known_product (trim_end_matches b'/' word))

-- The text of a header, trimmed, where it is not empty.
unfoldable pub header_text : HeaderMap → String → Option String
unfolding trim
header_text headers name = and_then (headers name) (λ value. non_empty (trim value))

abbrev pub or_unknown : Option String → String
or_unknown none = "unknown"
or_unknown (some product) = product

unfoldable pub of_identity_or_agent : HeaderMap → Option AuthIdentity → String
unfolding default_client_source known_client_user_agent header_text
of_identity_or_agent headers (some identity) = default_client_source identity
of_identity_or_agent headers none =
    or_unknown (and_then (header_text headers "user-agent") known_client_user_agent)

unfoldable pub declared_or_identified : HeaderMap → Option AuthIdentity → Option String → String
unfolding of_identity_or_agent
declared_or_identified headers identity none = of_identity_or_agent headers identity
declared_or_identified headers identity (some value) = value

unfoldable pub client_source_from_headers : HeaderMap → Option AuthIdentity → String
unfolding header_text declared_or_identified
client_source_from_headers headers identity =
    declared_or_identified headers identity (header_text headers "x-client-source")
