-- ===== src/Proxy/Attribution/Identified.antt =====
-- The source of a client whose identity is known, of src/proxy/attribution.rs.
use my_ai_gateway.Prelude.{◌≡◌, refl, Option, none, some, String, and_then, ap, ◌∙◌}
use my_ai_gateway.Prelude.Text.{trim}
use my_ai_gateway.Auth.{HeaderMap}
use my_ai_gateway.Auth.Identity.{AuthIdentity}
use my_ai_gateway.Proxy.Attribution.{
  header_text, non_empty, declared_or_identified, of_identity_or_agent, client_source_from_headers,
}

same_header :
    (headers other : HeaderMap) (name : String)
    → headers name ≡ other name
    → header_text headers name ≡ header_text other name
unfolding header_text
same_header headers other name e = ap (λ o. and_then o (λ value. non_empty (trim value))) e

no_other_header :
    (headers other : HeaderMap) (identity : AuthIdentity) (declared : Option String)
    → declared_or_identified headers (some identity) declared
      ≡ declared_or_identified other (some identity) declared
unfolding declared_or_identified of_identity_or_agent
no_other_header headers other identity none = refl
no_other_header headers other identity (some value) = refl

-- If the identity of a request is known, the source of its client depends on no header but
-- x-client-source: two requests of the same identity that agree on this header have the same source,
-- whatever their user agents.
pub client_source_from_headers-identified :
    (headers other : HeaderMap) (identity : AuthIdentity)
    → headers "x-client-source" ≡ other "x-client-source"
    → client_source_from_headers headers (some identity)
      ≡ client_source_from_headers other (some identity)
unfolding client_source_from_headers
client_source_from_headers-identified headers other identity e =
    ap (declared_or_identified headers (some identity))
      (same_header headers other "x-client-source" e)
    ∙ no_other_header headers other identity (header_text other "x-client-source")
