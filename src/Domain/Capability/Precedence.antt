-- ===== src/Domain/Capability/Precedence.antt =====
-- The precedence of the capability declarations in src/domain/config.rs.
use my_ai_gateway.Prelude.{
  ◌≡◌, ◌&&◌, Option, none, some, String, List, [], ◌∷◌, and_then, unwrap_or, is_some, if◌then◌else◌,
  arith,
}
use my_ai_gateway.Domain.Protocol.{Protocol, get_protocol, contains_protocol}
use my_ai_gateway.Domain.Config.{
  GatewayConfig, ProviderConfig, ProtocolCapability, native_capability, unsupported_capability,
  provider, account,
}
use my_ai_gateway.Domain.Capability.{model_protocol, protocol_capability}

-- The first declaration of a list of layers.
abbrev pub first_some {ℓ} : {A : Type ℓ} → List (Option A) → Option A
first_some [] = none
first_some (none ∷ rest) = first_some rest
first_some (some a ∷ rest) = some a

-- The legacy fields: a native protocol with an endpoint.
abbrev pub legacy : ProviderConfig → Protocol → Option ProtocolCapability
legacy p protocol =
    if contains_protocol protocol p.native_protocols && is_some (get_protocol protocol p.endpoints)
    then some native_capability
    else none

-- The effective declaration is the first of: the account's for the model, the provider's for the model,
-- the account's, the provider's, the legacy fields; and otherwise the protocol is unsupported.
pub protocol_capability-first :
    (config : GatewayConfig) (provider_id : String) (account_id : Option String) (model : String)
    (protocol : Protocol)
    → let a = and_then account_id (λ id. account config id) in
      let p = provider config provider_id in
      protocol_capability config provider_id account_id model protocol
      ≡ unwrap_or unsupported_capability (
          first_some (
            and_then a (λ a'. model_protocol a'.model_overrides model protocol)
            ∷ and_then p (λ p'. model_protocol p'.model_overrides model protocol)
            ∷ and_then a (λ a'. get_protocol protocol a'.protocol_capabilities)
            ∷ and_then p (λ p'. get_protocol protocol p'.protocol_capabilities)
            ∷ and_then p (λ p'. legacy p' protocol)
            ∷ []))
unfolding protocol_capability
protocol_capability-first config provider_id account_id model protocol = ground arith
