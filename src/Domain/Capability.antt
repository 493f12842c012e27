-- ===== src/Domain/Capability.antt =====
-- The effective capability of a model on an account: `protocol_capability` and `capabilities` of
-- src/domain/config.rs.
pub mod Precedence
use my_ai_gateway.Prelude.{
  Bool, true, false, ◌&&◌, Option, none, some, String, List, if◌then◌else◌, and_then, is_some,
}
use my_ai_gateway.Domain.Protocol.{Protocol, get_protocol, contains_protocol}
use my_ai_gateway.Domain.Config.{
  GatewayConfig, ProviderConfig, AccountConfig, ModelCapabilityOverride, ProtocolCapability,
  Capabilities, native_capability, unsupported_capability, default_capabilities, provider, account,
  find_model_override,
}

-- The capability that a model override declares for the protocol.
abbrev pub model_protocol :
    List (String × ModelCapabilityOverride) → String → Protocol → Option ProtocolCapability
model_protocol overrides model protocol =
    and_then (find_model_override overrides model)
      (λ m. get_protocol protocol m.protocol_capabilities)

abbrev pub model_capabilities :
    List (String × ModelCapabilityOverride) → String → Option Capabilities
model_capabilities overrides model =
    and_then (find_model_override overrides model) (λ m. m.capabilities)

-- The last tests, on the provider.
unfoldable pub provider_default : Option ProviderConfig → Protocol → ProtocolCapability
provider_default none protocol = unsupported_capability
provider_default (some p) protocol = elim (get_protocol protocol p.protocol_capabilities) [
  | some value ↦ value
  | none ↦
      if contains_protocol protocol p.native_protocols
        && is_some (get_protocol protocol p.endpoints)
      then native_capability
      else unsupported_capability
]

unfoldable pub account_default :
    Option AccountConfig → Option ProviderConfig → Protocol → ProtocolCapability
unfolding provider_default
account_default none p protocol = provider_default p protocol
account_default (some a) p protocol = elim (get_protocol protocol a.protocol_capabilities) [
  | some value ↦ value
  | none ↦ provider_default p protocol
]

unfoldable pub provider_model :
    Option AccountConfig → Option ProviderConfig → String → Protocol → ProtocolCapability
unfolding account_default
provider_model a none model protocol = account_default a none protocol
provider_model a (some p) model protocol = elim (model_protocol p.model_overrides model protocol) [
  | some value ↦ value
  | none ↦ account_default a (some p) protocol
]

unfoldable pub account_model :
    Option AccountConfig → Option ProviderConfig → String → Protocol → ProtocolCapability
unfolding provider_model
account_model none p model protocol = provider_model none p model protocol
account_model (some a) p model protocol = elim (model_protocol a.model_overrides model protocol) [
  | some value ↦ value
  | none ↦ provider_model (some a) p model protocol
]

unfoldable pub protocol_capability :
    GatewayConfig → String → Option String → String → Protocol → ProtocolCapability
unfolding account_model
protocol_capability config provider_id account_id model protocol =
    account_model (and_then account_id (λ id. account config id)) (provider config provider_id)
      model protocol

-- `capabilities`, with its returns in the order of the source.
unfoldable pub capabilities_of :
    Option AccountConfig → Option ProviderConfig → String → Capabilities
capabilities_of a p model =
    let from_provider : Capabilities = elim p [
      | none ↦ default_capabilities
      | some p' ↦ p'.capabilities
    ] in
    let from_account : Capabilities = elim (and_then a (λ a'. a'.capabilities)) [
      | some value ↦ value
      | none ↦ from_provider
    ] in
    let from_provider_model : Capabilities =
      elim (and_then p (λ p'. model_capabilities p'.model_overrides model)) [
        | some value ↦ value
        | none ↦ from_account
      ] in
    elim (and_then a (λ a'. model_capabilities a'.model_overrides model)) [
      | some value ↦ value
      | none ↦ from_provider_model
    ]

unfoldable pub capabilities : GatewayConfig → String → Option String → String → Capabilities
unfolding capabilities_of
capabilities config provider_id account_id model =
    capabilities_of (and_then account_id (λ id. account config id)) (provider config provider_id)
      model
