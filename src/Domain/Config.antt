-- ===== src/Domain/Config.antt =====
-- The gateway configuration of src/domain/config.rs and the lookups in it. A `HashMap` is an association
-- list in the map's iteration order.
pub mod Matrix
pub mod Validate
use my_ai_gateway.Prelude.{
  ℕ, Bool, true, false, ◌||◌, Option, none, some, String, ◌==◌, starts_with, List, [], ◌∷◌, find,
  if◌then◌else◌, is_some_and, or_else,
}
use my_ai_gateway.Prelude.Text.{strip_star}
use my_ai_gateway.Domain.Protocol.{Protocol, openai_responses, anthropic_messages}

pub data ProtocolMode : Type 0 where
  native adapter unsupported : ProtocolMode

-- The derived `PartialEq`.
abbrev pub is_mode : ProtocolMode → ProtocolMode → Bool
is_mode ProtocolMode.native ProtocolMode.native = true
is_mode ProtocolMode.adapter ProtocolMode.adapter = true
is_mode ProtocolMode.unsupported ProtocolMode.unsupported = true
is_mode _ _ = false

pub record ProtocolCapability : Type 0 where
  pub mode : ProtocolMode
  pub source_protocol : Option Protocol
  pub adapter : Option String

abbrev pub native_capability : ProtocolCapability
native_capability = record { mode = native; source_protocol = none; adapter = none }

abbrev pub unsupported_capability : ProtocolCapability
unsupported_capability = record { mode = unsupported; source_protocol = none; adapter = none }

abbrev pub ProtocolCapabilityMatrix : Type 0
ProtocolCapabilityMatrix = List (Protocol × ProtocolCapability)

pub data CapabilityMode : Type 0 where
  native translated unsupported : CapabilityMode

pub record Capabilities : Type 0 where
  pub streaming : CapabilityMode
  pub tools : CapabilityMode
  pub tool_streaming : CapabilityMode
  pub thinking : CapabilityMode
  pub web_search : CapabilityMode
  pub file_search : CapabilityMode
  pub vision : CapabilityMode
  pub usage : CapabilityMode

-- `Capabilities::default`.
abbrev pub default_capabilities : Capabilities
default_capabilities = record {
  streaming = unsupported;
  tools = unsupported;
  tool_streaming = unsupported;
  thinking = unsupported;
  web_search = unsupported;
  file_search = unsupported;
  vision = unsupported;
  usage = unsupported;
}

pub record ModelCapabilityOverride : Type 0 where
  pub protocol_capabilities : ProtocolCapabilityMatrix
  pub capabilities : Option Capabilities

pub record ProviderConfig : Type 0 where
  pub id : String
  pub name : String
  pub base_url : String
  pub models : List String
  pub native_protocols : List Protocol
  pub endpoints : List (Protocol × String)
  pub capabilities : Capabilities
  pub protocol_capabilities : ProtocolCapabilityMatrix
  pub model_overrides : List (String × ModelCapabilityOverride)

pub record AccountConfig : Type 0 where
  pub id : String
  pub provider_id : String
  pub display_name : String
  pub credential_env : Option String
  pub credential_ciphertext : Option String
  pub credential : Option String
  pub enabled : Bool
  pub weight : ℕ  -- u32
  pub protocol_capabilities : ProtocolCapabilityMatrix
  pub capabilities : Option Capabilities
  pub model_overrides : List (String × ModelCapabilityOverride)
  pub model_map : List (String × String)

pub record RouteConfig : Type 0 where
  pub id : String
  pub model : String
  pub provider_id : String
  pub protocols : List Protocol
  pub primary_account_id : String
  pub fallback_accounts : List String
  pub strategy : String
  pub mode : String
  pub adapter : Option String
  pub allow_lossy_conversion : Bool

pub record GatewayConfig : Type 0 where
  pub listen_addr : String
  pub providers : List ProviderConfig
  pub accounts : List AccountConfig
  pub routes : List RouteConfig

pub record AdapterDefinition : Type 0 where
  pub name : String
  pub from_protocol : Protocol
  pub to_protocol : Protocol
  pub features : Capabilities

abbrev kimi_responses_adapter : AdapterDefinition
kimi_responses_adapter = record {
  name = "kimi_responses_adapter";
  from_protocol = openai_responses;
  to_protocol = anthropic_messages;
  features = record {
    streaming = translated;
    tools = translated;
    tool_streaming = translated;
    thinking = translated;
    web_search = translated;
    file_search = unsupported;
    vision = translated;
    usage = translated;
  };
}

-- The registry of a test build has one adapter, that of a production build (`false`) has none.
unfoldable pub adapter_registry : Bool → List AdapterDefinition
adapter_registry test = if test then kimi_responses_adapter ∷ [] else []

unfoldable pub adapter_definition : Bool → String → Option AdapterDefinition
adapter_definition test name = find (λ d. d.name == name) (adapter_registry test)

unfoldable pub provider : GatewayConfig → String → Option ProviderConfig
provider config id = find (λ p. p.id == id) config.providers

unfoldable pub account : GatewayConfig → String → Option AccountConfig
account config id = find (λ a. a.id == id) config.accounts

-- `HashMap::get` at a text key.
abbrev pub get_text {ℓ} : {A : Type ℓ} → String → List (String × A) → Option A
get_text key [] = none
get_text key ((k, v) ∷ rest) = if k == key then some v else get_text key rest

-- `pattern == "*"`, or a pattern that ends with '*' and whose rest begins the model.
unfoldable pub matches_pattern : String → String → Bool
matches_pattern pattern model =
    pattern == "*" || is_some_and (λ p. starts_with model p) (strip_star pattern)

-- The first pattern that matches, in the iteration order of the map.
unfoldable pub find_pattern :
    String → List (String × ModelCapabilityOverride) → Option ModelCapabilityOverride
find_pattern model [] = none
find_pattern model ((pattern, value) ∷ rest) =
    if matches_pattern pattern model then some value else find_pattern model rest

unfoldable pub find_model_override :
    List (String × ModelCapabilityOverride) → String → Option ModelCapabilityOverride
find_model_override overrides model =
    or_else (get_text model overrides) (find_pattern model overrides)
