-- ===== src/Domain/Config/Validate.antt =====
-- `GatewayConfig::validate` of src/domain/config.rs. `test` says whether the build is a test build.
pub mod Accepted
pub mod Native
pub mod Calm
use my_ai_gateway.Prelude.{
  ℕ, ◌+◌, Bool, true, false, not, ◌&&◌, Option, none, some, String, ◌==◌, List, [], ◌∷◌, ◌++◌, map,
  if◌then◌else◌, is_some, unwrap_or,
}
use mathlib.Core.Option
use my_ai_gateway.Prelude.Text.{concat}
use my_ai_gateway.Prelude.Decimal.{decimal}
use my_ai_gateway.Domain.Protocol.{Protocol, same_protocol, display}
use my_ai_gateway.Domain.Config.{
  GatewayConfig, ProviderConfig, AccountConfig, RouteConfig, ModelCapabilityOverride,
  ProtocolCapabilityMatrix, ProtocolMode, is_mode, adapter_definition, provider, account,
}
use my_ai_gateway.Domain.Capability.{protocol_capability}
use my_ai_gateway.Domain.Config.Matrix.{
  Validity, ok, panics, err, validate_matrix, validate_override_matrix,
}

-- `name[index] (id)`.
abbrev pub numbered : String → ℕ → String → String
numbered name index id = concat (name ∷ "[" ∷ decimal index ∷ "] (" ∷ id ∷ ")" ∷ [])

-- The errors are collected in order. A panic ends the function.
unfoldable pub collect : List Validity → Option (List String)
collect [] = some []
collect (ok ∷ rest) = collect rest
collect (panics ∷ rest) = none
collect (err message ∷ rest) = Option.map (λ later. message ∷ later) (collect rest)

-- The endpoints, native protocols and matrix of the provider of an account, or none.
abbrev pub endpoints_of : Option ProviderConfig → List (Protocol × String)
endpoints_of none = []
endpoints_of (some p) = p.endpoints

abbrev pub native_of : Option ProviderConfig → List Protocol
native_of none = []
native_of (some p) = p.native_protocols

abbrev pub matrix_of : Option ProviderConfig → ProtocolCapabilityMatrix
matrix_of none = []
matrix_of (some p) = p.protocol_capabilities

module _ (test : Bool) where
  unfoldable pub override_checks :
      ProtocolCapabilityMatrix
      → List (Protocol × String)
      → List Protocol
      → String
      → List (String × ModelCapabilityOverride)
      → List Validity
  unfolding validate_override_matrix
  override_checks base endpoints native scope [] = []
  override_checks base endpoints native scope ((model, config) ∷ rest) =
      validate_override_matrix test endpoints native
        (concat (scope ∷ ".model_overrides." ∷ model ∷ [])) config.protocol_capabilities base
      ∷ override_checks base endpoints native scope rest

  unfoldable pub provider_checks : ℕ → List ProviderConfig → List Validity
  unfolding validate_matrix override_checks
  provider_checks index [] = []
  provider_checks index (p ∷ rest) =
      validate_matrix test p.endpoints p.native_protocols (numbered "providers" index p.id)
        p.protocol_capabilities
      ∷ (override_checks p.protocol_capabilities p.endpoints p.native_protocols
            (numbered "providers" index p.id) p.model_overrides
          ++ provider_checks (index + 1) rest)

  -- `extend`: the entries of the account come first, so that they replace those of the base.
  unfoldable pub account_checks : Option ProviderConfig → ℕ → AccountConfig → List Validity
  unfolding validate_override_matrix override_checks
  account_checks p index a =
      validate_override_matrix test (endpoints_of p) (native_of p) (numbered "accounts" index a.id)
        a.protocol_capabilities (matrix_of p)
      ∷ override_checks (a.protocol_capabilities ++ matrix_of p) (endpoints_of p) (native_of p)
          (numbered "accounts" index a.id) a.model_overrides

  module _ (config : GatewayConfig) where
    unfoldable pub accounts_checks : ℕ → List AccountConfig → List Validity
    unfolding account_checks provider
    accounts_checks index [] = []
    accounts_checks index (a ∷ rest) =
        account_checks (provider config a.provider_id) index a ++ accounts_checks (index + 1) rest

    -- A route whose provider was found.
    module _ (route : RouteConfig) (scope : String) (p : ProviderConfig) where
      unfoldable pub adapter_errors : String → Protocol → List String
      unfolding adapter_definition
      adapter_errors place protocol = elim route.adapter [
        | none ↦ concat (place ∷ ".adapter: adapter route requires adapter" ∷ []) ∷ []
        | some name ↦ elim (adapter_definition test name) [
          | none ↦ concat (place ∷ ".adapter: unknown adapter '" ∷ name ∷ "'" ∷ []) ∷ []
          | some definition ↦
              if same_protocol definition.from_protocol protocol
              then []
              else concat (
                  place
                  ∷ ".adapter: adapter '"
                  ∷ name
                  ∷ "' accepts "
                  ∷ display definition.from_protocol
                  ∷ ", not "
                  ∷ display protocol
                  ∷ [])
                ∷ []
        ]
      ]

      unfoldable pub mode_errors : String → Protocol → List String
      unfolding protocol_capability adapter_errors
      mode_errors place protocol =
          if route.mode == "native"
          then (if is_mode
                (protocol_capability config p.id (some route.primary_account_id) route.model
                  protocol).mode
                ProtocolMode.native
              then []
              else concat (place ∷ ": native route requires a native protocol capability" ∷ [])
                ∷ [])
          else if route.mode == "adapter"
          then adapter_errors place protocol
          else if route.mode == "unsupported"
          then (if is_some route.adapter
              then concat (place ∷ ".adapter: unsupported route cannot set adapter" ∷ []) ∷ []
              else [])
          else concat (
              scope ∷ ".mode: unknown route mode '" ∷ route.mode
              ∷ "' (expected native, adapter, or unsupported)" ∷ [])
            ∷ []

      unfoldable pub protocols_errors : ℕ → List Protocol → List String
      unfolding mode_errors
      protocols_errors index [] = []
      protocols_errors index (protocol ∷ rest) =
          mode_errors (numbered (concat (scope ∷ ".protocols" ∷ [])) index (display protocol))
            protocol
          ++ protocols_errors (index + 1) rest

      unfoldable pub cross_errors :
          String → ProviderConfig → AccountConfig → List Protocol → List String
      unfolding protocol_capability
      cross_errors place q a [] = []
      cross_errors place q a (protocol ∷ rest) =
          (if is_mode (protocol_capability config q.id (some a.id) route.model protocol).mode
              ProtocolMode.native
            then []
            else concat (
                place
                ∷ ": cross-provider fallback requires native protocol "
                ∷ display protocol
                ∷ " on provider '"
                ∷ q.id
                ∷ "'"
                ∷ [])
              ∷ [])
          ++ cross_errors place q a rest

      unfoldable pub fallback_errors : String → String → List String
      unfolding account provider cross_errors
      fallback_errors place fallback = elim (account config fallback) [
        | none ↦ concat (place ∷ ": unknown account" ∷ []) ∷ []
        | some a ↦
            if a.provider_id == p.id
            then []
            else ((if route.mode == "adapter"
                  then concat (place ∷ ": adapter route cannot have cross-provider fallback" ∷ [])
                    ∷ []
                  else [])
                ++ elim (provider config a.provider_id) [
                  | none ↦ concat (place ∷ ": unknown provider '" ∷ a.provider_id ∷ "'" ∷ []) ∷ []
                  | some q ↦ cross_errors place q a route.protocols
                ])
      ]

      unfoldable pub fallbacks_errors : ℕ → List String → List String
      unfolding fallback_errors
      fallbacks_errors index [] = []
      fallbacks_errors index (fallback ∷ rest) =
          fallback_errors (numbered (concat (scope ∷ ".fallback_accounts" ∷ [])) index fallback)
            fallback
          ++ fallbacks_errors (index + 1) rest

      unfoldable pub found_errors : List String
      unfolding protocols_errors fallbacks_errors
      found_errors =
          elim route.protocols [
            | [] ↦ concat (scope ∷ ".protocols: must contain at least one protocol" ∷ []) ∷ []
            | protocol ∷ rest ↦ []
          ]
          ++ (protocols_errors 0 route.protocols ++ fallbacks_errors 0 route.fallback_accounts)

    unfoldable pub route_errors : ℕ → RouteConfig → List String
    unfolding provider found_errors
    route_errors index route = elim (provider config route.provider_id) [
      | none ↦
          concat (
            numbered "routes" index route.id
            ∷ ".provider_id: unknown provider "
            ∷ route.provider_id
            ∷ [])
          ∷ []
      | some p ↦ found_errors route (numbered "routes" index route.id) p
    ]

    unfoldable pub routes_errors : ℕ → List RouteConfig → List String
    unfolding route_errors
    routes_errors index [] = []
    routes_errors index (route ∷ rest) = route_errors index route ++ routes_errors (index + 1) rest

    unfoldable pub checks : List Validity
    unfolding provider_checks accounts_checks routes_errors
    checks =
        provider_checks 0 config.providers
        ++ (accounts_checks 0 config.accounts ++ map err (routes_errors 0 config.routes))

    -- The errors: none of them is `Ok(())`. The outer `none` is a panic.
    unfoldable pub validate : Option (List String)
    unfolding checks collect
    validate = collect checks
