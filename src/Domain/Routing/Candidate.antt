-- ===== src/Domain/Routing/Candidate.antt =====
-- `RouteResolver::resolve_candidate` of src/domain/routing.rs: one configured route for a protocol and a
-- model. `test` says whether the build is a test build, which decides the adapters that exist.
pub mod Sound
pub mod Progress
pub mod Validated
use my_ai_gateway.Prelude.{
  Bool, true, false, not, ◌&&◌, ◌||◌, Option, none, some, String, ◌==◌, List, [], ◌∷◌,
  if◌then◌else◌, is_some_and,
}
use my_ai_gateway.Prelude.Text.{trim}
use my_ai_gateway.Domain.Protocol.{Protocol, same_protocol, display, get_protocol}
use my_ai_gateway.Domain.Config.{
  GatewayConfig, ProviderConfig, AccountConfig, RouteConfig, ProtocolCapability, ProtocolMode,
  Capabilities, AdapterDefinition, is_mode, adapter_definition, provider, account,
}
use my_ai_gateway.Domain.Capability.{protocol_capability, capabilities}
use my_ai_gateway.Domain.Intersection.{Intersected, intersect_capabilities}
use my_ai_gateway.Domain.Routing.{
  ResolvedRoute, Resolved, ok, err, ◌>>=◌, ◌>>◌, resolution_error, join_endpoint,
}

-- `ok_or_else`.
unfoldable pub ok_or {ℓ} : {A : Type ℓ} → Option A → String → List String → String → Resolved A
ok_or none code message route_id = err (resolution_error code message (some route_id))
ok_or (some a) code message route_id = ok a

-- An early return of the error.
unfoldable pub ensure : Bool → String → List String → String → Resolved (Unit {0})
ensure true code message route_id = ok tt
ensure false code message route_id = err (resolution_error code message (some route_id))

-- What the `match` on the mode of the route yields.
pub record Handling : Type 0 where
  pub upstream : Protocol
  pub mode : String
  pub adapter_name : Option String
  pub adapter_features : Option Capabilities

module _ (test : Bool) (config : GatewayConfig) (route : RouteConfig) where
  -- The loop over the fallback accounts.
  unfoldable pub check_fallbacks : ProviderConfig → List String → Resolved (Unit {0})
  check_fallbacks p [] = ok tt
  check_fallbacks p (fallback ∷ rest) = do
    a ←
        ok_or (account config fallback) "fallback_account_not_found"
          ("route references unknown fallback account '" ∷ fallback ∷ "'" ∷ []) route.id
    ensure (a.provider_id == p.id) "fallback_provider_mismatch"
        ("fallback account '" ∷ fallback ∷ "' belongs to provider '" ∷ a.provider_id ∷ "'" ∷ [])
        route.id
    check_fallbacks p rest

  module _ (protocol : Protocol) (model : String) where
    unfoldable pub handle_native : ProtocolCapability → Resolved Handling
    handle_native declared = do
      ensure (is_mode declared.mode ProtocolMode.native) "unsupported_protocol"
          ("protocol "
            ∷ display protocol
            ∷ " is not natively supported for model '"
            ∷ model
            ∷ "'"
            ∷ [])
          route.id
      ok (record {
        upstream = protocol;
        mode = "native";
        adapter_name = none;
        adapter_features = none;
      })

    unfoldable pub handle_adapter :
        ProviderConfig → AccountConfig → ProtocolCapability → Resolved Handling
    handle_adapter p a declared = do
      name ←
          ok_or route.adapter "adapter_missing" ("adapter route requires an adapter name" ∷ [])
            route.id
      definition ←
          ok_or (adapter_definition test name) "adapter_unknown"
            ("unknown adapter '" ∷ name ∷ "'" ∷ []) route.id
      ensure (same_protocol definition.from_protocol protocol) "adapter_direction_mismatch"
          ("adapter '"
            ∷ name
            ∷ "' accepts "
            ∷ display definition.from_protocol
            ∷ ", not "
            ∷ display protocol
            ∷ [])
          route.id
      ensure
          (is_mode declared.mode ProtocolMode.adapter
            && is_some_and (λ n. n == name) declared.adapter
            && is_some_and (λ s. same_protocol s definition.to_protocol) declared.source_protocol)
          "adapter_capability_mismatch"
          ("route adapter '" ∷ name ∷ "' does not match the effective protocol capability" ∷ [])
          route.id
      ensure
          (is_mode (protocol_capability config p.id (some a.id) model definition.to_protocol).mode
            ProtocolMode.native)
          "adapter_source_unsupported"
          ("adapter source protocol "
            ∷ display definition.to_protocol
            ∷ " is not natively available"
            ∷ [])
          route.id
      ok (record {
        upstream = definition.to_protocol;
        mode = "adapter";
        adapter_name = some name;
        adapter_features = some definition.features;
      })

    unfoldable pub handle_mode :
        ProviderConfig → AccountConfig → ProtocolCapability → Resolved Handling
    handle_mode p a declared =
        if route.mode == "native"
        then handle_native declared
        else if route.mode == "adapter"
        then handle_adapter p a declared
        else if route.mode == "unsupported"
        then err (
            resolution_error "unsupported_protocol"
              ("route '"
                ∷ route.id
                ∷ "' explicitly marks protocol "
                ∷ display protocol
                ∷ " unsupported"
                ∷ [])
              (some route.id))
        else err (
            resolution_error "invalid_route_mode" ("unknown route mode '" ∷ route.mode ∷ "'" ∷ [])
              (some route.id))

    -- `map_err` on the intersection.
    abbrev pub lossy_error :
        Intersected (Capabilities × List String) → Resolved (Capabilities × List String)
    lossy_error (Intersected.ok r) = ok r
    lossy_error (Intersected.err feature) = err (
        resolution_error "lossy_conversion_not_allowed"
          ("feature '" ∷ feature ∷ "' cannot be represented by adapter" ∷ []) (some route.id))

    -- The rest, from the lookup of the endpoint on.
    unfoldable pub finish_candidate :
        ProviderConfig → AccountConfig → Handling → Resolved ResolvedRoute
    finish_candidate p a handling = do
      endpoint ←
          ok_or (get_protocol handling.upstream p.endpoints) "endpoint_missing"
            ("provider '" ∷ p.id ∷ "' has no endpoint for " ∷ display handling.upstream ∷ [])
            route.id
      ensure (not (trim endpoint == "")) "endpoint_missing"
          ("provider '" ∷ p.id ∷ "' has an empty endpoint for " ∷ display handling.upstream ∷ [])
          route.id
      features ← lossy_error (
          intersect_capabilities (capabilities config p.id (some a.id) model)
            handling.adapter_features route.allow_lossy_conversion)
      ok (record {
        route_id = route.id;
        strategy = route.strategy;
        request_timeout_ms = none;
        max_retries = none;
        protocol = protocol;
        protocol_in = protocol;
        protocol_upstream = handling.upstream;
        model = model;
        requested_model = model;
        upstream_model_id = model;
        source_id = p.id;
        provider_id = p.id;
        primary_account_id = a.id;
        fallback_accounts = route.fallback_accounts;
        fallback_bindings = [];
        binding_id = none;
        upstream_endpoint = join_endpoint p.base_url endpoint;
        mode = handling.mode;
        adapter = handling.adapter_name;
        effective_capabilities = features.0;
        degraded_features = features.1;
        allow_lossy_conversion = route.allow_lossy_conversion;
      })

    unfoldable pub resolve_candidate : Resolved ResolvedRoute
    resolve_candidate = do
      p ←
          ok_or (provider config route.provider_id) "provider_not_found"
            ("route references unknown provider '" ∷ route.provider_id ∷ "'" ∷ []) route.id
      a ←
          ok_or (account config route.primary_account_id) "account_not_found"
            ("route references unknown primary account '" ∷ route.primary_account_id ∷ "'" ∷ [])
            route.id
      ensure (a.provider_id == p.id) "account_provider_mismatch"
          ("primary account '" ∷ a.id ∷ "' belongs to provider '" ∷ a.provider_id ∷ "'" ∷ [])
          route.id
      check_fallbacks p route.fallback_accounts
      let declared = protocol_capability config p.id (some a.id) model protocol
      handling ← handle_mode p a declared
      finish_candidate p a handling
