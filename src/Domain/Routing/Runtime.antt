-- ===== src/Domain/Routing/Runtime.antt =====
-- `resolve_runtime_route` and the dispatch of `RouteResolver` of src/domain/routing.rs: the published
-- routes, with their bindings in order.
pub mod Bindings
use my_ai_gateway.Prelude.{
  ℕ, Bool, true, false, ◌&&◌, Option, none, some, String, ◌==◌, List, [], ◌∷◌, map, find,
}
use my_ai_gateway.Domain.Protocol.{Protocol, same_protocol, display}
use my_ai_gateway.Domain.Config.{GatewayConfig}
use my_ai_gateway.Domain.Routing.{
  RuntimeBinding, RuntimeRoute, ResolvedBinding, ResolvedRoute, RouteResolutionError, Resolved, ok,
  err, resolution_error,
}
use my_ai_gateway.Domain.Routing.Selection.{resolve_selected}

-- The closure of `map`.
abbrev pub resolved_binding : RuntimeBinding → ResolvedBinding
resolved_binding b = record {
  binding_id = b.binding_id;
  source_id = b.source_id;
  provider_id = b.provider_id;
  account_id = b.account_id;
  upstream_model_id = b.upstream_model_id;
  protocol_upstream = b.protocol_upstream;
  upstream_endpoint = b.upstream_endpoint;
  mode = b.mode;
  adapter = b.adapter;
  effective_capabilities = b.effective_capabilities;
  degraded_features = b.degraded_features;
}

abbrev pub accepts : Protocol → String → RuntimeRoute → Bool
accepts protocol model route = same_protocol route.protocol protocol && route.model == model

-- A route with its first binding and the rest.
unfoldable pub resolve_bindings :
    RuntimeRoute → Protocol → String → List RuntimeBinding → Resolved ResolvedRoute
resolve_bindings route protocol model [] = err (
    resolution_error "route_unavailable"
      ("route '" ∷ route.route_id ∷ "' has no available binding" ∷ []) (some route.route_id))
resolve_bindings route protocol model (primary ∷ rest) = ok (record {
  route_id = route.route_id;
  strategy = route.strategy;
  request_timeout_ms = route.request_timeout_ms;
  max_retries = route.max_retries;
  protocol = protocol;
  protocol_in = protocol;
  protocol_upstream = primary.protocol_upstream;
  model = model;
  requested_model = model;
  upstream_model_id = primary.upstream_model_id;
  source_id = primary.source_id;
  provider_id = primary.provider_id;
  primary_account_id = primary.account_id;
  fallback_accounts = map (λ b. ResolvedBinding.account_id b) (map resolved_binding rest);
  fallback_bindings = map resolved_binding rest;
  binding_id = some primary.binding_id;
  upstream_endpoint = primary.upstream_endpoint;
  mode = primary.mode;
  adapter = primary.adapter;
  effective_capabilities = primary.effective_capabilities;
  degraded_features = primary.degraded_features;
  allow_lossy_conversion = route.allow_lossy_conversion;
})

abbrev pub resolve_found : Protocol → String → Option RuntimeRoute → Resolved ResolvedRoute
resolve_found protocol model none = err (
    resolution_error "route_not_found"
      ("no route matches protocol " ∷ display protocol ∷ " and model '" ∷ model ∷ "'" ∷ []) none)
resolve_found protocol model (some route) = resolve_bindings route protocol model route.bindings

unfoldable pub resolve_runtime_route :
    List RuntimeRoute → Protocol → String → Resolved ResolvedRoute
unfolding resolve_bindings
resolve_runtime_route routes protocol model =
    resolve_found protocol model (find (accepts protocol model) routes)

-- `RouteResolver`: a configuration, and the published routes if there are any.
pub record RouteResolver : Type 0 where
  pub config : GatewayConfig
  pub runtime_routes : Option (List RuntimeRoute)

abbrev pub drop_index : Resolved (ℕ × ResolvedRoute) → Resolved ResolvedRoute
drop_index (ok r) = ok r.1
drop_index (err e) = err e

abbrev pub resolve_by :
    Bool → GatewayConfig → Protocol → String → Option (List RuntimeRoute) → Resolved ResolvedRoute
resolve_by test config protocol model none =
    drop_index (resolve_selected test config protocol model)
resolve_by test config protocol model (some routes) = resolve_runtime_route routes protocol model

unfoldable pub resolve_detailed : Bool → RouteResolver → Protocol → String → Resolved ResolvedRoute
resolve_detailed test resolver protocol model =
    resolve_by test resolver.config protocol model resolver.runtime_routes
