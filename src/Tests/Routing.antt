-- ===== src/Tests/Routing.antt =====
-- The theorems on src/domain at concrete inputs.
use my_ai_gateway.Prelude.{◌==◌, ◌≡◌, refl, true, false, none, some, [], ◌∷◌}
use my_ai_gateway.Prelude.Text.{
  trim, concat, trim_start, trim_end, is_whitespace, strip_star, trim_end_slash, trim_start_slash,
}
use my_ai_gateway.Domain.Protocol.{openai_chat_completions}
use my_ai_gateway.Domain.Config.{
  GatewayConfig, Capabilities, CapabilityMode, default_capabilities, provider, account,
  adapter_definition, find_model_override, find_pattern, adapter_registry, matches_pattern,
}
use my_ai_gateway.Domain.Capability.{
  protocol_capability, capabilities, account_default, account_model, capabilities_of,
  provider_default, provider_model,
}
use my_ai_gateway.Domain.Intersection.{Intersected, intersect_capabilities, intersect}
use my_ai_gateway.Domain.Intersection.Laws.{intersect_capabilities_lem}
use my_ai_gateway.Domain.Routing.{
  ResolvedRoute, ok, err, RouteResolutionError, resolution_error, model_match_rank, join_endpoint,
}
use my_ai_gateway.Domain.Routing.Candidate.{
  resolve_candidate, ok_or, ensure, check_fallbacks, handle_native, handle_adapter, handle_mode,
  finish_candidate,
}
use my_ai_gateway.Domain.Routing.Candidate.Sound.{IsSound, resolve_candidate-IsSound}
use my_ai_gateway.Domain.Routing.Selection.{
  Ranked, rank_route, rank_routes, sort_by_key, insert_key, try_candidates, resolve_selected,
}
use my_ai_gateway.Domain.Routing.Selection.Order.{IsBefore}
use my_ai_gateway.Domain.Routing.Selection.Best.{resolve_selected-best}
use my_ai_gateway.Domain.Routing.Runtime.{resolve_bindings, resolve_runtime_route}
use my_ai_gateway.Domain.Routing.Runtime.Bindings.{Keeps, resolve_runtime_route-Keeps}
use my_ai_gateway.Tests.Data.{config, route_of, runtime_route, resolved_route}

resolve_runtime_route-Keeps_example :
    Keeps (runtime_route ∷ []) openai_chat_completions "m" resolved_route
unfolding resolve_runtime_route resolve_bindings
resolve_runtime_route-Keeps_example =
    resolve_runtime_route-Keeps (runtime_route ∷ []) openai_chat_completions "m" resolved_route refl

-- No route has the model.
-- What the route with the pattern `m` resolves to.
abbrev exact_route : ResolvedRoute
exact_route = record {
  route_id = "exact";
  strategy = "ordered_fallback";
  request_timeout_ms = none;
  max_retries = none;
  protocol = openai_chat_completions;
  protocol_in = openai_chat_completions;
  protocol_upstream = openai_chat_completions;
  model = "m";
  requested_model = "m";
  upstream_model_id = "m";
  source_id = "p";
  provider_id = "p";
  primary_account_id = "a";
  fallback_accounts = "b" ∷ [];
  fallback_bindings = [];
  binding_id = none;
  upstream_endpoint = "https://p.example/v1/chat/completions";
  mode = "native";
  adapter = none;
  effective_capabilities = default_capabilities;
  degraded_features = [];
  allow_lossy_conversion = false;
}

resolves_exact :
    resolve_candidate false config (route_of "exact" "m") openai_chat_completions "m"
    ≡ ok exact_route
unfolding resolve_candidate ok_or provider account ensure check_fallbacks handle_mode handle_native
    protocol_capability find_model_override find_pattern finish_candidate trim
    intersect_capabilities intersect capabilities join_endpoint concat account_default account_model
    capabilities_of provider_default provider_model adapter_definition adapter_registry
    matches_pattern handle_adapter is_whitespace strip_star trim_end trim_end_slash trim_start
    trim_start_slash
resolves_exact = refl

abbrev any_route : ResolvedRoute
any_route = record exact_route { route_id = "any" }

resolves_any :
    resolve_candidate false config (route_of "any" "*") openai_chat_completions "m" ≡ ok any_route
unfolding resolve_candidate ok_or provider account ensure check_fallbacks handle_mode handle_native
    protocol_capability find_model_override find_pattern finish_candidate trim
    intersect_capabilities intersect capabilities join_endpoint concat account_default account_model
    capabilities_of provider_default provider_model adapter_definition adapter_registry
    matches_pattern handle_adapter is_whitespace strip_star trim_end trim_end_slash trim_start
    trim_start_slash
resolves_any = refl

selects_exact : resolve_selected false config openai_chat_completions "m" ≡ ok (1, exact_route)
unfolding resolve_candidate ok_or provider account ensure check_fallbacks handle_mode handle_native
    protocol_capability find_model_override find_pattern finish_candidate trim
    intersect_capabilities intersect capabilities join_endpoint concat account_default account_model
    capabilities_of provider_default provider_model adapter_definition adapter_registry
    matches_pattern handle_adapter is_whitespace strip_star trim_end trim_end_slash trim_start
    trim_start_slash resolve_selected try_candidates sort_by_key insert_key rank_routes rank_route
    model_match_rank
selects_exact = refl

resolve_candidate-IsSound_example :
    IsSound false config (route_of "exact" "m") openai_chat_completions "m" exact_route
resolve_candidate-IsSound_example =
    resolve_candidate-IsSound false config (route_of "exact" "m") openai_chat_completions "m"
      exact_route resolves_exact

abbrev ranked_exact : Ranked
ranked_exact = record {
  index = 1;
  route = route_of "exact" "m";
  specificity = 1;
  exact = true;
  mode_rank = 0;
}

abbrev ranked_any : Ranked
ranked_any = record {
  index = 0;
  route = route_of "any" "*";
  specificity = 0;
  exact = false;
  mode_rank = 0;
}

-- The exact pattern beats the pattern that stands first.
resolve_selected-best_example :
    IsBefore ranked_exact ranked_any
    × (model_match_rank "m" "m" ≡ model_match_rank "*" "m"
        → ((route_of "any" "*").mode == "native") ≡ true
        → ((route_of "exact" "m").mode == "native") ≡ true)
unfolding rank_route model_match_rank
resolve_selected-best_example =
    resolve_selected-best false config openai_chat_completions "m" 1 0 exact_route any_route
      (route_of "exact" "m") (route_of "any" "*") ranked_exact ranked_any selects_exact refl refl
      refl refl resolves_any

-- The routes without their provider.
abbrev without_provider : GatewayConfig
without_provider = record config { providers = [] }

abbrev provider_error : RouteResolutionError
provider_error =
    resolution_error "provider_not_found" ("route references unknown provider '" ∷ "p" ∷ "'" ∷ [])
      (some "any")

fails_all : resolve_selected false without_provider openai_chat_completions "m" ≡ err provider_error
unfolding resolve_candidate ok_or provider account ensure check_fallbacks handle_mode handle_native
    protocol_capability find_model_override find_pattern finish_candidate trim
    intersect_capabilities intersect capabilities join_endpoint concat account_default account_model
    capabilities_of provider_default provider_model adapter_definition adapter_registry
    matches_pattern handle_adapter is_whitespace strip_star trim_end trim_end_slash trim_start
    trim_start_slash resolve_selected try_candidates sort_by_key insert_key rank_routes rank_route
    model_match_rank
fails_all = refl

-- A model with tools behind an adapter without them.
abbrev with_tools : Capabilities
with_tools = record default_capabilities { tools = CapabilityMode.native }

intersect_capabilities_lem_example :
    intersect_capabilities with_tools (some default_capabilities) false ≡ Intersected.err "tools"
intersect_capabilities_lem_example =
    intersect_capabilities_lem with_tools (some default_capabilities) false
