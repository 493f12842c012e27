-- ===== src/Tests/Data.antt =====
-- A configuration of two accounts of one provider, and a scripted upstream.
use my_ai_gateway.Prelude.{◌*◌, ◌/◌, ℕ, true, false, none, some, String, List, [], ◌∷◌, refl}
use my_ai_gateway.Domain.Protocol.{openai_chat_completions}
use my_ai_gateway.Domain.Config.{
  GatewayConfig, ProviderConfig, AccountConfig, RouteConfig, default_capabilities,
}
use my_ai_gateway.Domain.Routing.{RuntimeBinding, RuntimeRoute, ResolvedRoute}
use my_ai_gateway.Health.Types.{MemoryAccountState, AccountHealthRow, default_config}
use my_ai_gateway.Health.Breaker.{Chrono, IsDocumented}
use my_ai_gateway.Health.Database.{Database}
use my_ai_gateway.Health.Registry.{HealthRegistry}
use my_ai_gateway.Proxy.Transport.{UpstreamResult, request}
use my_ai_gateway.Proxy.Environment.{Environment, Live}
use my_ai_gateway.Proxy.Attempt.{AttemptContext}
use my_ai_gateway.Proxy.Fallback.{FallbackCandidate}

abbrev pub chrono : Chrono
chrono = record { from_std = λ d. some d; timestamptz = λ t. t / 1_000 * 1_000 }

pub chrono-IsDocumented : IsDocumented chrono
chrono-IsDocumented d h = refl

abbrev pub entry_a : MemoryAccountState
entry_a = record {
  status = "unhealthy";
  source = "passive";
  cooldown_until = none;
  consecutive_failures = 2;
  failure_window_started_at = some 1_000;
  updated_at = some 1_000;
  last_error = some "upstream request failed";
  last_success_at = none;
  last_probe_at = none;
  last_probe_status = none;
  last_probe_error = none;
  enabled = true;
}

abbrev pub row_a : AccountHealthRow
row_a = record {
  account_id = "a";
  enabled = true;
  source_enabled = true;
  health_status = "unhealthy";
  health_source = "passive";
  cooldown_until = none;
  consecutive_failures = 2;
  failure_window_started_at = some 1_000;
  last_error = some "upstream request failed";
  last_success_at = none;
  health_updated_at = some 1_000;
  last_probe_at = none;
  last_probe_status = none;
  last_probe_error = none;
  account_updated_at = 500;
}

abbrev pub database : Database
database = record { reachable = true; accounts = row_a ∷ []; health_events = [] }

abbrev pub provider_p : ProviderConfig
provider_p = record {
  id = "p";
  name = "P";
  base_url = "https://p.example/";
  models = "m" ∷ [];
  native_protocols = openai_chat_completions ∷ [];
  endpoints = (openai_chat_completions, "/v1/chat/completions") ∷ [];
  capabilities = default_capabilities;
  protocol_capabilities = [];
  model_overrides = [];
}

abbrev pub account_of : String → ℕ → AccountConfig
account_of id weight = record {
  id = id;
  provider_id = "p";
  display_name = id;
  credential_env = none;
  credential_ciphertext = none;
  credential = none;
  enabled = true;
  weight = weight;
  protocol_capabilities = [];
  capabilities = none;
  model_overrides = [];
  model_map = [];
}

abbrev pub route_of : String → String → RouteConfig
route_of id model = record {
  id = id;
  model = model;
  provider_id = "p";
  protocols = openai_chat_completions ∷ [];
  primary_account_id = "a";
  fallback_accounts = "b" ∷ [];
  strategy = "ordered_fallback";
  mode = "native";
  adapter = none;
  allow_lossy_conversion = false;
}

abbrev pub config : GatewayConfig
config = record {
  listen_addr = "127.0.0.1:8080";
  providers = provider_p ∷ [];
  accounts = account_of "a" 3 ∷ account_of "b" 1 ∷ [];
  routes = route_of "any" "*" ∷ route_of "exact" "m" ∷ [];
}

abbrev pub binding_of : ℕ → String → RuntimeBinding
binding_of id account_id = record {
  binding_id = id;
  source_id = "p";
  provider_id = "p";
  account_id = account_id;
  upstream_model_id = "m";
  protocol_upstream = openai_chat_completions;
  upstream_endpoint = "https://p.example/v1/chat/completions";
  mode = "native";
  adapter = none;
  effective_capabilities = default_capabilities;
  degraded_features = [];
}

abbrev pub runtime_route : RuntimeRoute
runtime_route = record {
  route_id = "r";
  model = "m";
  protocol = openai_chat_completions;
  strategy = "ordered_fallback";
  request_timeout_ms = none;
  max_retries = some 1;
  allow_lossy_conversion = false;
  bindings = binding_of 1 "a" ∷ binding_of 2 "b" ∷ [];
}

-- The route that the published one resolves to.
abbrev pub resolved_route : ResolvedRoute
resolved_route = record {
  route_id = "r";
  strategy = "ordered_fallback";
  request_timeout_ms = none;
  max_retries = some 1;
  protocol = openai_chat_completions;
  protocol_in = openai_chat_completions;
  protocol_upstream = openai_chat_completions;
  model = "m";
  requested_model = "m";
  upstream_model_id = "m";
  source_id = "p";
  provider_id = "p";
  primary_account_id = "a";
  fallback_accounts = "b" ∷ [];
  fallback_bindings =
      record {
        binding_id = 2;
        source_id = "p";
        provider_id = "p";
        account_id = "b";
        upstream_model_id = "m";
        protocol_upstream = openai_chat_completions;
        upstream_endpoint = "https://p.example/v1/chat/completions";
        mode = "native";
        adapter = none;
        effective_capabilities = default_capabilities;
        degraded_features = [];
      }
      ∷ [];
  binding_id = some 1;
  upstream_endpoint = "https://p.example/v1/chat/completions";
  mode = "native";
  adapter = none;
  effective_capabilities = default_capabilities;
  degraded_features = [];
  allow_lossy_conversion = false;
}

abbrev pub response_of : ℕ → UpstreamResult
response_of status = UpstreamResult.ok (record { status = status; retry_after = none; body = "{}" })

-- The world is the list of the results to come.
abbrev pop :
    List UpstreamResult → HealthRegistry → UpstreamResult × HealthRegistry × List UpstreamResult
pop [] health = (UpstreamResult.err request, health, [])
pop (r ∷ rs) health = (r, health, rs)

abbrev pub env : Environment (List UpstreamResult)
env = record {
  test = false;
  chrono = chrono;
  utc_now = λ w. (2_000, w);
  instant_now = λ w. (2_000, w);
  sleep = λ d w. w;
  forward_url = λ w health stream call. pop w health;
  parse_from_rfc2822 = λ text. none;
  with_model = λ body model. some body;
}

abbrev pub context : AttemptContext
context = record {
  body = "{\"model\":\"m\"}";
  model = "m";
  protocol = openai_chat_completions;
  request_id = "1";
  stream_config = record {
    heartbeat_interval = 0;
    connection_timeout = 0;
    first_event_timeout = 0;
    idle_timeout = 0;
    total_timeout = 0;
  };
  started = 1_000;
}

-- The first answer fails, the second succeeds.
abbrev pub live : Live (List UpstreamResult)
live = record {
  world = response_of 503 ∷ response_of 200 ∷ [];
  health = record { config = default_config; database = none; state = [] };
}

abbrev pub candidate_of : AccountConfig → FallbackCandidate
candidate_of a = record {
  account = a;
  provider = provider_p;
  provider_id = "p";
  source_id = "p";
  upstream_model = "m";
  protocol_upstream = openai_chat_completions;
  mode = "native";
  upstream_endpoint = none;
  degraded_features = [];
}
