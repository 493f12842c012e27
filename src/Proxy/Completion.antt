-- ===== src/Proxy/Completion.antt =====
-- The usage event of a request: `FinalUpstream` and `RequestCompletion::event` of
-- src/proxy/completion.rs.
use my_ai_gateway.Prelude.{
  ℕ, ◌-◌, ◌/◌, Bool, not, Option, none, some, String, List, [], ◌∷◌, length, is_empty, or_else,
  unwrap_or, if◌then◌else◌,
}
use my_ai_gateway.Prelude.Text.{concat}
use my_ai_gateway.Prelude.Decimal.{decimal}
use my_ai_gateway.Domain.Protocol.{Protocol, display}
use my_ai_gateway.Domain.Routing.{ResolvedRoute, is_degraded}
use my_ai_gateway.Health.Types.{nanos_per_milli}
use my_ai_gateway.Proxy.Json.{ℤ}
use my_ai_gateway.Proxy.Policy.{is_success}
use my_ai_gateway.Proxy.Attempt.{UsageAttempt}
use my_ai_gateway.Proxy.Fallback.{FallbackCandidate}
use my_ai_gateway.Proxy.Usage.{ResponseIdentity}
use my_ai_gateway.Proxy.Usage.Report.{UsageReport, missing}

pub record UsageEvent : Type 0 where
  pub request_id : String
  pub virtual_key_id : Option ℕ
  pub provider_id : String
  pub account_id : String
  pub model : String
  pub logical_model : String
  pub upstream_model_id : Option String
  pub source_id : String
  pub client_source : String
  pub protocol_in : String
  pub protocol_upstream : String
  pub mode : String
  pub status_code : ℕ
  pub success : Bool
  pub retry_count : ℕ
  pub latency_ms : ℕ
  pub ttft_ms : Option ℕ
  pub input_tokens : ℤ
  pub output_tokens : ℤ
  pub reasoning_tokens : ℤ
  pub cached_tokens : ℤ
  pub cache_read_tokens : ℤ
  pub cache_creation_tokens : ℤ
  pub total_tokens : ℤ
  pub usage_source : String
  pub degraded : Bool
  pub route_id : Option String
  pub streamed : Bool
  pub error_summary : Option String
  pub fallback_reason : Option String
  pub response_model : Option String
  pub requested_reasoning_effort : Option String
  pub response_reasoning_effort : Option String

pub record FinalUpstream : Type 0 where
  pub provider_id : String
  pub source_id : String
  pub account_id : String
  pub upstream_model_id : String
  pub protocol : Protocol
  pub mode : String
  pub degraded : Bool

-- `FinalUpstream::route`.
unfoldable pub of_route : ResolvedRoute → FinalUpstream
of_route route = record {
  provider_id = route.provider_id;
  source_id = route.source_id;
  account_id = route.primary_account_id;
  upstream_model_id = route.upstream_model_id;
  protocol = route.protocol_upstream;
  mode = route.mode;
  degraded = is_degraded route;
}

-- `FinalUpstream::candidate`.
unfoldable pub of_candidate : FallbackCandidate → FinalUpstream
of_candidate c = record {
  provider_id = c.provider_id;
  source_id = c.source_id;
  account_id = c.account.id;
  upstream_model_id = c.upstream_model;
  protocol = c.protocol_upstream;
  mode = c.mode;
  degraded = not (is_empty c.degraded_features);
}

-- What the event takes of the request.
pub record RequestCompletion : Type 0 where
  pub route_id : String
  pub request_id : String
  pub virtual_key_id : Option ℕ
  pub client_source : String
  pub model : String
  pub protocol : Protocol
  pub is_streamed : Bool
  pub started : ℕ

-- The response: its status, and the usage and the identity that are attached to it.
pub record Answer : Type 0 where
  pub status : ℕ
  pub usage : Option UsageReport
  pub identity : ResponseIdentity

-- `now` is the instant at which the event is made, `effort` what the request body asks for.
unfoldable pub event :
    RequestCompletion
    → ℕ
    → Answer
    → FinalUpstream
    → List UsageAttempt
    → Option String
    → Option String
    → Option String
    → UsageEvent
unfolding concat decimal
event c now answer upstream attempts fallback_reason error_summary effort =
    let usage = unwrap_or missing answer.usage in
    record {
      request_id = c.request_id;
      virtual_key_id = c.virtual_key_id;
      provider_id = upstream.provider_id;
      account_id = upstream.account_id;
      model = c.model;
      logical_model = c.model;
      upstream_model_id = some upstream.upstream_model_id;
      source_id = upstream.source_id;
      client_source = c.client_source;
      protocol_in = display c.protocol;
      protocol_upstream = display upstream.protocol;
      mode = upstream.mode;
      status_code = answer.status;
      success = is_success answer.status;
      retry_count = length attempts - 1;
      latency_ms = (now - c.started) / nanos_per_milli;
      ttft_ms = none;
      input_tokens = usage.input_tokens;
      output_tokens = usage.output_tokens;
      reasoning_tokens = usage.reasoning_tokens;
      cached_tokens = usage.cached_tokens;
      cache_read_tokens = usage.cache_read_tokens;
      cache_creation_tokens = usage.cache_creation_tokens;
      total_tokens = usage.total_tokens;
      usage_source = usage.source;
      degraded = upstream.degraded;
      route_id = some c.route_id;
      streamed = c.is_streamed;
      error_summary = or_else error_summary (
          if not (is_success answer.status)
          then some (concat ("HTTP " ∷ decimal answer.status ∷ []))
          else none);
      fallback_reason = fallback_reason;
      response_model = answer.identity.model;
      requested_reasoning_effort = effort;
      response_reasoning_effort = answer.identity.reasoning_effort;
    }
