-- ===== src/Proxy/Attempt.antt =====
-- One attempt: src/proxy/attempt.rs with the dispatch of src/proxy/forward.rs and `forward_with_config` of
-- src/proxy/transport.rs. Metrics and credentials are left to the environment.
use my_ai_gateway.Prelude.{
  ℕ, ◌-◌, ◌/◌, Bool, false, Option, none, some, String, ◌==◌, [], ◌∷◌, if◌then◌else◌,
}
use my_ai_gateway.Prelude.Text.{trim_end_slash, concat}
use my_ai_gateway.Domain.Protocol.{Protocol, get_protocol}
use my_ai_gateway.Health.Types.{nanos_per_milli}
use my_ai_gateway.Proxy.Transport.{
  StreamConfig, missing_endpoint, request, UpstreamResult, ok, err, PreparedModelRequest,
  transport_status_code, prepare_model_request,
}
use my_ai_gateway.Proxy.Environment.{Environment, Live, mark_failed}
use my_ai_gateway.Proxy.Policy.{is_success, record_response_health}
use my_ai_gateway.Proxy.Fallback.{FallbackCandidate}

pub record UsageAttempt : Type 0 where
  pub attempt_no : ℕ
  pub provider_id : String
  pub source_id : String
  pub account_id : String
  pub upstream_model_id : Option String
  pub status_code : ℕ
  pub success : Bool
  pub latency_ms : ℕ

pub record AttemptContext : Type 0 where
  pub body : String
  pub model : String
  pub protocol : Protocol
  pub request_id : String
  pub stream_config : StreamConfig
  pub started : ℕ

pub record AttemptResult : Type 0 where
  pub result : UpstreamResult
  pub usage : UsageAttempt
  pub request_body : String

module _ {W : Type 0} (env : Environment W) (context : AttemptContext) where
  abbrev exchange : Live W → FallbackCandidate → String → String → UpstreamResult × Live W
  exchange live c url body =
      let (result, health, w) =
        env.forward_url live.world live.health context.stream_config (record {
          url = url;
          account = c.account;
          source_id = c.source_id;
          protocol = c.protocol_upstream;
          body = body;
        }) in
      (result, record { world = w; health = health })

  -- A production build has no adapter to dispatch to.
  unfoldable pub dispatch_adapter : Live W → FallbackCandidate → String → UpstreamResult × Live W
  dispatch_adapter live c body = elim c.upstream_endpoint [
    | some endpoint ↦ if env.test then exchange live c endpoint body else (err request, live)
    | none ↦ (err request, live)
  ]

  unfoldable pub forward_with_config : Live W → FallbackCandidate → String → UpstreamResult × Live W
  forward_with_config live c body = elim (get_protocol c.protocol_upstream c.provider.endpoints) [
    | none ↦ (err missing_endpoint, live)
    | some endpoint ↦
        exchange live c (concat (trim_end_slash c.provider.base_url ∷ endpoint ∷ [])) body
  ]

  unfoldable pub forward_fallback : Live W → FallbackCandidate → String → UpstreamResult × Live W
  unfolding dispatch_adapter forward_with_config
  forward_fallback live c body =
      if c.mode == "adapter" then dispatch_adapter live c body else elim c.upstream_endpoint [
        | some endpoint ↦ exchange live c endpoint body
        | none ↦ forward_with_config live c body
      ]

  -- What the result does to the health of the account.
  unfoldable pub record_result : Live W → String → UpstreamResult → Live W
  record_result live account_id (ok response) =
      record_response_health env live account_id response.status
  record_result live account_id (err error) =
      mark_failed env live account_id "upstream_transport_error" "upstream request failed"

  abbrev pub result_status : UpstreamResult → ℕ
  result_status (ok response) = response.status
  result_status (err error) = transport_status_code error

  abbrev pub result_success : UpstreamResult → Bool
  result_success (ok response) = is_success response.status
  result_success (err error) = false

  unfoldable pub execute : Live W → FallbackCandidate → ℕ → AttemptResult × Live W
  unfolding forward_fallback record_result prepare_model_request
  execute live c attempt_no =
      let prepared : PreparedModelRequest =
        prepare_model_request env.with_model context.body context.model c.upstream_model in
      let (started, w) = env.instant_now live.world in
      let (result, live') = forward_fallback (record live { world = w }) c prepared.body in
      let (ended, w') = env.instant_now live'.world in
      let live'' = record_result (record live' { world = w' }) c.account.id result in
      (
        record {
          result = result;
          request_body = prepared.body;
          usage = record {
            attempt_no = attempt_no;
            provider_id = c.provider_id;
            source_id = c.source_id;
            account_id = c.account.id;
            upstream_model_id = some prepared.upstream_model_id;
            status_code = result_status result;
            success = result_success result;
            latency_ms = (ended - started) / nanos_per_milli;
          };
        },
        live'',
      )
