-- ===== src/Proxy/Transport.antt =====
-- The data and the pure functions of src/proxy/transport.rs, with `StreamTermination` and `StreamConfig`
-- of src/proxy/stream.rs and the responses of src/http/response.rs.
pub mod Deadline
use my_ai_gateway.Prelude.{
  ℕ, ◌+◌, ◌-◌, Bool, true, false, Option, none, some, String, ◌==◌, leb, eqb, if◌then◌else◌,
}
use my_ai_gateway.Domain.Protocol.{Protocol}

-- Durations are counts of nanoseconds; zero turns a limit off.
pub record StreamConfig : Type 0 where
  pub heartbeat_interval : ℕ
  pub connection_timeout : ℕ
  pub first_event_timeout : ℕ
  pub idle_timeout : ℕ
  pub total_timeout : ℕ

pub data StreamTermination : Type 0 where
  completed empty_stream upstream_error transport_error incomplete_stream : StreamTermination
  buffer_limit_exceeded client_cancelled connection_timeout first_event_timeout : StreamTermination
  idle_timeout total_timeout : StreamTermination

pub data TransportError : Type 0 where
  missing_endpoint source_url_blocked request : TransportError
  timeout : StreamTermination → TransportError

unfoldable pub is_failure : StreamTermination → Bool
is_failure completed = false
is_failure _ = true

unfoldable pub termination_code : StreamTermination → String
termination_code completed = "completed"
termination_code empty_stream = "gateway_empty_stream"
termination_code upstream_error = "gateway_upstream_error"
termination_code transport_error = "gateway_transport_error"
termination_code incomplete_stream = "gateway_incomplete_stream"
termination_code buffer_limit_exceeded = "gateway_stream_buffer_limit"
termination_code client_cancelled = "gateway_client_cancelled"
termination_code connection_timeout = "gateway_connection_timeout"
termination_code first_event_timeout = "gateway_first_event_timeout"
termination_code idle_timeout = "gateway_idle_timeout"
termination_code total_timeout = "gateway_total_timeout"

unfoldable pub termination_message : StreamTermination → String
termination_message completed = "stream completed"
termination_message empty_stream = "upstream stream ended without an event"
termination_message upstream_error = "upstream stream failed"
termination_message transport_error = "upstream body transport failed"
termination_message incomplete_stream = "upstream stream ended without a terminal event"
termination_message buffer_limit_exceeded = "upstream stream exceeded observation limits"
termination_message client_cancelled = "client disconnected while streaming"
termination_message connection_timeout = "timed out waiting for the upstream connection"
termination_message first_event_timeout = "timed out waiting for the first upstream event"
termination_message idle_timeout = "upstream stream was idle for too long"
termination_message total_timeout = "upstream stream exceeded its total time limit"

unfoldable pub termination_status_code : StreamTermination → ℕ
termination_status_code completed = 200
termination_status_code client_cancelled = 499
termination_status_code connection_timeout = 504
termination_status_code first_event_timeout = 504
termination_status_code idle_timeout = 504
termination_status_code total_timeout = 504
termination_status_code _ = 599

unfoldable pub transport_error_message : TransportError → String
transport_error_message missing_endpoint = "provider endpoint is not configured"
transport_error_message source_url_blocked = "upstream source URL is blocked by server policy"
transport_error_message request = "upstream request failed"
transport_error_message (timeout termination) = termination_message termination

unfoldable pub transport_status_code : TransportError → ℕ
transport_status_code (timeout termination) = termination_status_code termination
transport_status_code _ = 599

-- What the upstream sent: the header `retry-after` as text, and the body.
pub record UpstreamResponse : Type 0 where
  pub status : ℕ
  pub retry_after : Option String
  pub body : String

pub data UpstreamResult : Type 0 where
  ok : UpstreamResponse → UpstreamResult
  err : TransportError → UpstreamResult

-- The response to the client: forwarded, or of `data_plane_error_response`, whose JSON text is not
-- written out.
pub data Response : Type 0 where
  forwarded : UpstreamResponse → Response
  data_plane_error :
      (protocol : Protocol) (status : ℕ) (code message request_id : String) → Response

abbrev pub response_status : Response → ℕ
response_status (forwarded r) = r.status
response_status (data_plane_error protocol status code message request_id) = status

pub record PreparedModelRequest : Type 0 where
  pub body : String
  pub upstream_model_id : String

-- `with_model body model` is the JSON text with the member `model` of its object replaced, as serde_json
-- does it, and `none` if the text is no JSON object.
unfoldable pub prepare_model_request :
    (String → String → Option String) → String → String → String → PreparedModelRequest
prepare_model_request with_model body requested_model upstream_model_id =
    if upstream_model_id == requested_model
    then record { body = body; upstream_model_id = requested_model }
    else elim (with_model body upstream_model_id) [
      | none ↦ record { body = body; upstream_model_id = requested_model }
      | some serialized ↦ record { body = serialized; upstream_model_id = upstream_model_id }
    ]

-- A limit that is turned off has no deadline.
abbrev deadline : ℕ → ℕ → StreamTermination → Option (ℕ × StreamTermination)
deadline start limit termination = if eqb limit 0 then none else some (start + limit, termination)

-- `deadline.saturating_duration_since(now)`, of the earlier deadline.
abbrev earliest :
    ℕ
    → Option (ℕ × StreamTermination)
    → Option (ℕ × StreamTermination)
    → Option (ℕ × StreamTermination)
earliest now none none = none
earliest now (some (d, t)) none = some (d - now, t)
earliest now none (some (d, t)) = some (d - now, t)
earliest now (some (total, t)) (some (connection, c)) =
    if leb total connection then some (total - now, t) else some (connection - now, c)

unfoldable pub earliest_send_timeout : ℕ → ℕ → StreamConfig → Option (ℕ × StreamTermination)
earliest_send_timeout now request_started config =
    earliest now (deadline request_started config.total_timeout total_timeout)
      (deadline now config.connection_timeout connection_timeout)
