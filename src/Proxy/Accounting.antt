-- ===== src/Proxy/Accounting.antt =====
-- The final form of the usage event of a stream, and the retries of its write: `finalize_stream_usage`
-- and `retry_usage_write` of src/proxy/accounting.rs.
pub mod Final
pub mod Start
use my_ai_gateway.Prelude.{
  ℕ, zero, suc, ◌+◌, ◌-◌, ◌*◌, ◌/◌, Bool, true, false, not, ◌&&◌, ◌||◌, Option, none, some, String,
  ◌==◌, List, [], ◌∷◌, length, is_empty, or_else, unwrap_or, if◌then◌else◌,
}
use mathlib.Core.Option
use my_ai_gateway.Prelude.Text.{concat}
use my_ai_gateway.Prelude.Decimal.{decimal}
use my_ai_gateway.Domain.Protocol.{Protocol, display}
use my_ai_gateway.Domain.Routing.{ResolvedRoute, is_degraded}
use my_ai_gateway.Health.Types.{nanos_per_milli}
use my_ai_gateway.Proxy.Json.{ℤ, pos}
use my_ai_gateway.Proxy.Transport.{
  StreamTermination, completed, empty_stream, upstream_error, transport_error, incomplete_stream,
  buffer_limit_exceeded, client_cancelled, connection_timeout, first_event_timeout, idle_timeout,
  total_timeout, is_failure, termination_status_code,
}
use my_ai_gateway.Proxy.Policy.{is_success}
use my_ai_gateway.Proxy.Attempt.{UsageAttempt}
use my_ai_gateway.Proxy.Fallback.{FallbackCandidate}
use my_ai_gateway.Proxy.Usage.{ResponseIdentity}
use my_ai_gateway.Proxy.Usage.Report.{
  UsageReport, missing, StreamObservation, usage_for_stream_observation,
}
use my_ai_gateway.Proxy.Completion.{UsageEvent}

-- The summary of a stream that failed.
unfoldable pub stream_summary : StreamTermination → String
stream_summary upstream_error = "upstream stream error"
stream_summary transport_error = "upstream body transport error"
stream_summary incomplete_stream = "upstream stream ended without a terminal event"
stream_summary buffer_limit_exceeded = "upstream stream observation limit exceeded"
stream_summary empty_stream = "upstream stream ended without an event"
stream_summary client_cancelled = "client disconnected"
stream_summary connection_timeout = "upstream connection timeout"
stream_summary first_event_timeout = "first event timeout"
stream_summary idle_timeout = "upstream idle timeout"
stream_summary total_timeout = "stream total timeout"
stream_summary completed = ""

-- A stream that failed without a terminal state of failure has failed upstream.
unfoldable pub final_termination : StreamObservation → StreamTermination
unfolding is_failure
final_termination o =
    if o.failed && not (is_failure o.termination) then upstream_error else o.termination

-- `attempts.last_mut()`.
unfoldable pub update_last : (UsageAttempt → UsageAttempt) → List UsageAttempt → List UsageAttempt
update_last f [] = []
update_last f (a ∷ []) = f a ∷ []
update_last f (a ∷ (b ∷ rest)) = a ∷ update_last f (b ∷ rest)

abbrev pub failed_attempt : ℕ → UsageAttempt → UsageAttempt
failed_attempt status a = record a { status_code = status; success = false }

unfoldable pub note_failure :
    StreamTermination → UsageEvent × List UsageAttempt → UsageEvent × List UsageAttempt
unfolding is_failure termination_status_code stream_summary update_last
note_failure termination (e, attempts) =
    if is_failure termination
    then (
      record e {
        status_code = termination_status_code termination;
        success = false;
        error_summary = some (stream_summary termination);
      },
      update_last (failed_attempt (termination_status_code termination)) attempts,
    )
    else (e, attempts)

unfoldable pub take_report : UsageReport → UsageEvent → UsageEvent
take_report r e = record e {
  input_tokens = r.input_tokens;
  output_tokens = r.output_tokens;
  reasoning_tokens = r.reasoning_tokens;
  cached_tokens = r.cached_tokens;
  cache_read_tokens = r.cache_read_tokens;
  cache_creation_tokens = r.cache_creation_tokens;
  total_tokens = r.total_tokens;
  usage_source = r.source;
}

unfoldable pub observed : StreamObservation → UsageEvent → UsageEvent
observed o e = record e {
  ttft_ms = o.ttft_ms;
  response_model = o.response_model;
  response_reasoning_effort = o.response_reasoning_effort;
}

unfoldable pub finalize_stream_usage :
    (String → ℕ)
    → UsageEvent
    → List UsageAttempt
    → String
    → StreamObservation
    → UsageEvent × List UsageAttempt
unfolding observed final_termination note_failure take_report usage_for_stream_observation
finalize_stream_usage tokens e attempts request o =
    let (e', attempts') = note_failure (final_termination o) (observed o e, attempts) in
    (take_report (usage_for_stream_observation tokens e'.success request o) e', attempts')

-- Whether the account of the last attempt is marked as failed once the event is written.
unfoldable pub upstream_failure : StreamObservation → Bool
unfolding is_failure
upstream_failure o = o.failed && not (is_failure o.termination) || elim o.termination [
  | upstream_error ↦ true
  | transport_error ↦ true
  | incomplete_stream ↦ true
  | buffer_limit_exceeded ↦ true
  | other ↦ false
]

-- The waits of `retry_usage_write`, and whether the event was written. `write` is one transaction.
module _ {S : Type 0} (write : S → Bool × S) where
  abbrev pub wait_of : ℕ → ℕ
  wait_of attempt = 100 * attempt * nanos_per_milli

  -- The attempts that remain after one of the given number.
  unfoldable pub retry_after_failure : ℕ → ℕ → S → Bool × List ℕ × S
  retry_after_failure zero attempt s = (false, [], s)
  retry_after_failure (suc more) attempt s =
      let (written, s') = write s in
      let (later, waits, s'') = retry_after_failure more (attempt + 1) s' in
      if written then (true, wait_of attempt ∷ [], s') else (later, wait_of attempt ∷ waits, s'')

  unfoldable pub retry_usage_write : S → Bool × List ℕ × S
  unfolding retry_after_failure
  retry_usage_write s =
      let (written, s') = write s in if written then (true, [], s') else retry_after_failure 2 1 s'
