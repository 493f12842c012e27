-- ===== src/Tests/Usage.antt =====
-- The theorems on src/proxy/usage.rs, src/proxy/completion.rs and src/proxy/accounting.rs at one request.
use my_ai_gateway.Prelude.{ℕ, true, false, none, some, String, [], ◌∷◌}
use my_ai_gateway.Domain.Protocol.{openai_chat_completions}
use my_ai_gateway.Proxy.Json.{Json}
use my_ai_gateway.Proxy.Transport.{idle_timeout}
use my_ai_gateway.Proxy.Attempt.{UsageAttempt}
use my_ai_gateway.Proxy.Usage.{no_identity}
use my_ai_gateway.Proxy.Usage.Report.{StreamObservation, observe_json_response}
use my_ai_gateway.Proxy.Usage.Sources.{Reported, observe_json_response-Reported}
use my_ai_gateway.Proxy.Completion.{RequestCompletion, Answer, FinalUpstream, UsageEvent, event}
use my_ai_gateway.Proxy.Accounting.{finalize_stream_usage}
use my_ai_gateway.Proxy.Accounting.Final.{IsSettled, finalize_stream_usage-IsSettled}
use my_ai_gateway.Proxy.Accounting.Start.{IsRecorded, event-IsRecorded}
use my_ai_gateway.Tests.Stream.{Value, text, reading_back}

abbrev json : Json Value
json = reading_back (text "hello")

abbrev tokens : String → ℕ
tokens s = 7

observe_json_response-Reported_example :
    Reported json tokens true "question" "{}"
      (observe_json_response json tokens true "question" "{}").0
observe_json_response-Reported_example =
    observe_json_response-Reported json tokens true "question" "{}"

abbrev completion : RequestCompletion
completion = record {
  route_id = "any";
  request_id = "r";
  virtual_key_id = some 1;
  client_source = "first";
  model = "m";
  protocol = openai_chat_completions;
  is_streamed = true;
  started = 1_000;
}

abbrev answer : Answer
answer = record { status = 200; usage = none; identity = no_identity }

abbrev upstream : FinalUpstream
upstream = record {
  provider_id = "p";
  source_id = "p";
  account_id = "a";
  upstream_model_id = "m";
  protocol = openai_chat_completions;
  mode = "native";
  degraded = false;
}

abbrev attempt : UsageAttempt
attempt = record {
  attempt_no = 1;
  provider_id = "p";
  source_id = "p";
  account_id = "a";
  upstream_model_id = some "m";
  status_code = 200;
  success = true;
  latency_ms = 5;
}

abbrev first_event : UsageEvent
first_event = event completion 9_000 answer upstream (attempt ∷ []) none none none

event-IsRecorded_example : IsRecorded answer (attempt ∷ []) none first_event
event-IsRecorded_example =
    event-IsRecorded completion 9_000 answer upstream (attempt ∷ []) none none none

abbrev observation : StreamObservation
observation = record {
  captured = [];
  capture_truncated = false;
  parsed_usage = none;
  estimated_reasoning_tokens = none;
  response_model = none;
  response_reasoning_effort = none;
  ttft_ms = none;
  failed = false;
  termination = idle_timeout;
}

finalize_stream_usage-IsSettled_example :
    IsSettled observation
      (attempt ∷ [])
      (finalize_stream_usage tokens first_event (attempt ∷ []) "question" observation)
finalize_stream_usage-IsSettled_example =
    finalize_stream_usage-IsSettled tokens "question" observation first_event (attempt ∷ [])
      (event-IsRecorded completion 9_000 answer upstream (attempt ∷ []) none none none).explained
