-- ===== src/Proxy/Stream/Termination.antt =====
-- How src/proxy/stream.rs reads why a stream ended: the merging of terminal states, the
-- classification of frames and the gateway's own frames.
pub mod Merge
pub mod Frame
use my_ai_gateway.Prelude.{
  ℕ, Bool, true, false, not, ◌&&◌, ◌||◌, Option, none, some, String, ◌==◌, starts_with, List, [],
  ◌∷◌, any, is_some, or_else, and_then, unwrap_or, if◌then◌else◌,
}
use my_ai_gateway.Prelude.Text.{trim, trim_start, to_ascii_lowercase, concat}
use my_ai_gateway.Prelude.Bytes.{from_utf8_lossy, as_bytes}
use my_ai_gateway.Domain.Protocol.{
  Protocol, openai_chat_completions, openai_responses, anthropic_messages,
}
use my_ai_gateway.Proxy.Transport.{
  StreamTermination, completed, empty_stream, upstream_error, transport_error, incomplete_stream,
  buffer_limit_exceeded, client_cancelled, connection_timeout, first_event_timeout, idle_timeout,
  total_timeout, is_failure, termination_code, termination_message,
}
use my_ai_gateway.Proxy.Json.{Json}
use my_ai_gateway.Proxy.Usage.{path}

abbrev pub heartbeat_marker : String
heartbeat_marker = ": gateway-heartbeat"

abbrev pub heartbeat_frame : String
heartbeat_frame = ": gateway-heartbeat\n\n"

abbrev pub chat_done_frame : String
chat_done_frame = "data: [DONE]\n\n"

abbrev pub max_sse_frame_bytes : ℕ
max_sse_frame_bytes = 1_048_576

abbrev pub max_tracked_chat_choices : ℕ
max_tracked_chat_choices = 1_024

-- `merge_terminal(current, candidate)`, the state that it leaves.
unfoldable pub merge_terminal :
    Option StreamTermination → Option StreamTermination → Option StreamTermination
unfolding is_failure
merge_terminal current none = current
merge_terminal none (some candidate) = some candidate
merge_terminal (some existing) (some candidate) =
    if not (is_failure existing) && is_failure candidate
    then some candidate
    else if is_failure existing && not (is_failure candidate)
    then some existing
    else if is_failure existing
    then some existing
    else some candidate

unfoldable pub is_gateway_heartbeat : List ℕ → Bool
unfolding from_utf8_lossy trim
is_gateway_heartbeat bytes = trim (from_utf8_lossy bytes) == heartbeat_marker

unfoldable pub looks_like_sse_control : List ℕ → Bool
unfolding from_utf8_lossy trim_start
looks_like_sse_control bytes =
    let text = trim_start (from_utf8_lossy bytes) in
    any (λ prefix. starts_with text prefix || starts_with prefix text)
      (":" ∷ "data:" ∷ "event:" ∷ "id:" ∷ "retry:" ∷ [])

-- The terminal state, whether the frame is an error, and the gateway's own terminal state.
pub record FrameClass : Type 0 where
  pub terminal : Option StreamTermination
  pub error : Bool
  pub gateway : Option StreamTermination

unfoldable pub termination_of : String → StreamTermination
termination_of code =
    if code == "gateway_empty_stream"
    then empty_stream
    else if code == "gateway_transport_error"
    then transport_error
    else if code == "gateway_incomplete_stream"
    then incomplete_stream
    else if code == "gateway_stream_buffer_limit"
    then buffer_limit_exceeded
    else if code == "gateway_client_cancelled"
    then client_cancelled
    else if code == "gateway_connection_timeout"
    then connection_timeout
    else if code == "gateway_first_event_timeout"
    then first_event_timeout
    else if code == "gateway_idle_timeout"
    then idle_timeout
    else if code == "gateway_total_timeout"
    then total_timeout
    else upstream_error

abbrev is_done_event : String → Bool
is_done_event name =
    name == "response.completed" || name == "response.incomplete" || name == "response.done"

abbrev filter_gateway : String → Option String
filter_gateway code = if starts_with code "gateway_" then some code else none

module _ {V : Type 0} (json : Json V) where
  -- The member at the path, if it is a text.
  unfoldable pub text_at : List String → V → Option String
  unfolding path
  text_at keys value = and_then (path json keys value) json.as_str

  unfoldable pub gateway_code : V → Option String
  unfolding text_at
  gateway_code value = or_else (and_then (text_at ("code" ∷ []) value) filter_gateway) (
      or_else (and_then (text_at ("error" ∷ "code" ∷ []) value) filter_gateway)
        (and_then (text_at ("response" ∷ "error" ∷ "code" ∷ []) value) filter_gateway))

  -- The code that a payload carries, or the empty text.
  unfoldable pub code_in : Option V → String
  unfolding text_at
  code_in parsed = unwrap_or "" (
      or_else (and_then parsed (text_at ("code" ∷ []))) (
        or_else (and_then parsed (text_at ("error" ∷ "code" ∷ [])))
          (and_then parsed (text_at ("response" ∷ "error" ∷ "code" ∷ [])))))

  unfoldable pub termination_from_code : String → Option StreamTermination
  unfolding code_in termination_of
  termination_from_code text =
      some (
        termination_of (if starts_with text "gateway_" then text else code_in (json.from_str text)))

  unfoldable pub classify_type : String → String → Option V → FrameClass
  unfolding termination_from_code text_at to_ascii_lowercase
  classify_type event_name text parsed =
      let typ = to_ascii_lowercase (unwrap_or "" (and_then parsed (text_at ("type" ∷ [])))) in
      if typ == "gateway.error" || starts_with typ "gateway_"
      then record { terminal = none; error = true; gateway = termination_from_code text }
      else if is_done_event typ
      then record { terminal = some completed; error = false; gateway = none }
      else if event_name == "error"
          || typ == "error"
          || typ == "response.failed"
          || is_some (and_then parsed (json.get "error"))
      then record { terminal = none; error = true; gateway = none }
      else record { terminal = none; error = false; gateway = none }

  unfoldable pub classify_payload : String → String → Option V → FrameClass
  unfolding termination_from_code gateway_code classify_type
  classify_payload event_name text parsed = elim (and_then parsed gateway_code) [
    | some code ↦ record { terminal = none; error = true; gateway = termination_from_code code }
    | none ↦ classify_type event_name text parsed
  ]

  unfoldable pub classify_event : String → String → FrameClass
  unfolding termination_from_code classify_payload trim
  classify_event event_name text =
      if event_name == "gateway.error"
      then record { terminal = none; error = true; gateway = termination_from_code text }
      else if trim text == "[DONE]" || event_name == "message_stop" || is_done_event event_name
      then record { terminal = some completed; error = false; gateway = none }
      else classify_payload event_name text (json.from_str text)

  unfoldable pub classify_frame : String → String → FrameClass
  unfolding classify_event trim to_ascii_lowercase
  classify_frame event_name text = classify_event (to_ascii_lowercase (trim event_name)) text

  unfoldable pub error_payload : Protocol → StreamTermination → V
  unfolding termination_code termination_message
  error_payload openai_chat_completions termination = json.object (
      (
        "error",
        json.object (
            ("message", json.string (termination_message termination))
            ∷ ("type", json.string (termination_code termination))
            ∷ ("code", json.string (termination_code termination))
            ∷ []),
      )
      ∷ [])
  error_payload _ termination = json.object (
      ("type", json.string "error")
      ∷ (
        "error",
        json.object (
            ("type", json.string (termination_code termination))
            ∷ ("code", json.string (termination_code termination))
            ∷ ("message", json.string (termination_message termination))
            ∷ []),
      )
      ∷ [])

  abbrev frame_text : Protocol → String → String
  frame_text openai_chat_completions body = concat ("data: " ∷ body ∷ "\n\ndata: [DONE]\n\n" ∷ [])
  frame_text _ body = concat ("event: error\ndata: " ∷ body ∷ "\n\n" ∷ [])

  -- The text of the payload, `{}` if it cannot be printed.
  unfoldable pub error_body : Protocol → StreamTermination → String
  unfolding error_payload
  error_body protocol termination =
      unwrap_or "{}" (json.to_string (error_payload protocol termination))

  unfoldable pub gateway_error_frame : Protocol → StreamTermination → List ℕ
  unfolding error_body concat as_bytes
  gateway_error_frame protocol termination =
      as_bytes (frame_text protocol (error_body protocol termination))
