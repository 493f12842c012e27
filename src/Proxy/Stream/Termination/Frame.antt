-- ===== src/Proxy/Stream/Termination/Frame.antt =====
-- The error frames of src/proxy/stream.rs, read back.
use my_ai_gateway.Prelude.{
  ◌≡◌, refl, true, false, none, some, String, ◌==◌, starts_with, arith, eq_iff,
}
use my_ai_gateway.Prelude.Text.{trim, to_ascii_lowercase}
use my_ai_gateway.Domain.Protocol.{
  Protocol, openai_chat_completions, openai_responses, anthropic_messages,
}
use my_ai_gateway.Proxy.Transport.{
  StreamTermination, completed, empty_stream, upstream_error, transport_error, incomplete_stream,
  buffer_limit_exceeded, client_cancelled, connection_timeout, first_event_timeout, idle_timeout,
  total_timeout, is_failure, termination_code,
}
use my_ai_gateway.Proxy.Json.{Json, IsDocumented, member}
use my_ai_gateway.Proxy.Usage.{path}
use my_ai_gateway.Proxy.Stream.Termination.{
  FrameClass, classify_frame, classify_event, classify_payload, gateway_code, text_at,
  termination_from_code, termination_of, error_payload, error_body,
}

-- The name of the event in the error frame of a protocol.
abbrev pub error_event : Protocol → String
error_event openai_chat_completions = ""
error_event _ = "error"

-- What the frame of a failure is.
abbrev pub failure_class : StreamTermination → FrameClass
failure_class t = record { terminal = none; error = true; gateway = some t }

module _ {V : Type 0} (json : Json V) where
  termination_from_code-code :
      (t : StreamTermination)
      → is_failure t ≡ true
      → termination_from_code json (termination_code t) ≡ some t
  unfolding termination_from_code termination_of termination_code is_failure
  termination_from_code-code completed h = absurd (cc)
  termination_from_code-code empty_stream h = refl
  termination_from_code-code upstream_error h = refl
  termination_from_code-code transport_error h = refl
  termination_from_code-code incomplete_stream h = refl
  termination_from_code-code buffer_limit_exceeded h = refl
  termination_from_code-code client_cancelled h = refl
  termination_from_code-code connection_timeout h = refl
  termination_from_code-code first_event_timeout h = refl
  termination_from_code-code idle_timeout h = refl
  termination_from_code-code total_timeout h = refl

  starts_with-code :
      (t : StreamTermination)
      → is_failure t ≡ true
      → starts_with (termination_code t) "gateway_" ≡ true
  unfolding termination_code is_failure
  starts_with-code completed h = absurd (cc)
  starts_with-code empty_stream h = refl
  starts_with-code upstream_error h = refl
  starts_with-code transport_error h = refl
  starts_with-code incomplete_stream h = refl
  starts_with-code buffer_limit_exceeded h = refl
  starts_with-code client_cancelled h = refl
  starts_with-code connection_timeout h = refl
  starts_with-code first_event_timeout h = refl
  starts_with-code idle_timeout h = refl
  starts_with-code total_timeout h = refl

  gateway_code-payload :
      IsDocumented json
      → (p : Protocol) (t : StreamTermination) → is_failure t ≡ true
      → gateway_code json (error_payload json p t) ≡ some (termination_code t)
  unfolding gateway_code text_at path error_payload member
  gateway_code-payload d openai_chat_completions t h =
      simp (d.get_object, d.as_str_string, starts_with-code t h)
  gateway_code-payload d openai_responses t h =
      simp (d.get_object, d.as_str_string, starts_with-code t h)
  gateway_code-payload d anthropic_messages t h =
      simp (d.get_object, d.as_str_string, starts_with-code t h)

  classify_payload-payload :
      IsDocumented json
      → (p : Protocol) (t : StreamTermination) (name text : String) → is_failure t ≡ true
      → classify_payload json name text (some (error_payload json p t)) ≡ failure_class t
  unfolding classify_payload
  classify_payload-payload d p t name text h =
      rw (gateway_code-payload d p t h, termination_from_code-code t h, classify_payload) refl

  not_done :
      IsDocumented json
      → (text : String) (value : V) → json.from_str text ≡ some value
      → (trim text == "[DONE]") ≡ false
  not_done d text value parsed = ground (arith, eq_iff (trim text) "[DONE]", d.no_json text)

  classify_event-payload :
      IsDocumented json
      → (p : Protocol) (t : StreamTermination) → is_failure t ≡ true
      → json.from_str (error_body json p t) ≡ some (error_payload json p t)
      → classify_payload json
          (error_event p)
          (error_body json p t)
          (json.from_str (error_body json p t))
        ≡ failure_class t
  classify_event-payload d p t h parsed =
      rw parsed (classify_payload-payload d p t (error_event p) (error_body json p t) h)

  -- The error frame that the gateway writes for a failure, in any protocol, is read back as an error of
  -- the gateway with exactly that failure, if serde_json behaves as documented and reads back the payload
  -- that it has printed.
  pub classify_frame-error_body :
      IsDocumented json
      → (p : Protocol) (t : StreamTermination) → is_failure t ≡ true
      → json.from_str (error_body json p t) ≡ some (error_payload json p t)
      → classify_frame json (error_event p) (error_body json p t) ≡ failure_class t
  unfolding classify_frame classify_event trim to_ascii_lowercase
  classify_frame-error_body d openai_chat_completions t h parsed =
      rw (not_done d _ _ parsed) (classify_event-payload d openai_chat_completions t h parsed)
  classify_frame-error_body d openai_responses t h parsed =
      rw (not_done d _ _ parsed) (classify_event-payload d openai_responses t h parsed)
  classify_frame-error_body d anthropic_messages t h parsed =
      rw (not_done d _ _ parsed) (classify_event-payload d anthropic_messages t h parsed)
