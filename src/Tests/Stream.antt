-- ===== src/Tests/Stream.antt =====
-- The theorems on src/proxy/stream.rs at concrete inputs, with a small JSON of strings and objects.
use my_ai_gateway.Prelude.{
  ℕ, ◌+◌, true, false, ◌≡◌, ◌⊎◌, refl, Option, none, some, String, ◌==◌, List, [], ◌∷◌, ◌++◌,
  if◌then◌else◌, eq_iff, arith, Bool-cases, inl, inr, subst,
}
use my_ai_gateway.Prelude.Text.{trim}
use my_ai_gateway.Prelude.Bytes.{as_bytes}
use my_ai_gateway.Domain.Protocol.{openai_chat_completions, openai_responses}
use my_ai_gateway.Proxy.Transport.{
  StreamConfig, completed, idle_timeout, transport_error, buffer_limit_exceeded, is_failure,
  total_timeout,
}
use my_ai_gateway.Proxy.Json.{Json, IsDocumented, member}
use my_ai_gateway.Proxy.Stream.Termination.{classify_frame, error_body, error_payload}
use my_ai_gateway.Proxy.Stream.Termination.Merge.{merge_all, verdict, merge_all-verdict}
use my_ai_gateway.Proxy.Stream.Termination.Frame.{
  error_event, failure_class, classify_frame-error_body,
}
use my_ai_gateway.Proxy.Stream.Tracker.{SseEventTracker, new_tracker}
use my_ai_gateway.Proxy.Stream.Feed.{feed}
use my_ai_gateway.Proxy.Stream.Feed.Bounds.{IsBounded, created, fed, reachable-IsBounded}
use my_ai_gateway.Proxy.Stream.Feed.Failure.{feed-failure_stays}
use my_ai_gateway.Proxy.Stream.Native.{
  Item, ok, err, NativeState, Reading, Run, new, total_deadline, failure_frames, run,
  wrap_native_body,
}
use my_ai_gateway.Proxy.Stream.Relay.{Relays}
use my_ai_gateway.Proxy.Stream.Relay.Whole.{wrap_native_body-Relays}
use my_ai_gateway.Proxy.Stream.Native.Deadline.{Closes, run-total_timeout}

mutual
  pub data Value : Type 0 where
    text : String → Value
    object : Members → Value
    array : Elements → Value

  pub data Members : Type 0 where
    nobody : Members
    having : String → Value → Members → Members

  pub data Elements : Type 0 where
    nothing : Elements
    element : Value → Elements → Elements

abbrev members_of : List (String × Value) → Members
members_of [] = nobody
members_of ((key, value) ∷ rest) = having key value (members_of rest)

abbrev look_up : String → Members → Option Value
look_up key nobody = none
look_up key (having name value rest) =
    let found = look_up key rest in if name == key then some value else found

abbrev get : String → Value → Option Value
get key (text s) = none
get key (object members) = look_up key members
get key (array elements) = none

abbrev pub elements_of : List Value → Elements
elements_of [] = nothing
elements_of (value ∷ rest) = element value (elements_of rest)

abbrev list_of : Elements → List Value
list_of nothing = []
list_of (element value rest) = value ∷ list_of rest

abbrev as_array : Value → Option (List Value)
as_array (text s) = none
as_array (object members) = none
as_array (array elements) = some (list_of elements)

abbrev as_str : Value → Option String
as_str (text s) = some s
as_str (object members) = none
as_str (array elements) = none

abbrev pub reading_back : Value → Json Value
reading_back value = record {
  from_str = λ s. if s == "{}" then some value else none;
  to_string = λ v. some "{}";
  get = get;
  as_str = as_str;
  as_bool = λ v. none;
  as_u64 = λ v. none;
  as_i64 = λ v. none;
  as_array = as_array;
  string = λ s. text s;
  integer = λ n. text "";
  array = λ elements. array (elements_of elements);
  object = λ members. object (members_of members);
}

abbrev json : Json Value
json = reading_back (text "")

look_up-members :
    (key : String) (ms : List (String × Value)) → look_up key (members_of ms) ≡ member key ms
unfolding member
look_up-members key [] = refl
look_up-members key ((name, value) ∷ rest) = ground (arith, look_up-members key rest)

no_json : (value : Value) (s : String) → trim s ≡ "[DONE]" → (reading_back value).from_str s ≡ none
unfolding trim
no_json value s h = elim (Bool-cases (s == "{}")) [
  | inl e ↦
      let braces : s ≡ "{}" = ground (arith, e, eq_iff s "{}") in
      let done : ◌≡◌ {A = String} "{}" "[DONE]" = subst (λ x. trim x ≡ "[DONE]") braces h in
      absurd (ground (arith, done, eq_iff "{}" "[DONE]"))
  | inr e ↦ rw e refl
]

reading_back-IsDocumented : (value : Value) → IsDocumented (reading_back value)
reading_back-IsDocumented value = record {
  get_object = look_up-members;
  as_str_string = λ s. refl;
  no_json = no_json value;
}

classify_frame-error_body_example :
    classify_frame
      (reading_back (error_payload json openai_responses idle_timeout))
      (error_event openai_responses)
      (error_body
        (reading_back (error_payload json openai_responses idle_timeout))
        openai_responses
        idle_timeout)
    ≡ failure_class idle_timeout
unfolding is_failure error_body error_payload
classify_frame-error_body_example =
    classify_frame-error_body (reading_back (error_payload json openai_responses idle_timeout))
      (reading_back-IsDocumented _) openai_responses idle_timeout refl refl

merge_all-verdict_example :
    merge_all (some completed ∷ none ∷ some idle_timeout ∷ some transport_error ∷ []) none
    ≡ verdict (some completed ∷ none ∷ some idle_timeout ∷ some transport_error ∷ [])
merge_all-verdict_example =
    merge_all-verdict (some completed ∷ none ∷ some idle_timeout ∷ some transport_error ∷ [])

-- The bytes of "data: 1", one line and the end of the frame.
abbrev bytes : List ℕ
bytes = 100 ∷ 97 ∷ 116 ∷ 97 ∷ 58 ∷ 32 ∷ 49 ∷ 10 ∷ 10 ∷ []

reachable-IsBounded_example : IsBounded (feed json bytes new_tracker).tracker
reachable-IsBounded_example = reachable-IsBounded json (fed bytes created)

abbrev failed : SseEventTracker Value
failed = record new_tracker { terminal = some idle_timeout }

feed-failure_stays_example :
    ((feed json bytes failed).tracker.terminal ≡ some idle_timeout)
    ⊎ ((feed json bytes failed).tracker.terminal ≡ some buffer_limit_exceeded)
unfolding is_failure
feed-failure_stays_example = feed-failure_stays json bytes failed idle_timeout refl refl

abbrev add : ℕ → ℕ → Option ℕ
add a b = some (a + b)

abbrev limits : StreamConfig
limits = record {
  heartbeat_interval = 15;
  connection_timeout = 120;
  first_event_timeout = 30;
  idle_timeout = 60;
  total_timeout = 300;
}

abbrev reading : ℕ → Reading
reading now = record { now = now; polls = record { ready = true; at = now } ∷ []; after = now }

abbrev body : List Item
body = ok bytes ∷ ok [] ∷ err ∷ []

abbrev readings : List Reading
readings = reading 1 ∷ reading 2 ∷ reading 3 ∷ reading 4 ∷ reading 5 ∷ reading 6 ∷ []

abbrev relayed : Run Value
relayed = wrap_native_body add json body openai_chat_completions limits 0 0 readings

wrap_native_body-Relays_example :
    Relays json openai_chat_completions body
      (relayed.output ++ relayed.state.pending)
      relayed.state.upstream
wrap_native_body-Relays_example =
    wrap_native_body-Relays add json body openai_chat_completions limits 0 0 readings

abbrev begun : NativeState Value
begun = new add body openai_chat_completions limits 0 0

run-total_timeout_example :
    Closes add json
      ([] ++ failure_frames add json begun total_timeout)
      (run add json (reading 300 ∷ reading 301 ∷ reading 302 ∷ reading 303 ∷ []) begun)
unfolding new total_deadline
run-total_timeout_example =
    run-total_timeout add json (reading 300 ∷ reading 301 ∷ reading 302 ∷ reading 303 ∷ []) [] begun
      refl refl refl (refl, (refl, (refl, (refl, tt)))) (omega arith)

-- The end marker of a chat completes the stream, and a heartbeat of the gateway is no event.
feed_end_marker :
    (feed json (as_bytes "data: [DONE]\r\n\r\n") new_tracker).activity.terminal ≡ some completed
unfolding feed as_bytes
feed_end_marker = refl

feed_heartbeat :
    (feed json (as_bytes ": gateway-heartbeat\n\n") new_tracker).activity.provider_event ≡ false
unfolding feed as_bytes
feed_heartbeat = refl

feed_message_stop :
    (feed json (as_bytes "event: message_stop\ndata: {}\n\n") new_tracker).activity.terminal
    ≡ some completed
unfolding feed as_bytes
feed_message_stop = refl

-- Two chunks, whose second one ends the stream: both are sent, and then the body ends.
relayed_end :
    (wrap_native_body add json
      (ok (as_bytes "data: 1\n\n") ∷ ok (as_bytes "data: [DONE]\n\n") ∷ err ∷ [])
      openai_chat_completions
      limits
      0
      0
      readings).output
    ≡ ok (as_bytes "data: 1\n\n") ∷ ok (as_bytes "data: [DONE]\n\n") ∷ []
unfolding wrap_native_body as_bytes
relayed_end = refl
