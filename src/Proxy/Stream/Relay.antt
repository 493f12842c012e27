-- ===== src/Proxy/Stream/Relay.antt =====
-- What the supervised body of src/proxy/stream.rs sends of what the upstream sends.
pub mod Events
pub mod Whole
use my_ai_gateway.Prelude.{
  ℕ, Bool, true, false, not, ◌&&◌, ◌||◌, ◌≡◌, refl, sym, subst, ◌∙◌, inl, inr, Option, none, some,
  Option-cases, Bool-cases, List, [], ◌∷◌, ◌++◌, is_empty, is_some, if-elim, if◌then◌else◌, arith,
}
use my_ai_gateway.Prelude.Bytes.{as_bytes}
use my_ai_gateway.Domain.Protocol.{Protocol, openai_chat_completions, same_protocol}
use my_ai_gateway.Proxy.Transport.{
  StreamConfig, StreamTermination, is_failure, empty_stream, transport_error, incomplete_stream,
  buffer_limit_exceeded, first_event_timeout, idle_timeout, total_timeout,
}
use my_ai_gateway.Proxy.Json.{Json}
use my_ai_gateway.Proxy.Stream.Termination.{heartbeat_frame, chat_done_frame, gateway_error_frame}
use my_ai_gateway.Proxy.Stream.Tracker.{SseActivity, at_limit, safe_for_heartbeat}
use my_ai_gateway.Proxy.Stream.Feed.{feed, finish_eof}
use my_ai_gateway.Proxy.Stream.Native.{
  Item, ok, err, NativeState, Reading, Event, item, total_elapsed, first_elapsed, idle_elapsed,
  heartbeat_elapsed, Outcome, yielded, ended, waiting, again, Run, past, total_deadline,
  first_deadline, idle_deadline, new, beat, failure_frames, queue_failure, note_event, close_on,
  finish, on_bytes, on_unmarked_end, on_end, receive, on_event, select, after_select,
  check_deadlines, turn, run, wrap_native_body, emit,
}

module _ {V : Type 0} (json : Json V) (protocol : Protocol) where
  -- The frames of a failure: the error frame of the protocol, with an empty line before it or not.
  pub data FailureFrames (termination : StreamTermination) : List Item → Type 0 where
    bare : FailureFrames termination (ok (gateway_error_frame json protocol termination) ∷ [])
    separated :
        FailureFrames termination
          (ok (as_bytes "\n\n") ∷ ok (gateway_error_frame json protocol termination) ∷ [])

  -- `Relays before output after`: while the upstream goes from `before` to `after`, `output` is what may
  -- be sent. Each chunk that is not empty is sent as it is, in its order; heartbeats stand between
  -- chunks; the frames of one failure, or the end marker of a chat whose upstream has closed, may end the output.
  pub data Relays : List Item → List Item → List Item → Type 0 where
    idle : {us : List Item} → Relays us [] us
    relays :
        (b : ℕ) (bs : List ℕ) {us out us' : List Item}
        → Relays us out us'
        → Relays (ok (b ∷ bs) ∷ us) (ok (b ∷ bs) ∷ out) us'
    skips : {us out us' : List Item} → Relays us out us' → Relays (ok [] ∷ us) out us'
    beats :
        {us out us' : List Item}
        → Relays us out us'
        → Relays us (ok (as_bytes heartbeat_frame) ∷ out) us'
    completes :
        same_protocol protocol openai_chat_completions ≡ true
        → Relays [] (ok (as_bytes chat_done_frame) ∷ []) []
    fails :
        (termination : StreamTermination) {us out : List Item}
        → is_failure termination ≡ true
        → FailureFrames termination out
        → Relays us out us
    breaks : {us out : List Item} → FailureFrames transport_error out → Relays (err ∷ us) out us

  -- What an event makes of an empty queue: the flag that the body finishes, the queue and the upstream.
  pub data Moves (us : List Item) : Bool → List Item → List Item → Type 0 where
    closing : {out us' : List Item} → Relays us out us' → Moves us true out us'
    going :
        {out us' : List Item}
        → ((rest us'' : List Item) → Relays us' rest us'' → Relays us (out ++ rest) us'')
        → Moves us false out us'

  -- What is sent and queued at last, from a state with the flag, the queue and the upstream.
  pub data Leads (queue us : List Item) : Bool → List Item → List Item → Type 0 where
    settled : {finishing : Bool} → Leads queue us finishing queue us
    goes_on : {rest us' : List Item} → Relays us rest us' → Leads queue us false (queue ++ rest) us'

  append_nil : (xs : List Item) → xs ++ [] ≡ xs
  append_nil [] = refl
  append_nil (x ∷ xs) = rw (append_nil xs) refl

  pub Moves-Leads :
      {us queue us' out us'' : List Item} {finishing : Bool}
      → Moves us finishing queue us'
      → Leads queue us' finishing out us''
      → Relays us out us''
  Moves-Leads (closing r) settled = r
  Moves-Leads {us = us} {us' = us'} (going {out = queue} k) settled =
      subst (λ out. Relays us out us') (append_nil queue) (k [] us' idle)
  Moves-Leads (going k) (goes_on {rest = rest} {us' = us''} r) = k rest us'' r

  pub Leads-yield :
      {x : Item} {queue us out us' : List Item} {finishing : Bool}
      → Leads queue us finishing out us'
      → Leads (x ∷ queue) us finishing (x ∷ out) us'
  Leads-yield settled = settled
  Leads-yield (goes_on r) = goes_on r
