-- ===== src/Proxy/Stream/Native.antt =====
-- The supervised body of src/proxy/stream.rs: `NativeState`, `next_native` and `wrap_native_body`.
mod State
pub mod Deadline
pub use State.*
use my_ai_gateway.Prelude.{
  ℕ, Bool, true, false, not, ◌&&◌, ◌||◌, Option, none, some, List, [], ◌∷◌, ◌++◌, is_empty, is_some,
  is_some_and, eqb, leb, if◌then◌else◌,
}
use my_ai_gateway.Prelude.Bytes.{as_bytes}
use my_ai_gateway.Domain.Protocol.{Protocol, openai_chat_completions, same_protocol}
use my_ai_gateway.Proxy.Transport.{
  StreamConfig, StreamTermination, empty_stream, transport_error, incomplete_stream,
  buffer_limit_exceeded, first_event_timeout, idle_timeout, total_timeout,
}
use my_ai_gateway.Proxy.Json.{Json}
use my_ai_gateway.Proxy.Stream.Termination.{heartbeat_frame, chat_done_frame, gateway_error_frame}
use my_ai_gateway.Proxy.Stream.Tracker.{
  SseEventTracker, SseActivity, Scan, new_tracker, at_limit, safe_for_heartbeat,
  mark_completed_after_eof,
}
use my_ai_gateway.Proxy.Stream.Feed.{feed, finish_eof}

-- `deadline.is_some_and(|deadline| deadline <= now)`.
abbrev pub past : Option ℕ → ℕ → Bool
past deadline now = is_some_and (λ d. leb d now) deadline

-- `checked_add` is `Instant::checked_add`, whose range is the platform's.
module _ (checked_add : ℕ → ℕ → Option ℕ) where
  -- No deadline if the limit is zero.
  abbrev pub after_limit : ℕ → ℕ → Option ℕ
  after_limit limit start = if eqb limit 0 then none else checked_add start limit

  module _ {V : Type 0} where
    -- `NativeState::new`, with the instant that it reads.
    unfoldable pub new : List Item → Protocol → StreamConfig → ℕ → ℕ → NativeState V
    new upstream protocol config request_started connected_at = record {
      upstream = upstream;
      protocol = protocol;
      config = config;
      request_started = request_started;
      connected_at = connected_at;
      tracker = new_tracker;
      pending = [];
      finish_after_pending = false;
      done = false;
      next_heartbeat = after_limit config.heartbeat_interval connected_at;
      last_event = none;
    }

    unfoldable pub total_deadline : NativeState V → Option ℕ
    total_deadline s = after_limit s.config.total_timeout s.request_started

    unfoldable pub first_deadline : NativeState V → Option ℕ
    first_deadline s =
        if s.tracker.saw_provider_event
        then none
        else after_limit s.config.first_event_timeout s.connected_at

    unfoldable pub idle_deadline : NativeState V → Option ℕ
    idle_deadline s = elim s.last_event [
      | none ↦ none
      | some at ↦ after_limit s.config.idle_timeout at
    ]

    -- The first branch that is ready, in the order of the source.
    unfoldable pub poll_branches : NativeState V → Poll → Option Event
    unfolding total_deadline first_deadline idle_deadline
    poll_branches s p =
        if p.ready
        then some item
        else if past (total_deadline s) p.at
        then some total_elapsed
        else if past (first_deadline s) p.at
        then some first_elapsed
        else if past (idle_deadline s) p.at
        then some idle_elapsed
        else if past s.next_heartbeat p.at
        then some heartbeat_elapsed
        else none

    unfoldable pub select : NativeState V → List Poll → Option Event
    unfolding poll_branches
    select s [] = none
    select s (p ∷ ps) = elim (poll_branches s p) [ some e ↦ some e | none ↦ select s ps ]

    unfoldable pub beat : ℕ → NativeState V → NativeState V
    unfolding safe_for_heartbeat as_bytes
    beat after s = record s {
      pending =
          if safe_for_heartbeat s.tracker
          then s.pending ++ (ok (as_bytes heartbeat_frame) ∷ [])
          else s.pending;
      next_heartbeat = after_limit s.config.heartbeat_interval after;
    }

    abbrev pub finish : NativeState V → NativeState V
    finish s = record s { finish_after_pending = true }

    module _ (json : Json V) where
      -- An interrupted frame is closed first.
      unfoldable pub failure_frames : NativeState V → StreamTermination → List Item
      unfolding safe_for_heartbeat gateway_error_frame as_bytes
      failure_frames s termination =
          let frame = ok (gateway_error_frame json s.protocol termination) ∷ [] in
          if not (safe_for_heartbeat s.tracker) || at_limit (some termination)
          then ok (as_bytes "\n\n") ∷ frame
          else frame

      unfoldable pub queue_failure : StreamTermination → NativeState V → NativeState V
      unfolding failure_frames
      queue_failure termination s = record s {
        pending = s.pending ++ failure_frames s termination;
        finish_after_pending = true;
      }

      unfoldable pub note_event : SseActivity → ℕ → NativeState V → NativeState V
      note_event activity after s =
          if activity.provider_event
          then record s {
            last_event = some after;
            next_heartbeat = after_limit s.config.heartbeat_interval after;
          }
          else s

      unfoldable pub close_on : SseActivity → NativeState V → NativeState V
      unfolding queue_failure
      close_on activity s =
          if at_limit activity.terminal
          then queue_failure buffer_limit_exceeded s
          else if activity.error || is_some activity.terminal
          then finish s
          else s

      -- `Some(Ok(bytes))`, of bytes that are not empty.
      unfoldable pub on_bytes : List ℕ → ℕ → NativeState V → NativeState V
      unfolding feed note_event close_on
      on_bytes bytes after s =
          let scan = feed json bytes s.tracker in
          close_on scan.activity
            (record (note_event scan.activity after (record s { tracker = scan.tracker })) {
              pending = s.pending ++ (ok bytes ∷ []);
            })

      -- A chat that has finished all of its choices is completed in the provider's place.
      unfoldable pub on_unmarked_end : NativeState V → NativeState V
      unfolding queue_failure mark_completed_after_eof as_bytes
      on_unmarked_end s =
          if not s.tracker.saw_provider_event
          then queue_failure empty_stream s
          else if not s.tracker.saw_sse_frame
          then finish s
          else if same_protocol s.protocol openai_chat_completions
              && s.tracker.saw_chat_finish
              && is_empty s.tracker.unfinished_chat_choices
          then record s {
            tracker = mark_completed_after_eof s.tracker;
            pending = s.pending ++ (ok (as_bytes chat_done_frame) ∷ []);
            finish_after_pending = true;
          }
          else queue_failure incomplete_stream s

      unfoldable pub on_end : NativeState V → NativeState V
      unfolding finish_eof on_unmarked_end
      on_end s =
          let t = (finish_eof json s.tracker).tracker in
          elim t.terminal [
            | some termination ↦ finish (record s { tracker = t })
            | none ↦ on_unmarked_end (record s { tracker = t })
          ]

      unfoldable pub receive : List Item → ℕ → NativeState V → NativeState V
      unfolding on_bytes on_end queue_failure
      receive [] after s = on_end s
      receive (err ∷ rest) after s = queue_failure transport_error (record s { upstream = rest })
      receive (ok [] ∷ rest) after s = record s { upstream = rest }
      receive (ok (b ∷ bytes) ∷ rest) after s =
          on_bytes (b ∷ bytes) after (record s { upstream = rest })

      unfoldable pub on_event : Event → ℕ → NativeState V → NativeState V
      unfolding receive queue_failure beat
      on_event item after s = receive s.upstream after s
      on_event total_elapsed after s = queue_failure total_timeout s
      on_event first_elapsed after s = queue_failure first_event_timeout s
      on_event idle_elapsed after s = queue_failure idle_timeout s
      on_event heartbeat_elapsed after s = beat after s

      unfoldable pub after_select : Option Event → ℕ → NativeState V → Outcome V
      unfolding on_event
      after_select none after s = waiting s
      after_select (some e) after s = again (on_event e after s)

      unfoldable pub check_deadlines : Reading → NativeState V → Outcome V
      unfolding queue_failure total_deadline first_deadline idle_deadline select after_select
      check_deadlines r s =
          if past (total_deadline s) r.now
          then again (queue_failure total_timeout s)
          else if past (first_deadline s) r.now
          then again (queue_failure first_event_timeout s)
          else if past (idle_deadline s) r.now
          then again (queue_failure idle_timeout s)
          else after_select (select s r.polls) r.after s

      -- One turn of the loop of `next_native`, up to the taking of a pending item.
      unfoldable pub turn : List Item → Reading → NativeState V → Outcome V
      unfolding check_deadlines
      turn (x ∷ rest) r s = yielded x (record s { pending = rest })
      turn [] r s =
          if s.done || s.finish_after_pending
          then ended (record s { done = true })
          else check_deadlines r s

      abbrev pub emit : Item → Run V → Run V
      emit x r = record r { output = x ∷ r.output }

      -- What follows a turn.
      abbrev pub follow : (NativeState V → Run V) → Outcome V → Run V
      follow next (yielded x s) = emit x (next s)
      follow next (again s) = next s
      follow next (waiting s) = record { output = []; state = s; closed = false }
      follow next (ended s) = record { output = []; state = s; closed = true }

      -- `stream::unfold(state, next_native)`, for the turns that the readings describe.
      unfoldable pub run : List Reading → NativeState V → Run V
      unfolding turn
      run [] s = record { output = []; state = s; closed = false }
      run (r ∷ rs) s = follow (run rs) (turn s.pending r s)

      unfoldable pub wrap_native_body :
          List Item → Protocol → StreamConfig → ℕ → ℕ → List Reading → Run V
      unfolding new run
      wrap_native_body body protocol config request_started connected_at readings =
          run readings (new body protocol config request_started connected_at)
