-- ===== src/Proxy/Stream/Relay/Events.antt =====
-- What each event of src/proxy/stream.rs sends: one step of `Relays`.
use my_ai_gateway.Prelude.{
  ℕ, Bool, true, false, not, ◌&&◌, ◌||◌, ◌≡◌, refl, sym, subst, ◌∙◌, Option, none, some, List, [],
  ◌∷◌, ◌++◌, is_empty, is_some, if-elim, arith,
}
use my_ai_gateway.Domain.Protocol.{Protocol, openai_chat_completions, same_protocol}
use my_ai_gateway.Proxy.Transport.{
  StreamTermination, is_failure, empty_stream, transport_error, incomplete_stream,
  buffer_limit_exceeded, first_event_timeout, idle_timeout, total_timeout,
}
use my_ai_gateway.Proxy.Json.{Json}
use my_ai_gateway.Proxy.Stream.Tracker.{SseActivity, at_limit, safe_for_heartbeat}
use my_ai_gateway.Proxy.Stream.Feed.{feed, finish_eof}
use my_ai_gateway.Proxy.Stream.Native.{
  Item, ok, err, NativeState, Event, item, total_elapsed, first_elapsed, idle_elapsed,
  heartbeat_elapsed, beat, failure_frames, queue_failure, note_event, close_on, finish, on_bytes,
  on_unmarked_end, on_end, receive, on_event,
}
use my_ai_gateway.Proxy.Stream.Relay.{
  Relays, idle, relays, skips, beats, completes, fails, breaks, FailureFrames, bare, separated,
  Moves, closing, going,
}

module _ (checked_add : ℕ → ℕ → Option ℕ) {V : Type 0} (json : Json V) (protocol : Protocol) where
  -- What an event makes of the state, whose queue was empty when the upstream was at `us`.
  pub record Moved (us : List Item) (s : NativeState V) : Type 0 where
    pub speaks : s.protocol ≡ protocol
    pub moves : Moves json protocol us s.finish_after_pending s.pending s.upstream

  failure_frames-FailureFrames :
      (s : NativeState V) (t : StreamTermination)
      → s.protocol ≡ protocol
      → FailureFrames json protocol t (failure_frames checked_add json s t)
  unfolding failure_frames
  failure_frames-FailureFrames s t e =
      subst (λ p. FailureFrames json p t (failure_frames checked_add json s t)) e
        (if-elim (FailureFrames json s.protocol t)
          (not (safe_for_heartbeat s.tracker) || at_limit (some t)) (λ _. separated) (λ _. bare))

  queue_failure-Moved :
      {us : List Item} (t : StreamTermination) (s : NativeState V)
      → s.protocol ≡ protocol
      → ((out : List Item)
          → FailureFrames json protocol t out
          → Relays json protocol us (s.pending ++ out) s.upstream)
      → Moved us (queue_failure checked_add json t s)
  unfolding queue_failure
  queue_failure-Moved t s e k = record {
    speaks = e;
    moves = closing (k _ (failure_frames-FailureFrames s t e));
  }

  -- A failure of an empty queue.
  pub fail-Moved :
      (t : StreamTermination) (s : NativeState V)
      → is_failure t ≡ true
      → s.protocol ≡ protocol
      → s.pending ≡ []
      → Moved s.upstream (queue_failure checked_add json t s)
  fail-Moved t s h e empty = queue_failure-Moved t s e (λ out frames. rw empty (fails t h frames))

  note_event-fields :
      (activity : SseActivity) (after : ℕ) (s : NativeState V)
      → ((note_event checked_add json activity after s).protocol ≡ s.protocol)
        × ((note_event checked_add json activity after s).upstream ≡ s.upstream)
        × ((note_event checked_add json activity after s).finish_after_pending
            ≡ s.finish_after_pending)
  unfolding note_event
  note_event-fields activity after s = ground arith

  close_on-Moved :
      (activity : SseActivity) (b : ℕ) (bs : List ℕ) (s : NativeState V)
      → s.protocol ≡ protocol
      → s.pending ≡ ok (b ∷ bs) ∷ []
      → s.finish_after_pending ≡ false
      → Moved (ok (b ∷ bs) ∷ s.upstream) (close_on checked_add json activity s)
  unfolding close_on is_failure
  close_on-Moved activity b bs s e queued running =
      if-elim (Moved (ok (b ∷ bs) ∷ s.upstream)) (at_limit activity.terminal)
        (λ _.
          queue_failure-Moved buffer_limit_exceeded s e
            (λ out frames. rw queued (relays b bs (fails buffer_limit_exceeded refl frames))))
        (λ _.
          if-elim (Moved (ok (b ∷ bs) ∷ s.upstream)) (activity.error || is_some activity.terminal)
            (λ _. record { speaks = e; moves = rw queued (closing (relays b bs idle)) })
            (λ _. record {
              speaks = e;
              moves = rw (queued, running) (going (λ rest us r. relays b bs r));
            }))

  on_bytes-Moved :
      (b : ℕ) (bs : List ℕ) (after : ℕ) (s : NativeState V)
      → s.protocol ≡ protocol
      → s.pending ≡ []
      → s.finish_after_pending ≡ false
      → Moved (ok (b ∷ bs) ∷ s.upstream) (on_bytes checked_add json (b ∷ bs) after s)
  unfolding on_bytes
  on_bytes-Moved b bs after s e empty running =
      let scan = feed json (b ∷ bs) s.tracker in
      let fields = note_event-fields scan.activity after (record s { tracker = scan.tracker }) in
      subst (λ us. Moved (ok (b ∷ bs) ∷ us) (on_bytes checked_add json (b ∷ bs) after s)) fields.1
        (close_on-Moved scan.activity b bs _ (fields.0 ∙ e) (rw empty refl) (fields.2 ∙ running))

  on_unmarked_end-Moved :
      (s : NativeState V)
      → s.protocol ≡ protocol
      → s.pending ≡ []
      → s.upstream ≡ []
      → Moved [] (on_unmarked_end checked_add json s)
  unfolding on_unmarked_end is_failure
  on_unmarked_end-Moved s e empty closed =
      if-elim (Moved []) (not s.tracker.saw_provider_event) (λ _. ended_by empty_stream refl)
        (λ _.
          if-elim (Moved []) (not s.tracker.saw_sse_frame)
            (λ _. record { speaks = e; moves = rw (empty, closed) (closing idle) })
            (λ _.
              if-elim (Moved [])
                (same_protocol s.protocol openai_chat_completions
                  && s.tracker.saw_chat_finish
                  && is_empty s.tracker.unfinished_chat_choices)
                (λ h. record {
                  speaks = e;
                  moves = rw (empty, closed) (closing (completes (is_chat _ _ s.protocol e h)));
                })
                (λ _. ended_by incomplete_stream refl)))
    where
      ended_by :
          (t : StreamTermination)
          → is_failure t ≡ true
          → Moved [] (queue_failure checked_add json t s)
      ended_by t h =
          subst (λ us. Moved us (queue_failure checked_add json t s)) closed
            (fail-Moved t s h e empty)

      is_chat :
          (x y : Bool) (p : Protocol)
          → p ≡ protocol
          → (same_protocol p openai_chat_completions && x && y) ≡ true
          → same_protocol protocol openai_chat_completions ≡ true
      is_chat x y p speaks h = rw (sym speaks) (ground arith)

  on_end-Moved :
      (s : NativeState V)
      → s.protocol ≡ protocol
      → s.pending ≡ []
      → s.upstream ≡ []
      → Moved [] (on_end checked_add json s)
  unfolding on_end
  on_end-Moved s e empty closed = after_eof (finish_eof json s.tracker).tracker.terminal
    where
      after_eof :
          (terminal : Option StreamTermination)
          → Moved [] (elim terminal [
            | some termination ↦
                finish checked_add (record s { tracker = (finish_eof json s.tracker).tracker })
            | none ↦
                on_unmarked_end checked_add json
                  (record s { tracker = (finish_eof json s.tracker).tracker })
          ])
      after_eof (some t) = record { speaks = e; moves = rw (empty, closed) (closing idle) }
      after_eof none =
          on_unmarked_end-Moved (record s { tracker = (finish_eof json s.tracker).tracker }) e empty
            closed

  receive-Moved :
      (us : List Item) (after : ℕ) (s : NativeState V)
      → s.upstream ≡ us
      → s.protocol ≡ protocol
      → s.pending ≡ []
      → s.finish_after_pending ≡ false
      → Moved us (receive checked_add json us after s)
  unfolding receive
  receive-Moved [] after s sends e empty running = on_end-Moved s e empty sends
  receive-Moved (err ∷ rest) after s sends e empty running =
      queue_failure-Moved transport_error (record s { upstream = rest }) e
        (λ out frames. rw empty (breaks frames))
  receive-Moved (ok [] ∷ rest) after s sends e empty running = record {
    speaks = e;
    moves = rw (empty, running) (going (λ out us r. skips r));
  }
  receive-Moved (ok (b ∷ bs) ∷ rest) after s sends e empty running =
      on_bytes-Moved b bs after (record s { upstream = rest }) e empty running

  beat-Moved :
      (after : ℕ) (s : NativeState V)
      → s.protocol ≡ protocol
      → s.pending ≡ []
      → s.finish_after_pending ≡ false
      → Moved s.upstream (beat checked_add after s)
  unfolding beat
  beat-Moved after s e empty running = record {
    speaks = e;
    moves =
        if-elim (λ queue. Moves json protocol s.upstream s.finish_after_pending queue s.upstream)
          (safe_for_heartbeat s.tracker) (λ _. rw (empty, running) (going (λ out us r. beats r)))
          (λ _. rw (empty, running) (going (λ out us r. r)));
  }

  pub on_event-Moved :
      (event : Event) (after : ℕ) (s : NativeState V)
      → s.protocol ≡ protocol
      → s.pending ≡ []
      → s.finish_after_pending ≡ false
      → Moved s.upstream (on_event checked_add json event after s)
  unfolding on_event is_failure
  on_event-Moved item after s e empty running =
      receive-Moved s.upstream after s refl e empty running
  on_event-Moved total_elapsed after s e empty running = fail-Moved total_timeout s refl e empty
  on_event-Moved first_elapsed after s e empty running =
      fail-Moved first_event_timeout s refl e empty
  on_event-Moved idle_elapsed after s e empty running = fail-Moved idle_timeout s refl e empty
  on_event-Moved heartbeat_elapsed after s e empty running = beat-Moved after s e empty running
