-- ===== src/Proxy/Stream/Feed/Frame.antt =====
-- What `dispatch` of src/proxy/stream.rs leaves of a frame.
use my_ai_gateway.Prelude.{
  ℕ, ◌+◌, ◌≤◌, Bool, true, false, not, ◌||◌, ◌≡◌, refl, Option, none, some, String, ◌==◌, List, [],
  ◌∷◌, inl, inr, Option-cases, if-elim, eqb, leb, length, length-append, length-retain-le, arith,
}
use my_ai_gateway.Prelude.Text.{trim, strip_prefix}
use my_ai_gateway.Prelude.Bytes.{from_utf8_lossy}
use my_ai_gateway.Proxy.Transport.{StreamTermination}
use my_ai_gateway.Proxy.Json.{Json}
use my_ai_gateway.Proxy.Stream.Termination.{
  FrameClass, classify_frame, max_sse_frame_bytes, max_tracked_chat_choices,
}
use my_ai_gateway.Proxy.Stream.Tracker.{
  Scan, SseEventTracker, Next, go_on, halt, limit_exceeded, finish_choice, open_choice, merge_both,
  apply_class, apply_parts, take_line, take_text, contains, is_blank, see_event, fail_activity,
}
use my_ai_gateway.Proxy.Stream.Feed.{
  track_choice, track_choices, dispatch_frame, dispatch, observe_payload, choices_of, join_lines,
  is_finished, choice_index,
}

module _ {V : Type 0} where
  -- Nothing is kept of the frame.
  pub record Cleared (s : Scan V) : Type 0 where
    pub no_line : length s.tracker.line ≡ 0
    pub no_data : length s.tracker.data_lines ≡ 0
    pub framed : s.tracker.frame_bytes ≤ max_sse_frame_bytes
    pub tracked : length s.tracker.unfinished_chat_choices ≤ max_tracked_chat_choices

  data ClearedNext : Next V → Type 0 where
    going : {s : Scan V} → Cleared s → ClearedNext (go_on s)
    halting : {s : Scan V} → Cleared s → ClearedNext (halt s)

  pub limit_exceeded-Cleared :
      (s : Scan V) → s.tracker.frame_bytes ≤ max_sse_frame_bytes → Cleared (limit_exceeded s)
  unfolding limit_exceeded
  limit_exceeded-Cleared s h = record {
    no_line = refl;
    no_data = refl;
    framed = h;
    tracked = omega arith;
  }

  apply_parts-Cleared :
      (terminal : Option StreamTermination) (error visible : Bool)
      (gateway : Option StreamTermination) (s : Scan V)
      → Cleared s
      → Cleared (apply_parts terminal error visible gateway s)
  unfolding apply_parts merge_both see_event fail_activity
  apply_parts-Cleared terminal error visible (some t) s h = record {
    no_line = h.no_line;
    no_data = h.no_data;
    framed = h.framed;
    tracked = h.tracked;
  }
  apply_parts-Cleared terminal true true none s h = record {
    no_line = h.no_line;
    no_data = h.no_data;
    framed = h.framed;
    tracked = h.tracked;
  }
  apply_parts-Cleared terminal false true none s h = record {
    no_line = h.no_line;
    no_data = h.no_data;
    framed = h.framed;
    tracked = h.tracked;
  }
  apply_parts-Cleared terminal error false none s h = h

  take_text-bounds :
      (text : String) (t : SseEventTracker V)
      → (length (take_text text t).data_lines ≤ length t.data_lines + 1)
        × ((take_text text t).line ≡ t.line)
        × ((take_text text t).frame_bytes ≡ t.frame_bytes)
        × ((take_text text t).unfinished_chat_choices ≡ t.unfinished_chat_choices)
  unfolding take_text
  take_text-bounds text t = elim (Option-cases (strip_prefix "data:" text)) [
    | inl e ↦ ground (arith, e)
    | inr (value, e) ↦ ground (arith, e, length-append t.data_lines (trim value ∷ []))
  ]

  pub take_line-bounds :
      (line : List ℕ) (t : SseEventTracker V)
      → (length (take_line line t).data_lines ≤ length t.data_lines + 1)
        × ((take_line line t).line ≡ t.line)
        × ((take_line line t).frame_bytes ≡ t.frame_bytes)
        × ((take_line line t).unfinished_chat_choices ≡ t.unfinished_chat_choices)
  unfolding take_line
  take_line-bounds line t = take_text-bounds (trim (from_utf8_lossy line)) t

  module _ (json : Json V) where
    track_choice-Cleared :
        (choice : V) (s : Scan V) → Cleared s → ClearedNext (track_choice json choice s)
    unfolding track_choice finish_choice open_choice
    track_choice-Cleared choice s h =
        if-elim ClearedNext (is_finished json choice)
          (λ _. going (record {
            no_line = h.no_line;
            no_data = h.no_data;
            framed = h.framed;
            tracked = omega (
              arith,
              h.tracked,
              length-retain-le (λ i. not (eqb (choice_index json choice) i))
                  s.tracker.unfinished_chat_choices,
            );
          }))
          (λ _.
            if-elim ClearedNext
              (contains (choice_index json choice) s.tracker.unfinished_chat_choices) (λ _. going h)
              (λ _.
                if-elim ClearedNext
                  (leb max_tracked_chat_choices (length s.tracker.unfinished_chat_choices))
                  (λ _. halting (limit_exceeded-Cleared s h.framed))
                  (λ room. going (record {
                    no_line = h.no_line;
                    no_data = h.no_data;
                    framed = h.framed;
                    tracked = ground (arith, room);
                  }))))

    after_choice :
        {n : Next V} (choices : List V)
        → ((s : Scan V) → Cleared s → ClearedNext (track_choices json choices s))
        → ClearedNext n
        → ClearedNext (elim n [ go_on s' ↦ track_choices json choices s' | halt s' ↦ halt s' ])
    after_choice choices rest (going {s = s} h) = rest s h
    after_choice choices rest (halting h) = halting h

    track_choices-Cleared :
        (choices : List V) (s : Scan V) → Cleared s → ClearedNext (track_choices json choices s)
    unfolding track_choices
    track_choices-Cleared [] s h = going h
    track_choices-Cleared (choice ∷ choices) s h =
        after_choice choices (track_choices-Cleared choices) (track_choice-Cleared choice s h)

    after_choices :
        (c : FrameClass) (visible : Bool) {n : Next V}
        → ClearedNext n
        → Cleared (elim n [ halt s' ↦ s' | go_on s' ↦ apply_class c visible s' ])
    unfolding apply_class
    after_choices c visible (going {s = s} h) = apply_parts-Cleared _ _ _ _ s h
    after_choices c visible (halting h) = h

    dispatch_frame-Cleared :
        (name text : String) (non_comment : Bool) (s : Scan V)
        → Cleared s
        → Cleared (dispatch_frame json name text non_comment s)
    unfolding dispatch_frame observe_payload
    dispatch_frame-Cleared name text non_comment s h =
        after_choices (classify_frame json name text)
          (non_comment || not (text == "") || not (name == ""))
          (track_choices-Cleared (choices_of json (json.from_str text))
            (record s { tracker = observe_payload json text (json.from_str text) s.tracker })
            (record {
              no_line = h.no_line;
              no_data = h.no_data;
              framed = h.framed;
              tracked = h.tracked;
            }))

    is_blank-no_data : (t : SseEventTracker V) → is_blank t ≡ true → length t.data_lines ≡ 0
    is_blank-no_data t e = ground arith

    pub dispatch-Cleared :
        (s : Scan V)
        → length s.tracker.line ≡ 0
        → s.tracker.frame_bytes ≤ max_sse_frame_bytes
        → length s.tracker.unfinished_chat_choices ≤ max_tracked_chat_choices
        → Cleared (dispatch json s)
    unfolding dispatch
    dispatch-Cleared s no_line framed tracked =
        if-elim Cleared (is_blank s.tracker)
          (λ e. record {
            no_line = no_line;
            no_data = is_blank-no_data s.tracker e;
            framed = framed;
            tracked = tracked;
          })
          (λ _.
            dispatch_frame-Cleared s.tracker.event_name (join_lines s.tracker.data_lines)
              s.tracker.frame_non_comment _
              (record { no_line = no_line; no_data = refl; framed = framed; tracked = tracked }))
