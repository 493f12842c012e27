-- ===== src/Proxy/Stream/Feed/Terminal.antt =====
-- How the terminal state of `SseEventTracker` evolves while bytes are read.
use my_ai_gateway.Prelude.{
  ℕ, Bool, true, false, not, ◌||◌, ◌≡◌, refl, sym, subst, Option, none, some, String, ◌==◌, List,
  [], ◌∷◌, if-elim, is_empty, eqb, leb, if◌then◌else◌, length, arith,
}
use my_ai_gateway.Proxy.Transport.{StreamTermination, buffer_limit_exceeded, upstream_error}
use my_ai_gateway.Proxy.Json.{Json}
use my_ai_gateway.Proxy.Stream.Termination.{
  FrameClass, merge_terminal, classify_frame, max_sse_frame_bytes, max_tracked_chat_choices,
}
use my_ai_gateway.Proxy.Stream.Tracker.{
  Scan, SseEventTracker, Next, go_on, halt, at_limit, no_activity, limit_exceeded, merge_both,
  apply_class, apply_parts, take_line, push_byte, contains, is_blank, is_raw_event, see_raw,
  until_limit, count_byte,
}
use my_ai_gateway.Proxy.Stream.Feed.{
  track_choice, track_choices, dispatch_frame, dispatch, process_line, feed_byte, feed_bytes, feed,
  finish_eof, observe_payload, choices_of, flush, join_lines, is_finished, choice_index,
}

-- From the terminal state `start` of the tracker, with no terminal state of the activity: the states of
-- the tracker and of the activity that merging and the limit lead to.
pub data Evolves (start : Option StreamTermination)
    : Option StreamTermination → Option StreamTermination → Type 0 where
  unchanged : Evolves start start none
  limited : Evolves start (some buffer_limit_exceeded) (some buffer_limit_exceeded)
  merged :
      (c : Option StreamTermination) {t v : Option StreamTermination}
      → Evolves start t v
      → Evolves start (merge_terminal t c) (merge_terminal v c)

module _ {V : Type 0} (start : Option StreamTermination) where
  pub record Along (s : Scan V) : Type 0 where
    pub evolves : Evolves start s.tracker.terminal s.activity.terminal

  pub data AlongNext : Next V → Type 0 where
    going : {s : Scan V} → Along s → AlongNext (go_on s)
    halting : {s : Scan V} → Along s → AlongNext (halt s)

  take_line-terminal :
      (line : List ℕ) (t : SseEventTracker V) → (take_line line t).terminal ≡ t.terminal
  unfolding take_line
  take_line-terminal line t = ground arith

  apply_class-Along :
      (terminal : Option StreamTermination) (error visible : Bool)
      (gateway : Option StreamTermination) (s : Scan V)
      → Along s
      → Along (apply_parts terminal error visible gateway s)
  unfolding apply_parts merge_both
  apply_class-Along terminal error visible (some t) s h = record {
    evolves = merged (some t) h.evolves;
  }
  apply_class-Along terminal true true none s h = record {
    evolves = merged (some upstream_error) h.evolves;
  }
  apply_class-Along terminal false true none s h = record { evolves = merged terminal h.evolves }
  apply_class-Along terminal error false none s h = h

  module _ (json : Json V) where
    track_choice-Along :
        (choice : V) (s : Scan V) → Along s → AlongNext (track_choice json choice s)
    unfolding track_choice
    track_choice-Along choice s h =
        if-elim AlongNext (is_finished json choice) (λ _. going (record { evolves = h.evolves }))
          (λ _.
            if-elim AlongNext
              (contains (choice_index json choice) s.tracker.unfinished_chat_choices) (λ _. going h)
              (λ _.
                if-elim AlongNext
                  (leb max_tracked_chat_choices (length s.tracker.unfinished_chat_choices))
                  (λ _. halting (record { evolves = limited }))
                  (λ _. going (record { evolves = h.evolves }))))

    after_choice :
        {n : Next V} (choices : List V)
        → ((s : Scan V) → Along s → AlongNext (track_choices json choices s))
        → AlongNext n
        → AlongNext (elim n [ go_on s' ↦ track_choices json choices s' | halt s' ↦ halt s' ])
    after_choice choices rest (going {s = s} h) = rest s h
    after_choice choices rest (halting h) = halting h

    track_choices-Along :
        (choices : List V) (s : Scan V) → Along s → AlongNext (track_choices json choices s)
    unfolding track_choices
    track_choices-Along [] s h = going h
    track_choices-Along (choice ∷ choices) s h =
        after_choice choices (track_choices-Along choices) (track_choice-Along choice s h)

    after_choices :
        (c : FrameClass) (visible : Bool) {n : Next V}
        → AlongNext n
        → Along (elim n [ halt s' ↦ s' | go_on s' ↦ apply_class c visible s' ])
    unfolding apply_class
    after_choices c visible (going {s = s} h) = apply_class-Along _ _ _ _ s h
    after_choices c visible (halting h) = h

    dispatch_frame-Along :
        (name text : String) (non_comment : Bool) (s : Scan V)
        → Along s
        → Along (dispatch_frame json name text non_comment s)
    unfolding dispatch_frame observe_payload
    dispatch_frame-Along name text non_comment s h =
        after_choices (classify_frame json name text)
          (non_comment || not (text == "") || not (name == ""))
          (track_choices-Along (choices_of json (json.from_str text))
            (record s { tracker = observe_payload json text (json.from_str text) s.tracker })
            (record { evolves = h.evolves }))

    dispatch-Along : (s : Scan V) → Along s → Along (dispatch json s)
    unfolding dispatch
    dispatch-Along s h =
        if-elim Along (is_blank s.tracker) (λ _. h)
          (λ _.
            dispatch_frame-Along s.tracker.event_name (join_lines s.tracker.data_lines)
              s.tracker.frame_non_comment _ (record { evolves = h.evolves }))

    process_line-Along : (s : Scan V) → Along s → Along (process_line json s)
    unfolding process_line
    process_line-Along s h = of_line s.tracker.line
      where
        of_line :
            (line : List ℕ)
            → Along (elim line [
              | [] ↦ dispatch json (record s { tracker = record s.tracker { frame_bytes = 0 } })
              | b ∷ bs ↦
                  let t = record s.tracker { line = [] } in
                  if eqb b b':'
                  then record s { tracker = t }
                  else record s { tracker = take_line (b ∷ bs) t }
            ])
        of_line [] =
            dispatch-Along (record s { tracker = record s.tracker { frame_bytes = 0 } })
              (record { evolves = h.evolves })
        of_line (b ∷ bs) =
            if-elim Along (eqb b b':') (λ _. record { evolves = h.evolves })
              (λ _. record {
                evolves =
                    subst (λ t. Evolves start t s.activity.terminal)
                      (sym (take_line-terminal (b ∷ bs) (record s.tracker { line = [] })))
                      h.evolves;
              })

    until_limit-Along : {s : Scan V} → Along s → AlongNext (until_limit s)
    until_limit-Along {s = s} h =
        if-elim AlongNext (at_limit s.tracker.terminal) (λ _. halting h) (λ _. going h)

    feed_byte-Along : (b : ℕ) (s : Scan V) → Along s → AlongNext (feed_byte json b s)
    unfolding feed_byte limit_exceeded push_byte
    feed_byte-Along b s h =
        if-elim AlongNext (leb max_sse_frame_bytes s.tracker.frame_bytes)
          (λ _. halting (record { evolves = limited }))
          (λ _.
            if-elim AlongNext (eqb b b'\n')
              (λ _.
                until_limit-Along
                  (process_line-Along (count_byte s) (record { evolves = h.evolves })))
              (λ _.
                if-elim AlongNext (eqb b b'\r') (λ _. going (record { evolves = h.evolves }))
                  (λ _. going (record { evolves = h.evolves }))))

    after_byte :
        (bs : List ℕ) {n : Next V}
        → ((s : Scan V) → Along s → Along (feed_bytes json bs s))
        → AlongNext n
        → Along (elim n [ go_on s' ↦ feed_bytes json bs s' | halt s' ↦ s' ])
    after_byte bs rest (going {s = s} h) = rest s h
    after_byte bs rest (halting h) = h

    feed_bytes-Along : (bs : List ℕ) (s : Scan V) → Along s → Along (feed_bytes json bs s)
    unfolding feed_bytes
    feed_bytes-Along [] s h = h
    feed_bytes-Along (b ∷ bs) s h = after_byte bs (feed_bytes-Along bs) (feed_byte-Along b s h)

-- The terminal state only merges, or is at the limit.
module _ {V : Type 0} (json : Json V) where
  at_limit-some :
      (o : Option StreamTermination) → at_limit o ≡ true → o ≡ some buffer_limit_exceeded
  at_limit-some (some buffer_limit_exceeded) h = refl
  at_limit-some _ h = absurd (cc)

  feed-Along : (bytes : List ℕ) (t : SseEventTracker V) → Along t.terminal (feed json bytes t)
  unfolding feed see_raw
  feed-Along bytes t =
      if-elim (Along t.terminal) (at_limit t.terminal)
        (λ e. record { evolves = rw (at_limit-some t.terminal e) limited })
        (λ _. feed_bytes-Along t.terminal json bytes _ (
          if-elim (Along t.terminal) (is_raw_event bytes t) (λ _. record { evolves = unchanged })
            (λ _. record { evolves = unchanged })))

  pub feed-Evolves :
      (bytes : List ℕ) (t : SseEventTracker V)
      → Evolves t.terminal
          (feed json bytes t).tracker.terminal
          (feed json bytes t).activity.terminal
  feed-Evolves bytes t = (feed-Along bytes t).evolves

  finish_eof-Along : (t : SseEventTracker V) → Along t.terminal (finish_eof json t)
  unfolding finish_eof flush
  finish_eof-Along t = dispatch-Along t.terminal json _ (
      if-elim (Along t.terminal) (is_empty t.line) (λ _. record { evolves = unchanged })
        (λ _.
          process_line-Along t.terminal json (record { tracker = t; activity = no_activity })
            (record { evolves = unchanged })))

  pub finish_eof-Evolves :
      (t : SseEventTracker V)
      → Evolves t.terminal
          (finish_eof json t).tracker.terminal
          (finish_eof json t).activity.terminal
  finish_eof-Evolves t = (finish_eof-Along t).evolves
