-- ===== src/Proxy/Stream/Feed/Bounds.antt =====
-- How much `SseEventTracker` keeps of a stream.
use my_ai_gateway.Prelude.{
  ℕ, suc, ◌+◌, ◌≤◌, false, ◌≡◌, refl, ap, List, [], ◌∷◌, is_empty, if-elim, if◌then◌else◌, eqb, leb,
  length, length-append, arith,
}
use my_ai_gateway.Proxy.Json.{Json}
use my_ai_gateway.Proxy.Stream.Termination.{max_sse_frame_bytes, max_tracked_chat_choices}
use my_ai_gateway.Proxy.Stream.Tracker.{
  Scan, SseEventTracker, Next, go_on, halt, no_activity, new_tracker, at_limit, take_line,
  push_byte, is_raw_event, see_raw, until_limit, count_byte, mark_completed_after_eof,
}
use my_ai_gateway.Proxy.Stream.Feed.{
  dispatch, process_line, feed_byte, feed_bytes, feed, finish_eof, flush,
}
use my_ai_gateway.Proxy.Stream.Feed.Frame.{
  Cleared, limit_exceeded-Cleared, take_line-bounds, dispatch-Cleared,
}

-- What is kept of the unfinished frame is no more than was read of it, which is at most 1 MiB; and at
-- most 1024 unfinished choices are tracked.
pub record IsBounded {V : Type 0} (t : SseEventTracker V) : Type 0 where
  pub kept : length t.line + length t.data_lines ≤ t.frame_bytes
  pub framed : t.frame_bytes ≤ max_sse_frame_bytes
  pub tracked : length t.unfinished_chat_choices ≤ max_tracked_chat_choices

module _ {V : Type 0} where
  record Bounded (s : Scan V) : Type 0 where
    bounded : IsBounded s.tracker

  -- Between two lines.
  record Flushed (s : Scan V) : Type 0 where
    bounded : IsBounded s.tracker
    no_line : length s.tracker.line ≡ 0

  data BoundedNext : Next V → Type 0 where
    going : {s : Scan V} → Bounded s → BoundedNext (go_on s)
    halting : {s : Scan V} → Bounded s → BoundedNext (halt s)

  of_Cleared : {s : Scan V} → Cleared s → Flushed s
  of_Cleared c = record {
    bounded = record {
      kept = omega (arith, c.no_line, c.no_data);
      framed = c.framed;
      tracked = c.tracked;
    };
    no_line = c.no_line;
  }

  of_Flushed : {s : Scan V} → Flushed s → Bounded s
  of_Flushed f = record { bounded = f.bounded }

  module _ (json : Json V) where
    -- A line that has been read has left at least one byte of the frame.
    after_text :
        {t t' : SseEventTracker V} (b : ℕ) (bs : List ℕ)
        → IsBounded t
        → t.line ≡ b ∷ bs
        → length t'.data_lines ≤ length t.data_lines + 1
        → t'.line ≡ []
        → t'.frame_bytes ≡ t.frame_bytes
        → t'.unfinished_chat_choices ≡ t.unfinished_chat_choices
        → IsBounded t'
    after_text {t = t} {t' = t'} b bs h e data_le no_line same_frame same_choices = record {
      kept =
          let line : length t.line ≡ suc (length bs) = rw e refl in
          let cleared : length t'.line ≡ 0 = rw no_line refl in omega (arith, h.kept);
      framed = rw same_frame h.framed;
      tracked = rw same_choices h.tracked;
    }

    count_byte-IsBounded :
        (s : Scan V)
        → Bounded s
        → leb max_sse_frame_bytes s.tracker.frame_bytes ≡ false
        → IsBounded (count_byte s).tracker
    count_byte-IsBounded s h room = record {
      kept = omega (arith, h.bounded.kept);
      framed = ground (arith, h.bounded.framed);
      tracked = h.bounded.tracked;
    }

    until_limit-Bounded : {s : Scan V} → Bounded s → BoundedNext (until_limit s)
    until_limit-Bounded {s = s} h =
        if-elim BoundedNext (at_limit s.tracker.terminal) (λ _. halting h) (λ _. going h)

    process_line-Flushed : (s : Scan V) → IsBounded s.tracker → Flushed (process_line json s)
    unfolding process_line
    process_line-Flushed s h = of_line s.tracker.line refl
      where
        of_line :
            (line : List ℕ)
            → s.tracker.line ≡ line
            → Flushed (elim line [
              | [] ↦ dispatch json (record s { tracker = record s.tracker { frame_bytes = 0 } })
              | b ∷ bs ↦
                  let t = record s.tracker { line = [] } in
                  if eqb b b':'
                  then record s { tracker = t }
                  else record s { tracker = take_line (b ∷ bs) t }
            ])
        of_line [] e = of_Cleared (
            dispatch-Cleared json (record s { tracker = record s.tracker { frame_bytes = 0 } })
              (rw e refl) (omega arith) h.tracked)
        of_line (b ∷ bs) e =
            if-elim Flushed (eqb b b':')
              (λ _. record {
                bounded = after_text b bs h e (omega arith) refl refl refl;
                no_line = refl;
              })
              (λ _.
                let taken = take_line-bounds (b ∷ bs) (record s.tracker { line = [] }) in
                record {
                  bounded = after_text b bs h e taken.0 taken.1 taken.2 taken.3;
                  no_line = ap length taken.1;
                })

    feed_byte-Bounded : (b : ℕ) (s : Scan V) → Bounded s → BoundedNext (feed_byte json b s)
    unfolding feed_byte push_byte
    feed_byte-Bounded b s h =
        if-elim BoundedNext (leb max_sse_frame_bytes s.tracker.frame_bytes)
          (λ _. halting (of_Flushed (of_Cleared (limit_exceeded-Cleared s h.bounded.framed))))
          (λ room.
            let counted : IsBounded (count_byte s).tracker = count_byte-IsBounded s h room in
            if-elim BoundedNext (eqb b b'\n')
              (λ _. until_limit-Bounded (of_Flushed (process_line-Flushed (count_byte s) counted)))
              (λ _.
                if-elim BoundedNext (eqb b b'\r') (λ _. going (record { bounded = counted }))
                  (λ _. going (record {
                    bounded = record {
                      kept = omega (arith, h.bounded.kept, length-append s.tracker.line (b ∷ []));
                      framed = counted.framed;
                      tracked = counted.tracked;
                    };
                  }))))

    after_byte :
        (bs : List ℕ) {n : Next V}
        → ((s : Scan V) → Bounded s → Bounded (feed_bytes json bs s))
        → BoundedNext n
        → Bounded (elim n [ go_on s' ↦ feed_bytes json bs s' | halt s' ↦ s' ])
    after_byte bs rest (going {s = s} h) = rest s h
    after_byte bs rest (halting h) = h

    feed_bytes-Bounded : (bs : List ℕ) (s : Scan V) → Bounded s → Bounded (feed_bytes json bs s)
    unfolding feed_bytes
    feed_bytes-Bounded [] s h = h
    feed_bytes-Bounded (b ∷ bs) s h =
        after_byte bs (feed_bytes-Bounded bs) (feed_byte-Bounded b s h)

    feed-Bounded :
        (bytes : List ℕ) (t : SseEventTracker V) → IsBounded t → Bounded (feed json bytes t)
    unfolding feed see_raw
    feed-Bounded bytes t h =
        if-elim Bounded (at_limit t.terminal) (λ _. record { bounded = h })
          (λ _. feed_bytes-Bounded bytes _ (
            if-elim Bounded (is_raw_event bytes t)
              (λ _. record {
                bounded = record { kept = h.kept; framed = h.framed; tracked = h.tracked };
              })
              (λ _. record { bounded = h })))

    flush-Flushed : (t : SseEventTracker V) → IsBounded t → Flushed (flush json t)
    unfolding flush
    flush-Flushed t h =
        if-elim Flushed (is_empty t.line) (λ e. record { bounded = h; no_line = ground arith })
          (λ _. process_line-Flushed (record { tracker = t; activity = no_activity }) h)

    finish_eof-Bounded : (t : SseEventTracker V) → IsBounded t → Bounded (finish_eof json t)
    unfolding finish_eof
    finish_eof-Bounded t h =
        let f = flush-Flushed t h in
        of_Flushed (
          of_Cleared
            (dispatch-Cleared json (flush json t) f.no_line f.bounded.framed f.bounded.tracked))

-- The trackers that a stream can lead to.
pub data Reachable {V : Type 0} (json : Json V) : SseEventTracker V → Type 0 where
  created : Reachable json new_tracker
  fed :
      (bytes : List ℕ) {t : SseEventTracker V}
      → Reachable json t
      → Reachable json (feed json bytes t).tracker
  finished : {t : SseEventTracker V} → Reachable json t → Reachable json (finish_eof json t).tracker
  marked : {t : SseEventTracker V} → Reachable json t → Reachable json (mark_completed_after_eof t)

-- Whatever bytes a stream consists of, in whatever chunks, and whatever JSON they hold: the bytes of the
-- unfinished line and the number of data lines of the unfinished frame together are at most the counted
-- bytes of the frame, those are at most 1 MiB, and at most 1024 unfinished choices are tracked.
pub reachable-IsBounded :
    {V : Type 0} (json : Json V) {t : SseEventTracker V} → Reachable json t → IsBounded t
unfolding mark_completed_after_eof
reachable-IsBounded json created = record {
  kept = omega arith;
  framed = omega arith;
  tracked = omega arith;
}
reachable-IsBounded json (fed bytes {t = t} r) =
    (feed-Bounded json bytes t (reachable-IsBounded json r)).bounded
reachable-IsBounded json (finished {t = t} r) =
    (finish_eof-Bounded json t (reachable-IsBounded json r)).bounded
reachable-IsBounded json (marked r) =
    let h = reachable-IsBounded json r in
    record { kept = h.kept; framed = h.framed; tracked = h.tracked }
