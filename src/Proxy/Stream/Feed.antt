-- ===== src/Proxy/Stream/Feed.antt =====
-- Reading the bytes of a stream: `feed`, `process_line`, `dispatch` and `finish_eof` of
-- src/proxy/stream.rs.
pub mod Terminal
pub mod Failure
pub mod Frame
pub mod Bounds
use my_ai_gateway.Prelude.{
  ℕ, ◌+◌, Bool, true, false, not, ◌&&◌, ◌||◌, Option, none, some, String, ◌==◌, starts_with, List,
  [], ◌∷◌, ◌++◌, length, any, all, retain, is_empty, is_some, is_some_and, or_else, and_then,
  unwrap_or, leb, ltb, eqb, if◌then◌else◌,
}
use Prim.Native.String
use my_ai_gateway.Prelude.Text.{trim, strip_prefix}
use my_ai_gateway.Prelude.Bytes.{from_utf8_lossy}
use my_ai_gateway.Proxy.Transport.{
  StreamTermination, completed, upstream_error, buffer_limit_exceeded, is_failure,
}
use my_ai_gateway.Proxy.Json.{Json}
use my_ai_gateway.Proxy.Usage.{
  SseUsageAccumulator, ResponseIdentity, no_usage, no_identity, observe_usage, observe_identity,
}
use my_ai_gateway.Proxy.Stream.Termination.{
  FrameClass, merge_terminal, classify_frame, looks_like_sse_control, max_sse_frame_bytes,
  max_tracked_chat_choices,
}
use my_ai_gateway.Proxy.Stream.Tracker.{
  Scan, SseEventTracker, Next, go_on, halt, no_activity, at_limit, limit_exceeded, finish_choice,
  open_choice, see_event, fail_activity, merge_both, apply_class, take_line, push_byte, is_blank,
  count_byte, until_limit, see_raw,
}

-- `slice::join("\n")`.
unfoldable pub join_lines : List String → String
join_lines [] = ""
join_lines (s ∷ []) = s
join_lines (s ∷ (t ∷ rest)) = String.◌++◌ s (String.◌++◌ "\n" (join_lines (t ∷ rest)))

module _ {V : Type 0} (json : Json V) where
  unfoldable pub choice_index : V → ℕ
  choice_index choice = unwrap_or 0 (and_then (json.get "index" choice) json.as_u64)

  unfoldable pub is_finished : V → Bool
  is_finished choice =
      is_some_and (λ v. not (v == "")) (and_then (json.get "finish_reason" choice) json.as_str)

  unfoldable pub track_choice : V → Scan V → Next V
  unfolding choice_index is_finished finish_choice open_choice
  track_choice choice s =
      if is_finished choice
      then go_on (record s { tracker = finish_choice (choice_index choice) s.tracker })
      else open_choice (choice_index choice) s

  unfoldable pub track_choices : List V → Scan V → Next V
  unfolding track_choice
  track_choices [] s = go_on s
  track_choices (choice ∷ choices) s = elim (track_choice choice s) [
    | go_on s' ↦ track_choices choices s'
    | halt s' ↦ halt s'
  ]

  abbrev pub choices_of : Option V → List V
  choices_of parsed = unwrap_or [] (and_then (and_then parsed (json.get "choices")) json.as_array)

  unfoldable pub observe_payload : String → Option V → SseEventTracker V → SseEventTracker V
  unfolding observe_usage observe_identity
  observe_payload text parsed t = record t {
    usage = observe_usage json text parsed t.usage;
    response_identity = elim parsed [
      | none ↦ t.response_identity
      | some value ↦ observe_identity json value t.response_identity
    ];
  }

  unfoldable pub dispatch_frame : String → String → Bool → Scan V → Scan V
  unfolding track_choices observe_payload classify_frame apply_class
  dispatch_frame name text non_comment s =
      let parsed = json.from_str text in
      elim (track_choices (choices_of parsed)
        (record s { tracker = observe_payload text parsed s.tracker })) [
          | halt s' ↦ s'
          | go_on s' ↦
              apply_class (classify_frame json name text)
                (non_comment || not (text == "") || not (name == "")) s'
        ]

  unfoldable pub dispatch : Scan V → Scan V
  unfolding dispatch_frame join_lines
  dispatch s =
      let t = s.tracker in
      if is_blank t
      then s
      else dispatch_frame t.event_name (join_lines t.data_lines) t.frame_non_comment (record s {
        tracker = record t { event_name = ""; data_lines = []; frame_non_comment = false };
      })

  unfoldable pub process_line : Scan V → Scan V
  unfolding dispatch take_line
  process_line s = elim s.tracker.line [
    | [] ↦ dispatch (record s { tracker = record s.tracker { frame_bytes = 0 } })
    | b ∷ bs ↦
        let t = record s.tracker { line = [] } in
        if eqb b b':' then record s { tracker = t } else record s { tracker = take_line (b ∷ bs) t }
  ]

  -- One turn of the loop of `feed`.
  unfoldable pub feed_byte : ℕ → Scan V → Next V
  unfolding limit_exceeded process_line push_byte
  feed_byte b s =
      if leb max_sse_frame_bytes s.tracker.frame_bytes
      then halt (limit_exceeded s)
      else if eqb b b'\n'
      then until_limit (process_line (count_byte s))
      else if eqb b b'\r'
      then go_on (count_byte s)
      else go_on (record s { tracker = push_byte b (count_byte s).tracker })

  unfoldable pub feed_bytes : List ℕ → Scan V → Scan V
  unfolding feed_byte
  feed_bytes [] s = s
  feed_bytes (b ∷ bs) s = elim (feed_byte b s) [ go_on s' ↦ feed_bytes bs s' | halt s' ↦ s' ]

  unfoldable pub feed : List ℕ → SseEventTracker V → Scan V
  unfolding feed_bytes see_raw
  feed bytes t =
      if at_limit t.terminal
      then record {
        tracker = t;
        activity = record no_activity { error = true; terminal = t.terminal };
      }
      else feed_bytes bytes (see_raw bytes t)

  -- The last line, if it is not terminated, is read as a line.
  unfoldable pub flush : SseEventTracker V → Scan V
  unfolding process_line
  flush t =
      let s : Scan V = record { tracker = t; activity = no_activity } in
      if is_empty t.line then s else process_line s

  unfoldable pub finish_eof : SseEventTracker V → Scan V
  unfolding flush dispatch
  finish_eof t = dispatch (flush t)
