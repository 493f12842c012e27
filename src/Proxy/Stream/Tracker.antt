-- ===== src/Proxy/Stream/Tracker.antt =====
-- `SseEventTracker` of src/proxy/stream.rs.
use my_ai_gateway.Prelude.{
  ℕ, ◌+◌, Bool, true, false, not, ◌&&◌, ◌||◌, Option, none, some, String, ◌==◌, starts_with, List,
  [], ◌∷◌, ◌++◌, length, any, retain, is_empty, is_some_and, leb, eqb, if◌then◌else◌,
}
use my_ai_gateway.Prelude.Text.{trim, strip_prefix}
use my_ai_gateway.Prelude.Bytes.{from_utf8_lossy}
use my_ai_gateway.Proxy.Transport.{
  StreamTermination, completed, upstream_error, buffer_limit_exceeded, is_failure,
}
use my_ai_gateway.Proxy.Usage.{SseUsageAccumulator, ResponseIdentity, no_usage, no_identity}
use my_ai_gateway.Proxy.Stream.Termination.{
  FrameClass, merge_terminal, looks_like_sse_control, max_tracked_chat_choices,
}

pub record SseActivity : Type 0 where
  pub provider_event : Bool
  pub terminal : Option StreamTermination
  pub error : Bool

-- `SseActivity::default`.
abbrev pub no_activity : SseActivity
no_activity = record { provider_event = false; terminal = none; error = false }

-- The set of unfinished choices is a list of distinct indices, whose order nothing reads.
pub record SseEventTracker (V : Type 0) : Type 0 where
  pub line : List ℕ
  pub frame_bytes : ℕ
  pub usage : SseUsageAccumulator V
  pub response_identity : ResponseIdentity
  pub event_name : String
  pub data_lines : List String
  pub frame_non_comment : Bool
  pub saw_provider_event : Bool
  pub saw_sse_frame : Bool
  pub unfinished_chat_choices : List ℕ
  pub saw_chat_finish : Bool
  pub terminal : Option StreamTermination

abbrev is_limit : StreamTermination → Bool
is_limit buffer_limit_exceeded = true
is_limit _ = false

-- `terminal == Some(StreamTermination::BufferLimitExceeded)`.
abbrev pub at_limit : Option StreamTermination → Bool
at_limit terminal = is_some_and is_limit terminal

-- The tracker and the activity, which the methods change together.
pub record Scan (V : Type 0) : Type 0 where
  pub tracker : SseEventTracker V
  pub activity : SseActivity

-- A loop goes on with the state, or ends with it.
pub data Next (V : Type 0) : Type 0 where
  go_on halt : Scan V → Next V

-- A byte that `u8::is_ascii_whitespace` accepts.
abbrev is_ascii_whitespace : ℕ → Bool
is_ascii_whitespace b = eqb b 9 || eqb b 10 || eqb b 12 || eqb b 13 || eqb b 32

abbrev pub contains : ℕ → List ℕ → Bool
contains index choices = any (eqb index) choices

module _ {V : Type 0} where
  -- `SseEventTracker::default`.
  abbrev pub new_tracker : SseEventTracker V
  new_tracker = record {
    line = [];
    frame_bytes = 0;
    usage = no_usage;
    response_identity = no_identity;
    event_name = "";
    data_lines = [];
    frame_non_comment = false;
    saw_provider_event = false;
    saw_sse_frame = false;
    unfinished_chat_choices = [];
    saw_chat_finish = false;
    terminal = none;
  }

  unfoldable pub limit_exceeded : Scan V → Scan V
  limit_exceeded s = record {
    tracker = record s.tracker {
      line = [];
      data_lines = [];
      event_name = "";
      unfinished_chat_choices = [];
      terminal = some buffer_limit_exceeded;
    };
    activity = record s.activity { terminal = some buffer_limit_exceeded; error = true };
  }

  unfoldable pub mark_completed_after_eof : SseEventTracker V → SseEventTracker V
  unfolding merge_terminal
  mark_completed_after_eof t = record t { terminal = merge_terminal t.terminal (some completed) }

  unfoldable pub safe_for_heartbeat : SseEventTracker V → Bool
  safe_for_heartbeat t =
      is_empty t.line && is_empty t.data_lines && t.event_name == "" && not t.frame_non_comment

  unfoldable pub finish_choice : ℕ → SseEventTracker V → SseEventTracker V
  finish_choice index t = record t {
    saw_chat_finish = true;
    unfinished_chat_choices = retain (λ i. not (eqb index i)) t.unfinished_chat_choices;
  }

  unfoldable pub open_choice : ℕ → Scan V → Next V
  unfolding limit_exceeded
  open_choice index s =
      if contains index s.tracker.unfinished_chat_choices
      then go_on s
      else if leb max_tracked_chat_choices (length s.tracker.unfinished_chat_choices)
      then halt (limit_exceeded s)
      else go_on (record s {
        tracker = record s.tracker {
          unfinished_chat_choices = index ∷ s.tracker.unfinished_chat_choices;
        };
      })

  -- Both halves of the state take the terminal.
  unfoldable pub merge_both : Option StreamTermination → Scan V → Scan V
  unfolding merge_terminal
  merge_both t s = record {
    tracker = record s.tracker { terminal = merge_terminal s.tracker.terminal t };
    activity = record s.activity { terminal = merge_terminal s.activity.terminal t };
  }

  unfoldable pub see_event : Scan V → Scan V
  see_event s = record {
    tracker = record s.tracker { saw_provider_event = true };
    activity = record s.activity { provider_event = true };
  }

  unfoldable pub fail_activity : Bool → Scan V → Scan V
  fail_activity error s = record s {
    activity = record s.activity { error = s.activity.error || error };
  }

  -- The end of `dispatch`: the terminal state of the frame, whether it is an error, whether it holds more
  -- than comments, and the gateway's own terminal state.
  unfoldable pub apply_parts :
      Option StreamTermination → Bool → Bool → Option StreamTermination → Scan V → Scan V
  unfolding merge_both see_event fail_activity is_failure
  apply_parts terminal error visible (some t) s =
      merge_both (some t) (fail_activity (is_failure t) s)
  apply_parts terminal true true none s =
      merge_both (some upstream_error) (fail_activity true (see_event s))
  apply_parts terminal false true none s = merge_both terminal (see_event s)
  apply_parts terminal error false none s = s

  unfoldable pub apply_class : FrameClass → Bool → Scan V → Scan V
  unfolding apply_parts
  apply_class c visible s = apply_parts c.terminal c.error visible c.gateway s

  unfoldable pub take_text : String → SseEventTracker V → SseEventTracker V
  unfolding trim strip_prefix
  take_text text t = elim (strip_prefix "event:" text) [
    | some value ↦ record t { saw_sse_frame = true; event_name = trim value }
    | none ↦ elim (strip_prefix "data:" text) [
      | some value ↦ record t {
        saw_sse_frame = true;
        data_lines = t.data_lines ++ (trim value ∷ []);
      }
      | none ↦
          if starts_with text "id:" || starts_with text "retry:"
          then record t { saw_sse_frame = true }
          else record t { frame_non_comment = true }
    ]
  ]

  unfoldable pub take_line : List ℕ → SseEventTracker V → SseEventTracker V
  unfolding from_utf8_lossy trim take_text
  take_line line t = take_text (trim (from_utf8_lossy line)) t

  unfoldable pub push_byte : ℕ → SseEventTracker V → SseEventTracker V
  push_byte b t = record t {
    line = t.line ++ (b ∷ []);
    frame_non_comment = t.frame_non_comment || (is_empty t.line && not (eqb b b':' || eqb b b' '));
  }

  -- A frame of comments only is no frame.
  abbrev pub is_blank : SseEventTracker V → Bool
  is_blank t = not t.frame_non_comment && is_empty t.data_lines && t.event_name == ""

  abbrev pub until_limit : Scan V → Next V
  until_limit s = if at_limit s.tracker.terminal then halt s else go_on s

  abbrev pub count_byte : Scan V → Scan V
  count_byte s = record s { tracker = record s.tracker { frame_bytes = s.tracker.frame_bytes + 1 } }

  -- A body that is no SSE is an event as soon as it holds more than white space.
  unfoldable pub is_raw_event : List ℕ → SseEventTracker V → Bool
  unfolding looks_like_sse_control
  is_raw_event bytes t =
      is_empty t.line
      && is_empty t.data_lines
      && t.event_name == ""
      && not (is_empty bytes)
      && not (looks_like_sse_control bytes)
      && any (λ b. not (is_ascii_whitespace b)) bytes

  unfoldable pub see_raw : List ℕ → SseEventTracker V → Scan V
  unfolding is_raw_event see_event
  see_raw bytes t =
      let s : Scan V = record { tracker = t; activity = no_activity } in
      if is_raw_event bytes t then see_event s else s
