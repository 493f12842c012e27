-- ===== src/Proxy/Stream/Native/State.antt =====
-- The state of the supervised body of src/proxy/stream.rs, and what a turn of its loop meets.
use my_ai_gateway.Prelude.{ℕ, Bool, Option, List}
use my_ai_gateway.Domain.Protocol.{Protocol}
use my_ai_gateway.Proxy.Transport.{StreamConfig}
use my_ai_gateway.Proxy.Stream.Tracker.{SseEventTracker}

-- `Result<Bytes, io::Error>`.
pub data Item : Type 0 where
  ok : List ℕ → Item
  err : Item

-- `upstream` lists what the upstream is going to send before it closes.
pub record NativeState (V : Type 0) : Type 0 where
  pub upstream : List Item
  pub protocol : Protocol
  pub config : StreamConfig
  pub request_started : ℕ
  pub connected_at : ℕ
  pub tracker : SseEventTracker V
  pub pending : List Item
  pub finish_after_pending : Bool
  pub done : Bool
  pub next_heartbeat : Option ℕ
  pub last_event : Option ℕ

-- A poll of `select!`: whether the upstream's next item is there, and the instant.
pub record Poll : Type 0 where
  pub ready : Bool
  pub at : ℕ

-- What a turn of the loop of `next_native` meets: the instant of its check of the deadlines, the polls of
-- its `select!`, and the instant after the branch that was taken.
pub record Reading : Type 0 where
  pub now : ℕ
  pub polls : List Poll
  pub after : ℕ

-- The branch of `select!` that is taken.
pub data Event : Type 0 where
  item total_elapsed first_elapsed idle_elapsed heartbeat_elapsed : Event

-- The end of a turn: `Some((item, state))`, `None`, a `select!` that still waits, or another turn.
pub data Outcome (V : Type 0) : Type 0 where
  yielded : Item → NativeState V → Outcome V
  ended waiting again : NativeState V → Outcome V

-- What the body has yielded, the state that is left, and whether the body has ended.
pub record Run (V : Type 0) : Type 0 where
  pub output : List Item
  pub state : NativeState V
  pub closed : Bool
