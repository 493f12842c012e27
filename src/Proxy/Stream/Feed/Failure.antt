-- ===== src/Proxy/Stream/Feed/Failure.antt =====
-- What a tracker of src/proxy/stream.rs that has failed, or that reports nothing, keeps.
use my_ai_gateway.Prelude.{ℕ, true, ◌≡◌, refl, ◌⊎◌, inl, inr, Option, none, some, List, arith}
use my_ai_gateway.Proxy.Transport.{StreamTermination, buffer_limit_exceeded, is_failure}
use my_ai_gateway.Proxy.Json.{Json}
use my_ai_gateway.Proxy.Stream.Termination.{merge_terminal}
use my_ai_gateway.Proxy.Stream.Tracker.{SseEventTracker}
use my_ai_gateway.Proxy.Stream.Feed.{feed}
use my_ai_gateway.Proxy.Stream.Feed.Terminal.{Evolves, unchanged, limited, merged, feed-Evolves}

merge_terminal-failure :
    (f : StreamTermination) (c : Option StreamTermination)
    → is_failure f ≡ true
    → merge_terminal (some f) c ≡ some f
unfolding merge_terminal
merge_terminal-failure f none h = refl
merge_terminal-failure f (some c) h = ground arith

Evolves-failure :
    {start t v : Option StreamTermination} (f : StreamTermination)
    → start ≡ some f
    → is_failure f ≡ true
    → Evolves start t v
    → (t ≡ some f) ⊎ (t ≡ some buffer_limit_exceeded)
unfolding is_failure
Evolves-failure f e h unchanged = inl e
Evolves-failure f e h limited = inr refl
Evolves-failure f e h (merged c rest) = elim (Evolves-failure f e h rest) [
  | inl kept ↦ inl (rw kept (merge_terminal-failure f c h))
  | inr full ↦ inr (rw full (merge_terminal-failure buffer_limit_exceeded c refl))
]

merge_terminal-none :
    (v c : Option StreamTermination) → merge_terminal v c ≡ none → (v ≡ none) × (c ≡ none)
unfolding merge_terminal
merge_terminal-none none none h = (refl, refl)
merge_terminal-none none (some c) h = absurd (cc)
merge_terminal-none (some v) none h = absurd (cc)
merge_terminal-none (some v) (some c) h = ground arith

Evolves-quiet : {start t v : Option StreamTermination} → v ≡ none → Evolves start t v → t ≡ start
unfolding merge_terminal
Evolves-quiet e unchanged = refl
Evolves-quiet e limited = absurd (cc)
Evolves-quiet e (merged c {v = v} rest) =
    let (v_none, c_none) = merge_terminal-none v c e in rw c_none (Evolves-quiet v_none rest)

module _ {V : Type 0} (json : Json V) where
  -- Whatever bytes are read, a tracker that has recorded a failure keeps it, unless the buffer limit is
  -- reached, which is then the recorded failure; so a stream that has failed never counts as completed.
  pub feed-failure_stays :
      (bytes : List ℕ) (t : SseEventTracker V) (f : StreamTermination)
      → t.terminal ≡ some f
      → is_failure f ≡ true
      → ((feed json bytes t).tracker.terminal ≡ some f)
        ⊎ ((feed json bytes t).tracker.terminal ≡ some buffer_limit_exceeded)
  feed-failure_stays bytes t f e h = Evolves-failure f e h (feed-Evolves json bytes t)

  -- The recorded terminal state only changes where the call reports a terminal state.
  pub feed-quiet :
      (bytes : List ℕ) (t : SseEventTracker V)
      → (feed json bytes t).activity.terminal ≡ none
      → (feed json bytes t).tracker.terminal ≡ t.terminal
  feed-quiet bytes t e = Evolves-quiet e (feed-Evolves json bytes t)
