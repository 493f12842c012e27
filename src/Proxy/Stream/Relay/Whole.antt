-- ===== src/Proxy/Stream/Relay/Whole.antt =====
-- The whole supervised body of src/proxy/stream.rs relays the upstream.
use my_ai_gateway.Prelude.{
  ℕ, Bool, true, false, ◌||◌, ◌≡◌, refl, Option, none, some, List, [], ◌∷◌, ◌++◌, if-elim, arith,
}
use my_ai_gateway.Domain.Protocol.{Protocol}
use my_ai_gateway.Proxy.Transport.{
  StreamConfig, StreamTermination, is_failure, first_event_timeout, idle_timeout, total_timeout,
}
use my_ai_gateway.Proxy.Json.{Json}
use my_ai_gateway.Proxy.Stream.Native.{
  Item, NativeState, Reading, Event, Run, past, total_deadline, first_deadline, idle_deadline, new,
  queue_failure, select, after_select, check_deadlines, turn, run, wrap_native_body, follow,
}
use my_ai_gateway.Proxy.Stream.Relay.{
  Relays, going, Leads, settled, goes_on, Moves-Leads, Leads-yield,
}
use my_ai_gateway.Proxy.Stream.Relay.Events.{Moved, fail-Moved, on_event-Moved}

module _ (checked_add : ℕ → ℕ → Option ℕ) {V : Type 0} (json : Json V) (protocol : Protocol) where
  -- What a run from the state sends, with what it leaves in the queue.
  record LeadsFrom (s : NativeState V) (r : Run V) : Type 0 where
    leads :
        Leads json protocol s.pending s.upstream s.finish_after_pending
          (r.output ++ r.state.pending)
          r.state.upstream

  after_event :
      {s s' : NativeState V} {r : Run V}
      → s.pending ≡ []
      → s.finish_after_pending ≡ false
      → Moved checked_add json protocol s.upstream s'
      → LeadsFrom s' r
      → LeadsFrom s r
  after_event empty running m h = record {
    leads = rw (empty, running) (goes_on (Moves-Leads json protocol m.moves h.leads));
  }

  after_select-Leads :
      (rs : List Reading) (event : Option Event) (after : ℕ) (s : NativeState V)
      → ((s' : NativeState V) → s'.protocol ≡ protocol → LeadsFrom s' (run checked_add json rs s'))
      → s.protocol ≡ protocol
      → s.pending ≡ []
      → s.finish_after_pending ≡ false
      → LeadsFrom s (
          follow checked_add json
            (run checked_add json rs)
            (after_select checked_add json event after s))
  unfolding after_select
  after_select-Leads rs none after s rest e empty running = record { leads = settled }
  after_select-Leads rs (some event) after s rest e empty running =
      let m = on_event-Moved checked_add json protocol event after s e empty running in
      after_event empty running m (rest _ m.speaks)

  check_deadlines-Leads :
      (r : Reading) (rs : List Reading) (s : NativeState V)
      → ((s' : NativeState V) → s'.protocol ≡ protocol → LeadsFrom s' (run checked_add json rs s'))
      → s.protocol ≡ protocol
      → s.pending ≡ []
      → s.finish_after_pending ≡ false
      → LeadsFrom s
          (follow checked_add json (run checked_add json rs) (check_deadlines checked_add json r s))
  unfolding check_deadlines is_failure
  check_deadlines-Leads r rs s rest e empty running =
      if-elim (λ o. LeadsFrom s (follow checked_add json (run checked_add json rs) o))
        (past (total_deadline checked_add s) r.now) (λ _. expired total_timeout refl)
        (λ _.
          if-elim (λ o. LeadsFrom s (follow checked_add json (run checked_add json rs) o))
            (past (first_deadline checked_add s) r.now) (λ _. expired first_event_timeout refl)
            (λ _.
              if-elim (λ o. LeadsFrom s (follow checked_add json (run checked_add json rs) o))
                (past (idle_deadline checked_add s) r.now) (λ _. expired idle_timeout refl)
                (λ _.
                  after_select-Leads rs (select checked_add s r.polls) r.after s rest e empty
                    running)))
    where
      expired :
          (t : StreamTermination)
          → is_failure t ≡ true
          → LeadsFrom s (run checked_add json rs (queue_failure checked_add json t s))
      expired t h =
          let m = fail-Moved checked_add json protocol t s h e empty in
          after_event empty running m (rest _ m.speaks)

  turn-Leads :
      (pending : List Item) (r : Reading) (rs : List Reading) (s : NativeState V)
      → ((s' : NativeState V) → s'.protocol ≡ protocol → LeadsFrom s' (run checked_add json rs s'))
      → s.protocol ≡ protocol
      → s.pending ≡ pending
      → LeadsFrom s
          (follow checked_add json (run checked_add json rs) (turn checked_add json pending r s))
  unfolding turn
  turn-Leads (x ∷ queue) r rs s rest e queued =
      let h = rest (record s { pending = queue }) e in
      record { leads = rw queued (Leads-yield json protocol h.leads) }
  turn-Leads [] r rs s rest e empty =
      if-elim (λ o. LeadsFrom s (follow checked_add json (run checked_add json rs) o))
        (s.done || s.finish_after_pending) (λ _. record { leads = rw empty settled })
        (λ running. check_deadlines-Leads r rs s rest e empty (finish_false s.done _ running))
    where
      finish_false : (d f : Bool) → (d || f) ≡ false → f ≡ false
      finish_false d f h = ground arith

  run-Leads :
      (rs : List Reading) (s : NativeState V)
      → s.protocol ≡ protocol
      → LeadsFrom s (run checked_add json rs s)
  unfolding run
  run-Leads [] s e = record { leads = settled }
  run-Leads (r ∷ rs) s e = turn-Leads s.pending r rs s (run-Leads rs) e refl

-- A supervised body relays its upstream: whatever the instants, the polls and the JSON, what the body has
-- yielded with what it has queued is an output that `Relays` allows. So the chunks that were read, but
-- the empty ones, appear unchanged and in their order; the gateway's heartbeats stand between
-- chunks; and the frames of one failure, or the end marker of a chat whose upstream has closed, come last,
-- after which nothing follows.
pub wrap_native_body-Relays :
    (checked_add : ℕ → ℕ → Option ℕ) {V : Type 0} (json : Json V) (body : List Item)
    (protocol : Protocol) (config : StreamConfig) (request_started connected_at : ℕ)
    (readings : List Reading)
    → let r =
        wrap_native_body checked_add json body protocol config request_started connected_at
          readings in
      Relays json protocol body (r.output ++ r.state.pending) r.state.upstream
unfolding wrap_native_body new
wrap_native_body-Relays checked_add json body protocol config started connected readings =
    let s = new checked_add body protocol config started connected in
    let h = run-Leads checked_add json protocol readings s refl in
    Moves-Leads json protocol (going (λ rest us r. r)) h.leads
