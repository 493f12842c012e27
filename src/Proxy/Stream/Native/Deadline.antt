-- ===== src/Proxy/Stream/Native/Deadline.antt =====
-- The supervised body of src/proxy/stream.rs ends after its total deadline.
use my_ai_gateway.Prelude.{
  ℕ, ◌+◌, ◌≤◌, true, false, ◌||◌, ◌≡◌, refl, sym, subst, ap, ◌∙◌, Option, List, [], ◌∷◌, ◌++◌,
  length, All, if-elim, arith,
}
use my_ai_gateway.Proxy.Transport.{total_timeout}
use my_ai_gateway.Proxy.Json.{Json}
use my_ai_gateway.Proxy.Stream.Native.{
  Item, NativeState, Reading, Run, past, total_deadline, failure_frames, queue_failure,
  check_deadlines, turn, run, emit, follow,
}

module _ (checked_add : ℕ → ℕ → Option ℕ) {V : Type 0} (json : Json V) where
  -- The body has closed, and has yielded the items.
  pub record Closes (items : List Item) (r : Run V) : Type 0 where
    pub output : r.output ≡ items
    pub closed : r.closed ≡ true

  emit-Closes :
      {x : Item} {items : List Item} {r : Run V}
      → Closes items r
      → Closes (x ∷ items) (emit checked_add json x r)
  emit-Closes {x = x} h = record { output = ap (λ xs. x ∷ xs) h.output; closed = h.closed }

  -- A state that finishes yields its queue and ends.
  turn-finishing :
      (queue : List Item) (r : Reading) (s : NativeState V) (next : NativeState V → Run V)
      → s.finish_after_pending ≡ true
      → ((x : Item) (rest : List Item)
          → queue ≡ x ∷ rest
          → Closes rest (next (record s { pending = rest })))
      → Closes queue (follow checked_add json next (turn checked_add json queue r s))
  unfolding turn
  turn-finishing (x ∷ queue) r s next finishing rest = emit-Closes (rest x queue refl)
  turn-finishing [] r s next finishing rest =
      if-elim (λ o. Closes [] (follow checked_add json next o)) (s.done || s.finish_after_pending)
        (λ _. record { output = refl; closed = refl })
        (λ running. absurd (ground (arith, finishing, running)))

  run-finishing :
      (rs : List Reading) (queue : List Item) (s : NativeState V)
      → s.pending ≡ queue
      → s.finish_after_pending ≡ true
      → length queue + 1 ≤ length rs
      → Closes queue (run checked_add json rs s)
  unfolding run
  run-finishing [] queue s e finishing enough = absurd (omega (arith, enough))
  run-finishing (r ∷ rs) queue s e finishing enough =
      subst
        (λ q.
          Closes queue
            (follow checked_add json (run checked_add json rs) (turn checked_add json q r s)))
        (sym e)
        (turn-finishing queue r s (run checked_add json rs) finishing (λ x rest q.
          run-finishing rs rest (record s { pending = rest }) refl finishing
            (omega (arith, enough, ap length q))))

  failure_frames-le :
      (s : NativeState V) → length (failure_frames checked_add json s total_timeout) ≤ 2
  unfolding failure_frames
  failure_frames-le s = ground arith

  queued :
      (s : NativeState V)
      → s.pending ≡ []
      → (queue_failure checked_add json total_timeout s).pending
        ≡ failure_frames checked_add json s total_timeout
  unfolding queue_failure
  queued s e = ap (λ q. q ++ failure_frames checked_add json s total_timeout) e

  -- After the deadline, a state that does not finish yields its queue and then fails.
  turn-overdue :
      (queue : List Item) (r : Reading) (s : NativeState V) (next : NativeState V → Run V)
      → s.done ≡ false
      → s.finish_after_pending ≡ false
      → s.pending ≡ queue
      → past (total_deadline checked_add s) r.now ≡ true
      → ((x : Item) (rest : List Item)
          → queue ≡ x ∷ rest
          → Closes
              (rest ++ failure_frames checked_add json s total_timeout)
              (next (record s { pending = rest })))
      → (queue ≡ []
          → Closes
              (failure_frames checked_add json s total_timeout)
              (next (queue_failure checked_add json total_timeout s)))
      → Closes
          (queue ++ failure_frames checked_add json s total_timeout)
          (follow checked_add json next (turn checked_add json queue r s))
  unfolding turn check_deadlines
  turn-overdue (x ∷ queue) r s next running going e late rest fails =
      emit-Closes (rest x queue refl)
  turn-overdue [] r s next running going e late rest fails =
      if-elim
        (λ o.
          Closes (failure_frames checked_add json s total_timeout) (follow checked_add json next o))
        (s.done || s.finish_after_pending) (λ h. absurd (ground (arith, running, going, h)))
        (λ _.
          if-elim
            (λ o.
              Closes (failure_frames checked_add json s total_timeout)
                (follow checked_add json next o))
            (past (total_deadline checked_add s) r.now) (λ _. fails refl)
            (λ h. absurd (ground (arith, h, late))))

  -- Once the total deadline of a body that has not begun to finish is past, the body ends within
  -- four turns more than it has items queued, whatever the upstream does: it yields the queue,
  -- then the frames of the total timeout, and nothing else.
  pub run-total_timeout :
      (rs : List Reading) (queue : List Item) (s : NativeState V)
      → s.done ≡ false
      → s.finish_after_pending ≡ false
      → s.pending ≡ queue
      → All (λ r. past (total_deadline checked_add s) r.now ≡ true) rs
      → length queue + 4 ≤ length rs
      → Closes
          (queue ++ failure_frames checked_add json s total_timeout)
          (run checked_add json rs s)
  unfolding run queue_failure
  run-total_timeout [] queue s running going e late enough = absurd (omega (arith, enough))
  run-total_timeout (r ∷ rs) queue s running going e late enough =
      subst
        (λ q.
          Closes (queue ++ failure_frames checked_add json s total_timeout)
            (follow checked_add json (run checked_add json rs) (turn checked_add json q r s)))
        (sym e)
        (turn-overdue queue r s (run checked_add json rs) running going e late.0
          (λ x rest q.
            run-total_timeout rs rest (record s { pending = rest }) running going refl late.1
              (omega (arith, enough, ap length q)))
          (λ empty.
            run-finishing rs (failure_frames checked_add json s total_timeout)
              (queue_failure checked_add json total_timeout s) (queued s (e ∙ empty)) refl
              (omega (arith, enough, failure_frames-le s))))
