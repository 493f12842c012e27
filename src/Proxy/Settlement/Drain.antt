-- ===== src/Proxy/Settlement/Drain.antt =====
-- The shutdown of src/proxy/settlement.rs: what `drain` waits for.
use my_ai_gateway.Prelude.{
  ℕ, suc, ◌+◌, ◌*◌, ◌≤◌, ◌<◌, Bool, true, false, ◌≡◌, ◌≢◌, ◌⊎◌, inl, inr, refl, Option, none, some,
  ltb, arith, Bool-cases, if◌then◌else◌,
}
use my_ai_gateway.Proxy.Settlement.{
  SettlementManager, Action, enter, acquire, recheck, drop_permit, spawn, begin_write, finish_write,
  close, collect, finish_drain, Reply, reserved, act, release, drained, Reachable, acted,
}
use my_ai_gateway.Proxy.Settlement.Capacity.{IsBalanced, reachable-IsBalanced}

-- Once the manager is closing, no action reserves a permit, and it stays closing.
pub act-closing :
    (a : Action) (m m' : SettlementManager) (reply : Reply)
    → m.closing ≡ true
    → act a m ≡ some (reply, m')
    → (reply ≢ reserved) × (m'.closing ≡ true) × (m'.admitted ≤ m.admitted)
unfolding act release
act-closing enter m m' reply h e = ground arith
act-closing acquire m m' reply h e = ground arith
act-closing recheck m m' reply h e = ground arith
act-closing drop_permit m m' reply h e = ground arith
act-closing spawn m m' reply h e = ground arith
act-closing begin_write m m' reply h e = ground arith
act-closing finish_write m m' reply h e = ground arith
act-closing close m m' reply h e = ground arith
act-closing collect m m' reply h e = ground arith
act-closing finish_drain m m' reply h e = ground arith

-- The actions by which calls and tasks that have begun come to their end, and with which the shutdown
-- begins to wait.
abbrev pub settles : Action → Bool
settles enter = false
settles close = false
settles finish_drain = false
settles _ = true

-- At most so many of them are left.
abbrev pub work : SettlementManager → ℕ
work m =
    2 * m.entered
    + m.holding
    + 3 * m.admitted
    + 2 * m.waiting
    + m.writing
    + (if m.draining then 0 else 1)

act-work :
    (a : Action) (m m' : SettlementManager) (reply : Reply)
    → m.closing ≡ true
    → settles a ≡ true
    → act a m ≡ some (reply, m')
    → work m' < work m
unfolding act release
act-work enter m m' reply h s e = absurd (cc)
act-work acquire m m' reply h s e = ground arith
act-work recheck m m' reply h s e = ground arith
act-work drop_permit m m' reply h s e = ground arith
act-work spawn m m' reply h s e = ground arith
act-work begin_write m m' reply h s e = ground arith
act-work finish_write m m' reply h s e = ground arith
act-work close m m' reply h s e = absurd (cc)
act-work collect m m' reply h s e = ground arith
act-work finish_drain m m' reply h s e = absurd (cc)

-- A run of so many settling actions.
pub data Settles : ℕ → SettlementManager → SettlementManager → Type 0 where
  stays : {m : SettlementManager} → Settles 0 m m
  settles_on :
      (a : Action) {n : ℕ} {m m' m'' : SettlementManager} {reply : Reply}
      → settles a ≡ true
      → Path (Option (Reply × SettlementManager)) (act a m) (some (reply, m'))
      → Settles n m' m''
      → Settles (suc n) m m''

-- Some settling action is possible.
pub record GoesOn (m : SettlementManager) : Type 0 where
  action : Action
  reply : Reply
  next : SettlementManager
  is_settling : settles action ≡ true
  acts : Path (Option (Reply × SettlementManager)) (act action m) (some (reply, next))

goes : (a : Action) (m : SettlementManager) → settles a ≡ true → act a m ≢ none → GoesOn m
goes a m s h = of_result (act a m) refl
  where
    of_result : (o : Option (Reply × SettlementManager)) → act a m ≡ o → GoesOn m
    of_result none e = absurd (h e)
    of_result (some (reply, m')) e = record {
      action = a;
      reply = reply;
      next = m';
      is_settling = s;
      acts = e;
    }

-- While the shutdown has not all permits, somebody can act.
held-GoesOn :
    {capacity writes : ℕ} (m : SettlementManager)
    → IsBalanced capacity writes m
    → drained m ≡ false
    → m.closing ≡ true
    → GoesOn m
unfolding act release
held-GoesOn m h e c = elim (Bool-cases (ltb 0 m.holding)) [
  | inl some_held ↦ goes recheck m refl (ground (arith, some_held))
  | inr none_held ↦ elim (Bool-cases (ltb 0 m.admitted)) [
    | inl some_admitted ↦ goes drop_permit m refl (ground (arith, some_admitted))
    | inr none_admitted ↦ elim (Bool-cases (ltb 0 m.writing)) [
      | inl some_writing ↦ goes finish_write m refl (ground (arith, some_writing))
      | inr none_writing ↦ elim (Bool-cases m.draining) [
        | inl waits ↦ goes begin_write m refl (
            ground (
              arith, e, c, none_held, none_admitted, none_writing, h.limit, h.permits_held,
              h.writes_held, h.some_writes, h.taken,
            ))
        | inr not_yet ↦ goes collect m refl (ground (arith, c, not_yet))
      ]
    ]
  ]
]

settle-closing :
    {n : ℕ} {capacity writes : ℕ} {m m' : SettlementManager}
    → Reachable capacity writes m
    → m.closing ≡ true
    → Settles n m m'
    → Reachable capacity writes m' × (m'.closing ≡ true) × (n + work m' ≤ work m)
settle-closing r c stays = (r, c, omega arith)
settle-closing r c (settles_on a {m = m} {m' = next} {reply = reply} s e rest) =
    let closing = act-closing a m next reply c e in
    let (r', c', le) = settle-closing (acted a r e) closing.1 rest in
    (r', c', omega (arith, le, act-work a m next reply c s e))

-- Once the manager is closing, a run of the calls and tasks that have begun, and of the shutdown that
-- begins to wait, has at most as many actions as there is work, and as long as the shutdown has not all
-- permits some action is possible: so the wait of `drain` for all permits ends, in whatever order the
-- actions come, provided that each write that has begun finishes.
pub drain_ends :
    {n : ℕ} {capacity writes : ℕ} {m m' : SettlementManager}
    → Reachable capacity writes m
    → m.closing ≡ true
    → Settles n m m'
    → (n + work m' ≤ work m) × ((drained m' ≡ true) ⊎ GoesOn m')
drain_ends {m' = m'} r c run =
    let (r', c', le) = settle-closing r c run in
    elim (Bool-cases (drained m')) [
      | inl done ↦ (le, inl done)
      | inr busy ↦ (le, inr (held-GoesOn m' (reachable-IsBalanced r') busy c'))
    ]

-- A drained manager has no task that waits or writes, and no admitted request.
pub drained-idle :
    {capacity writes : ℕ} {m : SettlementManager}
    → Reachable capacity writes m
    → drained m ≡ true
    → (m.admitted ≡ 0) × (m.waiting ≡ 0) × (m.writing ≡ 0)
drained-idle r d =
    let h = reachable-IsBalanced r in ground (arith, d, h.limit, h.permits_held, h.taken)
