-- ===== src/Proxy/Settlement/Reserve.antt =====
-- `try_reserve` of src/proxy/settlement.rs, uninterrupted, as its three actions.
use my_ai_gateway.Prelude.{ℕ, ◌+◌, ◌-◌, true, false, ◌≡◌, subst, Option, some, ltb, if-elim, arith}
use my_ai_gateway.Proxy.Settlement.{
  SettlementManager, enter, acquire, recheck, act, Reachable, acted, AdmissionError, Reply,
  try_reserve, silent, reserved,
}

add_sub : (n : ℕ) → (n + 1) - 1 ≡ n
add_sub n = omega arith

-- The manager that a whole call of `try_reserve` leaves is one that its actions lead to.
pub try_reserve-Reachable :
    {capacity writes : ℕ} (m : SettlementManager)
    → Reachable capacity writes m
    → Reachable capacity writes (try_reserve m).1
unfolding try_reserve act
try_reserve-Reachable {capacity = capacity} {writes = writes} m r =
    if-elim after_call m.closing (λ _. r)
      (λ running. if-elim after_call (ltb 0 m.permits) (λ room. granted running room) (λ _. r))
  where
    after_call : Option AdmissionError × SettlementManager → Type 0
    after_call p = Reachable capacity writes p.1

    entered_one : SettlementManager
    entered_one = record m { entered = m.entered + 1 }

    holding_one : SettlementManager
    holding_one = record m {
      entered = (m.entered + 1) - 1;
      permits = m.permits - 1;
      holding = m.holding + 1;
    }

    reserved_one : ℕ → ℕ → SettlementManager
    reserved_one entered holding = record m {
      entered = entered;
      permits = m.permits - 1;
      holding = holding;
      admitted = m.admitted + 1;
    }

    granted :
        m.closing ≡ false
        → ltb 0 m.permits ≡ true
        → Reachable capacity writes
            (record m { permits = m.permits - 1; admitted = m.admitted + 1 })
    granted running room =
        let e : Path (Option (Reply × SettlementManager)) (act enter m)
            (some (silent, entered_one)) =
          ground (arith, running) in
        let a : Path (Option (Reply × SettlementManager)) (act acquire entered_one)
            (some (silent, holding_one)) =
          ground (arith, room) in
        let c : Path (Option (Reply × SettlementManager)) (act recheck holding_one)
            (some (reserved, reserved_one ((m.entered + 1) - 1) ((m.holding + 1) - 1))) =
          ground (arith, running) in
        subst (λ h. Reachable capacity writes (reserved_one m.entered h)) (add_sub m.holding)
          (subst (λ n. Reachable capacity writes (reserved_one n ((m.holding + 1) - 1)))
            (add_sub m.entered) (acted recheck (acted acquire (acted enter r e) a) c))
