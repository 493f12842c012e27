-- ===== src/Health/Breaker/Window.antt =====
-- Failures inside one window of the breaker in src/infra/health.rs.
use my_ai_gateway.Prelude.{
  ℕ, ◌+◌, ◌≤◌, ◌<◌, ◌≡◌, true, Option, none, some, String, List, [], ◌∷◌, All, length, arith,
}
use my_ai_gateway.Health.Types.{HealthConfig, MemoryAccountState, u32_max, new_account_state}
use my_ai_gateway.Health.Backoff.{exponential_backoff}
use my_ai_gateway.Health.Breaker.{Chrono, after_delay, mark_entry_failure}

module _ (chrono : Chrono) (config : HealthConfig) (source : String) (error : Option String) where
  -- One call of `mark_memory_failure` at each instant of the list.
  unfoldable pub fail_at : List ℕ → MemoryAccountState → MemoryAccountState
  fail_at [] entry = entry
  fail_at (now ∷ later) entry =
      fail_at later (mark_entry_failure chrono config now source error entry).0

  -- An open window that began at `start` and holds `k` failures, with no cooldown.
  abbrev pub IsCounting : ℕ → ℕ → MemoryAccountState → Type 0
  IsCounting start k entry =
      (entry.cooldown_until ≡ none)
      × (entry.failure_window_started_at ≡ some start)
      × (entry.consecutive_failures ≡ k)

  abbrev pub IsWithin : ℕ → ℕ → Type 0
  IsWithin start now = (start ≤ now) × (now ≤ start + config.failure_window)

  mark_entry_failure-IsCounting :
      (now start k : ℕ) (entry : MemoryAccountState)
      → IsCounting start k entry
      → IsWithin start now
      → k + 1 < config.failure_threshold
      → config.failure_threshold ≤ u32_max
      → IsCounting start (k + 1) (mark_entry_failure chrono config now source error entry).0
  unfolding mark_entry_failure
  mark_entry_failure-IsCounting now start k entry c w t u = ground arith

  fail_at-IsCounting :
      (start k : ℕ) (times : List ℕ) (entry : MemoryAccountState)
      → IsCounting start k entry
      → All (IsWithin start) times
      → k + length times < config.failure_threshold
      → config.failure_threshold ≤ u32_max
      → IsCounting start (k + length times) (fail_at times entry)
  unfolding fail_at
  fail_at-IsCounting start k [] entry c w t u = ground arith
  fail_at-IsCounting start k (now ∷ later) entry c (w, ws) t u =
      let counted = mark_entry_failure-IsCounting now start k entry c w (omega arith) u in
      let rest = fail_at-IsCounting start (k + 1) later _ counted ws (omega arith) u in
      (rest.0, rest.1, omega (arith, rest.2))

  first_failure-IsCounting :
      (start : ℕ)
      → 1 < config.failure_threshold
      → IsCounting start 1 (mark_entry_failure chrono config start source error new_account_state).0
  unfolding mark_entry_failure new_account_state
  first_failure-IsCounting start t = ground arith

  last_failure_opens :
      (now start k : ℕ) (entry : MemoryAccountState)
      → IsCounting start k entry
      → IsWithin start now
      → k + 1 ≡ config.failure_threshold
      → config.failure_threshold ≤ u32_max
      → let (after, opened) = mark_entry_failure chrono config now source error entry in
        (opened ≡ true)
        × (after.cooldown_until
            ≡ some (
                after_delay chrono now (exponential_backoff config.cooldown config.max_cooldown 1)))
  unfolding mark_entry_failure
  last_failure_opens now start k entry c w t u = ground arith

  -- A new account fails at `start` and at `times`, all inside the window that begins at `start`, and
  -- the failures are one short of the threshold, which is at least two and fits a u32: no cooldown
  -- is set, and one more failure in the window opens the breaker with the first delay.
  pub breaker_opens_at_threshold :
      (start last : ℕ) (times : List ℕ)
      → All (IsWithin start) times
      → IsWithin start last
      → length times + 2 ≡ config.failure_threshold
      → config.failure_threshold ≤ u32_max
      → let entry = fail_at (start ∷ times) new_account_state in
        let (after, opened) = mark_entry_failure chrono config last source error entry in
        (entry.cooldown_until ≡ none)
        × (opened ≡ true)
        × (after.cooldown_until
            ≡ some (
                after_delay chrono last
                  (exponential_backoff config.cooldown config.max_cooldown 1)))
  unfolding fail_at
  breaker_opens_at_threshold start last times ws w t u =
      let counting : IsCounting start (1 + length times) (
          fail_at times (mark_entry_failure chrono config start source error new_account_state).0) =
        fail_at-IsCounting start 1 times _ (first_failure-IsCounting start (omega arith)) ws
          (omega arith) u in
      let opens = last_failure_opens last start (1 + length times) _ counting w (omega arith) u in
      (counting.0, opens.0, opens.1)
