-- ===== src/Health/Breaker/Invariant.antt =====
-- Sequences of failures and successes of one account in src/infra/health.rs.
use my_ai_gateway.Prelude.{
  ℕ, ◌≤◌, ◌<◌, ◌≡◌, true, Option, String, List, [], ◌∷◌, arith, eq_iff, is_some, ltb, leb, eqb, not,
  ◌||◌, ◌==◌, Bool, refl, false, le→leb, lt→ltb,
}
use my_ai_gateway.Health.Types.{HealthConfig, MemoryAccountState, new_account_state, normalized}
use my_ai_gateway.Health.Breaker.{Chrono, mark_entry_failure, mark_entry_success}

-- The first test implies the second.
abbrev pub implies : Bool → Bool → Bool
implies a b = not a || b

pub record IsConsistent (config : HealthConfig) (entry : MemoryAccountState) : Type 0 where
  -- A cooldown is set only for an account whose failures reached the threshold.
  pub opened :
      implies
        (is_some entry.cooldown_until)
        (leb config.failure_threshold entry.consecutive_failures)
      ≡ true
  -- A window is open exactly while failures are counted.
  pub counted : is_some entry.failure_window_started_at ≡ ltb 0 entry.consecutive_failures
  pub cooling : implies (entry.status == "cooling_down") (is_some entry.cooldown_until) ≡ true
  pub healthy : implies (entry.status == "healthy") (eqb entry.consecutive_failures 0) ≡ true
  -- The account was never disabled in memory.
  pub enabled : entry.enabled ≡ true
  pub failed : implies (is_some entry.last_error) (ltb 0 entry.consecutive_failures) ≡ true

-- The same, as the proof uses it.
record Holds (config : HealthConfig) (entry : MemoryAccountState) : Type 0 where
  opened :
      is_some entry.cooldown_until ≡ true → config.failure_threshold ≤ entry.consecutive_failures
  counted : is_some entry.failure_window_started_at ≡ ltb 0 entry.consecutive_failures
  cooling : entry.status ≡ "cooling_down" → is_some entry.cooldown_until ≡ true
  healthy : entry.status ≡ "healthy" → entry.consecutive_failures ≡ 0
  enabled : entry.enabled ≡ true
  failed : is_some entry.last_error ≡ true → 0 < entry.consecutive_failures

implies_intro : (a b : Bool) → (a ≡ true → b ≡ true) → implies a b ≡ true
implies_intro true b h = h refl
implies_intro false b h = refl

eqb_of_eq : (a b : ℕ) → a ≡ b → eqb a b ≡ true
eqb_of_eq a b h = ground arith

Holds-IsConsistent :
    (config : HealthConfig) (entry : MemoryAccountState)
    → Holds config entry
    → IsConsistent config entry
Holds-IsConsistent config entry h = record {
  opened = implies_intro _ _ (λ set. le→leb _ _ (h.opened set));
  counted = h.counted;
  cooling = implies_intro _ _ (λ same. h.cooling ((eq_iff _ _).0 same));
  healthy = implies_intro _ _ (λ same. eqb_of_eq _ _ (h.healthy ((eq_iff _ _).0 same)));
  enabled = h.enabled;
  failed = implies_intro _ _ (λ set. lt→ltb _ _ (h.failed set));
}

-- A call that the registry makes on the entry.
pub data HealthEvent : Type 0 where
  failure : ℕ → String → Option String → HealthEvent
  success : ℕ → String → HealthEvent

module _ (chrono : Chrono) (config : HealthConfig) where
  unfoldable pub apply_event : HealthEvent → MemoryAccountState → MemoryAccountState
  apply_event (failure now source error) entry =
      (mark_entry_failure chrono config now source error entry).0
  apply_event (success now source) entry = mark_entry_success now source entry

  unfoldable pub apply_events : List HealthEvent → MemoryAccountState → MemoryAccountState
  apply_events [] entry = entry
  apply_events (e ∷ es) entry = apply_events es (apply_event e entry)

  failure-Holds :
      (now : ℕ) (source : String) (error : Option String) (entry : MemoryAccountState)
      → 1 ≤ config.failure_threshold
      → Holds config entry
      → Holds config (mark_entry_failure chrono config now source error entry).0
  unfolding mark_entry_failure
  failure-Holds now source error entry t h = ground (
    arith,
    eq_iff "unhealthy" "cooling_down",
    eq_iff "disabled" "cooling_down",
    eq_iff "cooling_down" "healthy",
    eq_iff "unhealthy" "healthy",
  )

  success-Holds :
      (now : ℕ) (source : String) (entry : MemoryAccountState)
      → Holds config entry
      → Holds config (mark_entry_success now source entry)
  unfolding mark_entry_success
  success-Holds now source entry h =
      ground (arith, eq_iff "healthy" "cooling_down", eq_iff "disabled" "cooling_down")

  apply_events-Holds :
      (events : List HealthEvent) (entry : MemoryAccountState)
      → 1 ≤ config.failure_threshold
      → Holds config entry
      → Holds config (apply_events events entry)
  unfolding apply_events apply_event
  apply_events-Holds [] entry t h = h
  apply_events-Holds (failure now source error ∷ es) entry t h =
      apply_events-Holds es _ t (failure-Holds now source error entry t h)
  apply_events-Holds (success now source ∷ es) entry t h =
      apply_events-Holds es _ t (success-Holds now source entry h)

new_account_state-Holds : (config : HealthConfig) → Holds config new_account_state
unfolding new_account_state
new_account_state-Holds config =
    ground (arith, eq_iff "unknown" "cooling_down", eq_iff "unknown" "healthy")

-- Under a normalized configuration, an entry that any failures and successes led to from the new
-- account is consistent.
pub reachable-IsConsistent :
    (chrono : Chrono) (config : HealthConfig) (events : List HealthEvent)
    → IsConsistent
        (normalized config)
        (apply_events chrono (normalized config) events new_account_state)
unfolding normalized
reachable-IsConsistent chrono config events =
    Holds-IsConsistent (normalized config)
      (apply_events chrono (normalized config) events new_account_state)
      (apply_events-Holds chrono (normalized config) events new_account_state (omega arith)
        (new_account_state-Holds (normalized config)))
