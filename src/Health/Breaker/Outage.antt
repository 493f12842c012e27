-- ===== src/Health/Breaker/Outage.antt =====
-- The time that src/infra/health.rs keeps an account out of routing.
use my_ai_gateway.Prelude.{
  ℕ, ◌+◌, ◌-◌, ◌≤◌, ◌<◌, ◌≡◌, Bool, refl, ◌∙◌, true, false, not, ◌&&◌, ◌==◌, ◌||◌, Option, some,
  String, leb, if◌then◌else◌, arith,
}
use my_ai_gateway.Health.Types.{HealthConfig, MemoryAccountState, normalized}
use my_ai_gateway.Health.Backoff.{exponential_backoff}
use my_ai_gateway.Health.Backoff.Bounds.{exponential_backoff_bounds}
use my_ai_gateway.Health.Breaker.{Chrono, IsDocumented, chrono_max, after_delay, mark_entry_failure}
use my_ai_gateway.Health.View.{stale, settled_status, derived_status, memory_health}

nested_status-ne-disabled :
    (a b c : Bool)
    → ((if a then "healthy" else if b then "unhealthy" else if c then "unhealthy" else "unknown")
        == "disabled")
      ≡ false
nested_status-ne-disabled true b c = refl
nested_status-ne-disabled false true c = refl
nested_status-ne-disabled false false true = refl
nested_status-ne-disabled false false false = refl

settled_status-ne-disabled :
    (stored : String) (failures : ℕ) → (settled_status stored failures == "disabled") ≡ false
unfolding settled_status
settled_status-ne-disabled stored failures = nested_status-ne-disabled _ _ _

-- The test of the status against "disabled" repeats that of the flags.
available_flags :
    (enabled is_stale cooling : Bool) (stored : String) (failures : ℕ)
    → (enabled
        && (not cooling || is_stale)
        && not (derived_status enabled is_stale cooling stored failures == "disabled"))
      ≡ (enabled && (not cooling || is_stale))
unfolding derived_status
available_flags false is_stale cooling stored failures = refl
available_flags true true false stored failures = refl
available_flags true true true stored failures = refl
available_flags true false true stored failures = refl
available_flags true false false stored failures = rw (settled_status-ne-disabled stored failures)

module _ (chrono : Chrono) where
  stale_lem :
      (now updated stale_after : ℕ)
      → chrono.from_std stale_after ≡ some stale_after
      → stale chrono now (some updated) stale_after ≡ leb (updated + stale_after) now
  unfolding stale
  stale_lem now updated stale_after d = rw (d, stale)

  -- An enabled account with a last observation and a cooldown, under a staleness limit that chrono
  -- holds, is available exactly from the end of the cooldown on, or from the staleness limit after
  -- the observation on.
  pub memory_health-available :
      (state : MemoryAccountState) (now stale_after updated until : ℕ)
      → chrono.from_std stale_after ≡ some stale_after
      → state.enabled ≡ true
      → state.updated_at ≡ some updated
      → state.cooldown_until ≡ some until
      → (memory_health chrono state now stale_after).available
        ≡ (leb until now || leb (updated + stale_after) now)
  unfolding memory_health
  memory_health-available state now stale_after updated until d e u c =
      rw (available_flags _ _ _ _ _)
        (rw (e, u, c, stale_lem now updated stale_after d) (ground arith))

  -- What a failure that opened the breaker left behind.
  opened_entry :
      (config : HealthConfig) (now : ℕ) (source : String) (error : Option String)
      (entry : MemoryAccountState)
      → (mark_entry_failure chrono config now source error entry).1 ≡ true
      → let after = (mark_entry_failure chrono config now source error entry).0 in
        (after.updated_at ≡ some now)
        × (after.enabled ≡ entry.enabled)
        × (config.failure_threshold ≤ after.consecutive_failures)
        × (after.cooldown_until
            ≡ some (
                after_delay chrono now (
                  exponential_backoff config.cooldown config.max_cooldown
                    (after.consecutive_failures - config.failure_threshold + 1))))
  unfolding mark_entry_failure
  opened_entry config now source error entry h = ground arith

  -- With a chrono that behaves as documented and holds the longest cooldown of the normalized
  -- configuration, the cooldown of one failure or more ends after now and at most the longest
  -- cooldown later.
  pub after_delay_bounds :
      (c : HealthConfig) (now failures : ℕ)
      → IsDocumented chrono
      → (normalized c).max_cooldown ≤ chrono_max
      → 0 < failures
      → let until =
          after_delay chrono now
            (exponential_backoff (normalized c).cooldown (normalized c).max_cooldown failures) in
        (now < until) × (until ≤ now + (normalized c).max_cooldown)
  unfolding after_delay normalized
  after_delay_bounds c now failures documented fits h =
      let config = normalized c in
      let bounds =
        exponential_backoff_bounds config.cooldown config.max_cooldown failures h (omega arith) in
      let delay = exponential_backoff config.cooldown config.max_cooldown failures in
      let held : chrono.from_std delay ≡ some delay = documented delay (omega arith) in
      rw held (omega arith)

  -- With a chrono that behaves as documented and holds the longest cooldown and the staleness limit
  -- of the normalized configuration, a failure that opens the breaker of an enabled account sets an
  -- end of the cooldown after now and at most the longest cooldown away, and the account is
  -- available at a time exactly from that end on, or from the staleness limit after now on.
  pub opened_breaker_outage :
      (c : HealthConfig) (now : ℕ) (source : String) (error : Option String)
      (entry : MemoryAccountState)
      → IsDocumented chrono
      → (normalized c).max_cooldown ≤ chrono_max
      → (normalized c).stale_after ≤ chrono_max
      → entry.enabled ≡ true
      → (mark_entry_failure chrono (normalized c) now source error entry).1 ≡ true
      → let after = (mark_entry_failure chrono (normalized c) now source error entry).0 in
        (until : ℕ) × (now < until)
        × (until ≤ now + (normalized c).max_cooldown)
        × ((t : ℕ)
            → (memory_health chrono after t (normalized c).stale_after).available
              ≡ (leb until t || leb (now + (normalized c).stale_after) t))
  opened_breaker_outage c now source error entry documented fits fits' enabled opened =
      let (updated, same, reached, cooldown) =
        opened_entry (normalized c) now source error entry opened in
      let bounds = after_delay_bounds c now _ documented fits (omega arith) in
      (
        _,
        bounds.0,
        bounds.1,
        λ t.
            memory_health-available _ t _ now _ (documented _ fits') (same ∙ enabled) updated
              cooldown,
      )
