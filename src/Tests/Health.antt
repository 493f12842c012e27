-- ===== src/Tests/Health.antt =====
-- The theorems on src/infra/health.rs and src/infra/db/health.rs at concrete inputs.
use my_ai_gateway.Prelude.{
  ℕ, ◌+◌, ◌≤◌, ◌<◌, ◌≡◌, ◌≢◌, refl, true, ◌||◌, none, some, String, List, [], ◌∷◌, leb, arith,
  eq_iff,
}
use my_ai_gateway.Health.Types.{MemoryAccountState, default_config, normalized, new_account_state}
use my_ai_gateway.Health.Backoff.{exponential_backoff}
use my_ai_gateway.Health.Breaker.{KeepsMicroseconds, after_delay, mark_entry_failure}
use my_ai_gateway.Health.Breaker.Window.{fail_at, breaker_opens_at_threshold}
use my_ai_gateway.Health.Breaker.Invariant.{
  HealthEvent, failure, success, IsConsistent, apply_events, reachable-IsConsistent,
}
use my_ai_gateway.Health.Breaker.Outage.{opened_breaker_outage}
use my_ai_gateway.Health.View.{memory_health}
use my_ai_gateway.Health.Database.Agrees.{Matches, IsStored, apply_row_events, apply_events-Matches}
use my_ai_gateway.Tests.Data.{chrono, chrono-IsDocumented, entry_a, row_a}

-- Three failures within a minute under the default configuration.
breaker_opens_at_threshold_example :
    let entry =
      fail_at chrono default_config "passive" none (1_000 ∷ 2_000 ∷ []) new_account_state in
    let (after, opened) = mark_entry_failure chrono default_config 3_000 "passive" none entry in
    (entry.cooldown_until ≡ none)
    × (opened ≡ true)
    × (after.cooldown_until
        ≡ some (
            after_delay chrono 3_000
              (exponential_backoff default_config.cooldown default_config.max_cooldown 1)))
unfolding default_config
breaker_opens_at_threshold_example =
    breaker_opens_at_threshold chrono default_config "passive" none 1_000 3_000 (2_000 ∷ [])
      ((omega arith, omega arith), tt) (omega arith, omega arith) (omega arith) (omega arith)

reachable-IsConsistent_example : IsConsistent (normalized default_config) (
    apply_events chrono
      (normalized default_config)
      (failure 1_000 "passive" none ∷ success 2_000 "probe" ∷ [])
      new_account_state)
reachable-IsConsistent_example =
    reachable-IsConsistent chrono default_config
      (failure 1_000 "passive" none ∷ success 2_000 "probe" ∷ [])

abbrev cooling_entry : MemoryAccountState
cooling_entry = record entry_a { status = "cooling_down"; cooldown_until = some 30_000 }

-- The third failure opens the breaker.
opened_breaker_outage_example :
    let after =
      (mark_entry_failure chrono (normalized default_config) 2_000 "passive" none entry_a).0 in
    (until : ℕ) × (2_000 < until)
    × (until ≤ 2_000 + (normalized default_config).max_cooldown)
    × ((t : ℕ)
        → (memory_health chrono after t (normalized default_config).stale_after).available
          ≡ (leb until t || leb (2_000 + (normalized default_config).stale_after) t))
unfolding normalized default_config mark_entry_failure
opened_breaker_outage_example =
    opened_breaker_outage chrono default_config 2_000 "passive" none entry_a chrono-IsDocumented
      (omega arith) (omega arith) refl refl

entry_a-Matches : Matches entry_a row_a
entry_a-Matches = record {
  entry_enabled = refl;
  row_enabled = refl;
  source_enabled = refl;
  status = refl;
  source = refl;
  cooldown_until = refl;
  consecutive_failures = refl;
  window = refl;
  updated_at = refl;
  last_error = refl;
  last_success_at = refl;
  last_probe_at = refl;
  last_probe_status = refl;
  last_probe_error = refl;
}

chrono-KeepsMicroseconds : KeepsMicroseconds chrono
chrono-KeepsMicroseconds n = omega arith

row_a-IsStored : IsStored chrono row_a
row_a-IsStored = record { cooldown = refl; window = refl }

abbrev observed_twice : List HealthEvent
observed_twice = failure 2_000 "passive" none ∷ success 3_000 "passive" ∷ []

apply_events-Matches_example :
    Matches
      (apply_events chrono (normalized default_config) observed_twice entry_a)
      (apply_row_events chrono default_config observed_twice row_a)
unfolding normalized default_config
apply_events-Matches_example =
    apply_events-Matches chrono default_config observed_twice entry_a row_a chrono-IsDocumented
      chrono-KeepsMicroseconds (omega arith) (omega arith) ((2, refl), ((3, refl), tt))
      row_a-IsStored entry_a-Matches

a-ne-b : ◌≢◌ {A = String} "a" "b"
a-ne-b h = ground (arith, eq_iff "a" "b")
