-- ===== src/Health/Breaker.antt =====
-- The in-memory state transitions of src/infra/health.rs on one account's entry.
pub mod Window
pub mod Invariant
pub mod Outage
use my_ai_gateway.Prelude.{
  ℕ, ◌+◌, ◌-◌, ◌*◌, ◌≤◌, ◌≡◌, min, Bool, true, false, ◌&&◌, ◌||◌, Option, none, some, String, ◌==◌,
  ltb, leb, if◌then◌else◌, unwrap_or,
}
use my_ai_gateway.Prelude.Text.{trim}
use my_ai_gateway.Health.Types.{HealthConfig, MemoryAccountState, nanos_per_milli, u32_max}
use my_ai_gateway.Health.Backoff.{exponential_backoff}

-- The library chrono: `Duration::from_std` is `none` for a duration that it cannot hold, and
-- documented to hold every duration of up to `i64::MAX` milliseconds. `timestamptz` is the instant that a
-- TIMESTAMPTZ column holds when a `DateTime` is bound to it. The resolution of such a column is documented
-- to be a microsecond, so it holds whole microseconds exactly.
pub record Chrono : Type 0 where
  pub from_std : ℕ → Option ℕ
  pub timestamptz : ℕ → ℕ

abbrev pub chrono_max : ℕ
chrono_max = 9_223_372_036_854_775_807 * nanos_per_milli

abbrev pub IsDocumented : Chrono → Type 0
IsDocumented chrono = (d : ℕ) → d ≤ chrono_max → chrono.from_std d ≡ some d

abbrev pub KeepsMicroseconds : Chrono → Type 0
KeepsMicroseconds chrono = (n : ℕ) → chrono.timestamptz (n * 1_000) ≡ n * 1_000

unfoldable pub normalize_source : String → String
normalize_source source =
    if source == "passive" || source == "probe" || source == "manual" || source == "startup"
    then source
    else "unknown"

unfoldable pub is_safe_error : String → Bool
is_safe_error value =
    value == "upstream request failed"
    || value == "retryable upstream response"
    || value == "upstream stream failed"
    || value == "upstream connection failed"
    || value == "upstream request timed out"
    || value == "account credential unavailable"

unfoldable pub sanitize_error : Option String → Option String
unfolding is_safe_error
sanitize_error none = none
sanitize_error (some text) =
    let value = trim text in some (if is_safe_error value then value else "upstream request failed")

-- `cooldown_until.is_some_and(|until| until > now)`.
abbrev pub cooldown_active : ℕ → Option ℕ → Bool
cooldown_active now none = false
cooldown_active now (some until) = ltb now until

-- `failure_window_started_at.is_none_or(…)`: `to_std` fails for a start that lies ahead of `now`.
abbrev pub window_expired : ℕ → ℕ → Option ℕ → Bool
window_expired window now none = true
window_expired window now (some started_at) =
    if ltb now started_at then true else ltb window (now - started_at)

-- `now + ChronoDuration::from_std(delay).unwrap_or_default()`.
unfoldable pub after_delay : Chrono → ℕ → ℕ → ℕ
after_delay chrono now delay = now + unwrap_or 0 (chrono.from_std delay)

module _ (chrono : Chrono) (config : HealthConfig) (now : ℕ) where
  -- The failure count and the start of its window after one more failure.
  unfoldable pub count_failure : MemoryAccountState → MemoryAccountState
  count_failure entry =
      if window_expired config.failure_window now entry.failure_window_started_at
      then record entry { consecutive_failures = 1; failure_window_started_at = some now }
      else record entry { consecutive_failures = min (entry.consecutive_failures + 1) u32_max }

  -- The breaker opens at the threshold, and closes below it.
  unfoldable pub trip : MemoryAccountState → MemoryAccountState × Bool
  unfolding after_delay
  trip entry =
      if leb config.failure_threshold entry.consecutive_failures
      then (
        record entry {
          cooldown_until = some (
              after_delay chrono now (
                exponential_backoff config.cooldown config.max_cooldown
                  (entry.consecutive_failures - config.failure_threshold + 1)));
        },
        true,
      )
      else (record entry { cooldown_until = none }, false)

  unfoldable pub failed_status : MemoryAccountState → String
  failed_status entry =
      if entry.enabled && cooldown_active now entry.cooldown_until
      then "cooling_down"
      else if entry.enabled
      then "unhealthy"
      else "disabled"

  -- The fields that every failure sets, and those that only a probe sets.
  unfoldable pub observe_failure : String → Option String → MemoryAccountState → MemoryAccountState
  unfolding failed_status
  observe_failure source error_message entry =
      let seen = record entry {
        status = failed_status entry;
        source = normalize_source source;
        updated_at = some now;
        last_error = sanitize_error error_message;
        last_success_at = none;
      } in
      if source == "probe"
      then record seen {
        last_probe_at = some now;
        last_probe_status = some "failed";
        last_probe_error = sanitize_error error_message;
      }
      else seen

  -- `mark_memory_failure` on the entry, with the returned `cooldown_started`.
  unfoldable pub mark_entry_failure :
      String → Option String → MemoryAccountState → MemoryAccountState × Bool
  unfolding count_failure trip observe_failure
  mark_entry_failure source error_message entry =
      let (updated, cooldown_started) =
        if cooldown_active now entry.cooldown_until
        then (entry, false)
        else trip (count_failure entry) in
      (observe_failure source error_message updated, cooldown_started)

-- `mark_success_with_source` on the entry.
unfoldable pub mark_entry_success : ℕ → String → MemoryAccountState → MemoryAccountState
mark_entry_success now source entry =
    let healed = record entry {
      status = if entry.enabled then "healthy" else "disabled";
      source = normalize_source source;
      cooldown_until = none;
      consecutive_failures = 0;
      failure_window_started_at = none;
      updated_at = some now;
      last_error = none;
      last_success_at = some now;
    } in
    if source == "probe"
    then record healed {
      last_probe_at = some now;
      last_probe_status = some "succeeded";
      last_probe_error = none;
    }
    else healed
