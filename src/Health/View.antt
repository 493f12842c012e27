-- ===== src/Health/View.antt =====
-- What src/infra/health.rs reports of an account: the derived status and the availability.
use my_ai_gateway.Prelude.{
  ℕ, ◌+◌, ◌-◌, ◌/◌, min, Bool, true, not, ◌&&◌, ◌||◌, Option, none, some, String, ◌==◌, ltb, leb,
  if◌then◌else◌, or_else,
}
use my_ai_gateway.Health.Types.{
  MemoryAccountState, AccountHealth, AccountHealthRow, nanos_per_milli, u64_max,
}
use my_ai_gateway.Health.Breaker.{Chrono, cooldown_active, normalize_source, sanitize_error}

-- `now.signed_duration_since(updated_at) >= stale_after`, with the subtraction moved over.
unfoldable pub stale : Chrono → ℕ → Option ℕ → ℕ → Bool
stale chrono now none stale_after = true
stale chrono now (some updated_at) stale_after = elim (chrono.from_std stale_after) [
  | none ↦ true
  | some limit ↦ leb (updated_at + limit) now
]

-- In milliseconds; an instant that has passed gives 0.
unfoldable pub cooldown_remaining : ℕ → Option ℕ → ℕ
cooldown_remaining now none = 0
cooldown_remaining now (some until) =
    if ltb until now then 0 else min ((until - now) / nanos_per_milli) u64_max

-- The `match` on the stored status.
unfoldable pub settled_status : String → ℕ → String
settled_status stored consecutive_failures =
    if stored == "healthy"
    then "healthy"
    else if stored == "unhealthy" || stored == "cooling_down"
    then "unhealthy"
    else if ltb 0 consecutive_failures
    then "unhealthy"
    else "unknown"

unfoldable pub derived_status : Bool → Bool → Bool → String → ℕ → String
unfolding settled_status
derived_status enabled is_stale cooling stored consecutive_failures =
    if not enabled
    then "disabled"
    else if is_stale
    then "stale"
    else if cooling
    then "cooling_down"
    else settled_status stored consecutive_failures

unfoldable pub memory_health : Chrono → MemoryAccountState → ℕ → ℕ → AccountHealth
memory_health chrono state now stale_after =
    let is_stale = stale chrono now state.updated_at stale_after in
    let cooling = cooldown_active now state.cooldown_until in
    let status =
      derived_status state.enabled is_stale cooling state.status state.consecutive_failures in
    record {
      available = state.enabled && (not cooling || is_stale) && not (status == "disabled");
      source_enabled = true;
      consecutive_failures = state.consecutive_failures;
      cooldown_remaining_ms = cooldown_remaining now state.cooldown_until;
      status = status;
      source = normalize_source state.source;
      stale = is_stale;
      updated_at = state.updated_at;
      cooldown_until = state.cooldown_until;
      last_error = state.last_error;
      last_success_at = state.last_success_at;
      last_probe_at = state.last_probe_at;
      last_probe_status = state.last_probe_status;
      last_probe_error = state.last_probe_error;
    }

unfoldable pub health_from_row : Chrono → AccountHealthRow → ℕ → ℕ → AccountHealth
health_from_row chrono row now stale_after =
    let updated_at = or_else row.health_updated_at (some row.account_updated_at) in
    let is_stale = stale chrono now updated_at stale_after in
    let cooling = cooldown_active now row.cooldown_until in
    let status =
      derived_status (row.enabled && row.source_enabled) is_stale cooling row.health_status
        row.consecutive_failures in
    record {
      available =
          row.enabled
          && row.source_enabled
          && (not cooling || is_stale)
          && not (status == "disabled");
      source_enabled = row.source_enabled;
      consecutive_failures = row.consecutive_failures;
      cooldown_remaining_ms = cooldown_remaining now row.cooldown_until;
      status = status;
      source = normalize_source row.health_source;
      stale = is_stale;
      updated_at = updated_at;
      cooldown_until = row.cooldown_until;
      last_error = sanitize_error row.last_error;
      last_success_at = row.last_success_at;
      last_probe_at = row.last_probe_at;
      last_probe_status = row.last_probe_status;
      last_probe_error = sanitize_error row.last_probe_error;
    }

unfoldable pub unknown_health : Bool → String → AccountHealth
unknown_health available source = record {
  available = available;
  source_enabled = true;
  consecutive_failures = 0;
  cooldown_remaining_ms = 0;
  status = "unknown";
  source = source;
  stale = true;
  updated_at = none;
  cooldown_until = none;
  last_error = none;
  last_success_at = none;
  last_probe_at = none;
  last_probe_status = none;
  last_probe_error = none;
}
