-- ===== src/Health/Types.antt =====
-- The data of src/infra/health.rs and the row of src/infra/db.rs. An instant (`DateTime<Utc>`) and a
-- `Duration` are counts of nanoseconds: instants are compared and subtracted as points of a line.
use my_ai_gateway.Prelude.{ℕ, ◌*◌, max, Bool, String, Option, none}

abbrev pub nanos_per_milli : ℕ
nanos_per_milli = 1_000_000

abbrev pub nanos_per_sec : ℕ
nanos_per_sec = 1_000_000_000

abbrev pub u32_max : ℕ
u32_max = 4_294_967_295

abbrev pub u64_max : ℕ
u64_max = 18_446_744_073_709_551_615

abbrev pub default_cooldown : ℕ
default_cooldown = 30 * nanos_per_sec

abbrev pub default_max_cooldown : ℕ
default_max_cooldown = 30 * 60 * nanos_per_sec

abbrev pub default_stale_after : ℕ
default_stale_after = 10 * 60 * nanos_per_sec

abbrev pub default_failure_threshold : ℕ
default_failure_threshold = 3

abbrev pub default_failure_window : ℕ
default_failure_window = 60 * nanos_per_sec

pub record HealthConfig : Type 0 where
  pub cooldown : ℕ
  pub max_cooldown : ℕ
  pub stale_after : ℕ
  pub failure_threshold : ℕ  -- u32
  pub failure_window : ℕ

-- `HealthConfig::default`.
unfoldable pub default_config : HealthConfig
default_config = record {
  cooldown = default_cooldown;
  max_cooldown = default_max_cooldown;
  stale_after = default_stale_after;
  failure_threshold = default_failure_threshold;
  failure_window = default_failure_window;
}

-- `HealthConfig::normalized`.
unfoldable pub normalized : HealthConfig → HealthConfig
normalized c =
    let cooldown = max c.cooldown nanos_per_milli in
    record {
      cooldown = cooldown;
      max_cooldown = max c.max_cooldown cooldown;
      stale_after = max c.stale_after nanos_per_milli;
      failure_threshold = max c.failure_threshold 1;
      failure_window = max c.failure_window nanos_per_milli;
    }

pub record AccountHealth : Type 0 where
  pub available : Bool
  pub source_enabled : Bool
  pub consecutive_failures : ℕ
  pub cooldown_remaining_ms : ℕ
  pub status : String
  pub source : String
  pub stale : Bool
  pub updated_at : Option ℕ
  pub cooldown_until : Option ℕ
  pub last_error : Option String
  pub last_success_at : Option ℕ
  pub last_probe_at : Option ℕ
  pub last_probe_status : Option String
  pub last_probe_error : Option String

pub record MemoryAccountState : Type 0 where
  pub status : String
  pub source : String
  pub cooldown_until : Option ℕ
  pub consecutive_failures : ℕ  -- u32
  pub failure_window_started_at : Option ℕ
  pub updated_at : Option ℕ
  pub last_error : Option String
  pub last_success_at : Option ℕ
  pub last_probe_at : Option ℕ
  pub last_probe_status : Option String
  pub last_probe_error : Option String
  pub enabled : Bool

-- `consecutive_failures` is an i32 column that the program writes with values from 0 up.
pub record AccountHealthRow : Type 0 where
  pub account_id : String
  pub enabled : Bool
  pub source_enabled : Bool
  pub health_status : String
  pub health_source : String
  pub cooldown_until : Option ℕ
  pub consecutive_failures : ℕ
  pub failure_window_started_at : Option ℕ
  pub last_error : Option String
  pub last_success_at : Option ℕ
  pub health_updated_at : Option ℕ
  pub last_probe_at : Option ℕ
  pub last_probe_status : Option String
  pub last_probe_error : Option String
  pub account_updated_at : ℕ

-- The value that `or_insert_with` puts in for an account that is not there yet.
unfoldable pub new_account_state : MemoryAccountState
new_account_state = record {
  status = "unknown";
  source = "unknown";
  cooldown_until = none;
  consecutive_failures = 0;
  failure_window_started_at = none;
  updated_at = none;
  last_error = none;
  last_success_at = none;
  last_probe_at = none;
  last_probe_status = none;
  last_probe_error = none;
  enabled = Bool.true;
}
