-- ===== src/Health/Database.antt =====
-- The persisted health of src/infra/db/health.rs: the `accounts` and `account_health_events` tables,
-- what a transaction computes from a row, and the queries.
pub mod Agrees
pub mod Recording
pub mod Transactions
use Prim.Native.Char.{code}
use Prim.Native.String
use Prim.Native.String.{len}
use my_ai_gateway.Prelude.{
  ℕ, ◌+◌, ◌-◌, min, Bool, true, false, not, ◌&&◌, ◌||◌, Option, none, some, String, ◌==◌, List, [],
  ◌∷◌, ◌++◌, ltb, leb, eqb, if◌then◌else◌, is_some, find,
}
use my_ai_gateway.Prelude.Text.{trim}
use my_ai_gateway.Health.Types.{AccountHealthRow, HealthConfig}
use my_ai_gateway.Health.Backoff.{exponential_backoff}
use my_ai_gateway.Health.Breaker.{
  Chrono, after_delay, cooldown_active, window_expired, normalize_source, sanitize_error,
}
use my_ai_gateway.Prelude.Sql.{
  SqlError, row_not_found, unavailable, constraint_violation, SqlResult, ok, err,
}

abbrev pub i32_max : ℕ
i32_max = 2_147_483_647

pub record AccountHealthEvent : Type 0 where
  pub account_id : String
  pub status : String
  pub source : String
  pub observed_at : ℕ
  pub cooldown_until : Option ℕ
  pub consecutive_failures : ℕ
  pub error_code : Option String
  pub error_message : Option String
  pub connection_test_id : Option ℕ
  pub latency_ms : Option ℕ

-- `reachable` is whether queries are answered.
pub record Database : Type 0 where
  pub reachable : Bool
  pub accounts : List AccountHealthRow
  pub health_events : List AccountHealthEvent

is_code_char : ℕ → Bool
is_code_char c =
    (leb b'0' c && leb c b'9')
    || (leb b'a' c && leb c b'z')
    || (leb b'A' c && leb c b'Z')
    || eqb c b'_'
    || eqb c b'-'

is_code : String → Bool
unfolding is_code_char
is_code String.[] = true
is_code (String.◌∷◌ c s) = is_code_char (code c) && is_code s

unfoldable pub sanitize_health_code : Option String → Option String
unfolding is_code
sanitize_health_code none = none
sanitize_health_code (some text) =
    let value = trim text in
    if not (value == "") && leb (len value) 64 && is_code value
    then some value
    else some "upstream_failure"

-- The tuple that the transaction computes: failures, window start, cooldown and status.
pub record NextHealth : Type 0 where
  pub failures : ℕ
  pub failure_window_started_at : Option ℕ
  pub cooldown_until : Option ℕ
  pub status : String

unfoldable pub next_health : Chrono → HealthConfig → ℕ → AccountHealthRow → NextHealth
next_health chrono config observed_at current =
    if cooldown_active observed_at current.cooldown_until
    then record {
      failures = current.consecutive_failures;
      failure_window_started_at = current.failure_window_started_at;
      cooldown_until = current.cooldown_until;
      status = "cooling_down";
    }
    else let expired =
        window_expired config.failure_window observed_at current.failure_window_started_at in
      let failures = if expired then 1 else current.consecutive_failures + 1 in
      let started_at = if expired then some observed_at else current.failure_window_started_at in
      if leb config.failure_threshold failures
      then record {
        failures = failures;
        failure_window_started_at = started_at;
        cooldown_until = some (
            after_delay chrono observed_at (
              exponential_backoff config.cooldown config.max_cooldown
                (failures - config.failure_threshold + 1)));
        status = "cooling_down";
      }
      else record {
        failures = failures;
        failure_window_started_at = started_at;
        cooldown_until = none;
        status = "unhealthy";
      }

-- What a column of instants holds of one that is bound to it.
abbrev pub in_column : Chrono → Option ℕ → Option ℕ
in_column chrono none = none
in_column chrono (some t) = some (chrono.timestamptz t)

-- The `UPDATE accounts` of a failure.
unfoldable pub failed_row :
    Chrono → ℕ → String → Option String → NextHealth → AccountHealthRow → AccountHealthRow
failed_row chrono observed_at source error_message next current =
    let updated = record current {
      health_status = next.status;
      cooldown_until = in_column chrono next.cooldown_until;
      last_error = sanitize_error error_message;
      last_success_at = none;
      health_source = source;
      health_updated_at = some (chrono.timestamptz observed_at);
      consecutive_failures = min next.failures i32_max;
      failure_window_started_at = in_column chrono next.failure_window_started_at;
    } in
    if source == "probe"
    then record updated {
      last_probe_at = some (chrono.timestamptz observed_at);
      last_probe_status = some "failed";
      last_probe_error = sanitize_error error_message;
    }
    else updated

-- The `UPDATE accounts` of a success, for an account that is enabled with its source.
unfoldable pub healed_row : Chrono → ℕ → String → AccountHealthRow → AccountHealthRow
healed_row chrono observed_at source current =
    let updated = record current {
      health_status = if current.enabled then "healthy" else "disabled";
      cooldown_until = none;
      last_error = none;
      last_success_at = some (chrono.timestamptz observed_at);
      health_source = source;
      health_updated_at = some (chrono.timestamptz observed_at);
      consecutive_failures = 0;
      failure_window_started_at = none;
    } in
    if source == "probe"
    then record updated {
      last_probe_at = some (chrono.timestamptz observed_at);
      last_probe_status = some "succeeded";
      last_probe_error = none;
    }
    else updated

unfoldable pub find_row : String → List AccountHealthRow → Option AccountHealthRow
find_row account_id rows = find (λ row. row.account_id == account_id) rows

-- `UPDATE … WHERE id=$1`; `id` is the primary key.
unfoldable pub put_row : AccountHealthRow → List AccountHealthRow → List AccountHealthRow
put_row row [] = []
put_row row (r ∷ rows) = if r.account_id == row.account_id then row ∷ rows else r ∷ put_row row rows

unfoldable pub account_health : Database → String → SqlResult (Option AccountHealthRow)
account_health db account_id =
    if db.reachable then ok (find_row account_id db.accounts) else err unavailable

unfoldable pub account_health_all : Database → SqlResult (List AccountHealthRow)
account_health_all db = if db.reachable then ok db.accounts else err unavailable
