-- ===== src/Health/Database/Recording.antt =====
-- The two transactions of src/infra/db/health.rs that record an observation. `SELECT … FOR UPDATE`
-- makes each transaction one step.
use Prim.Native.Char.{code}
use my_ai_gateway.Prelude.{
  ℕ, min, Bool, false, not, ◌&&◌, ◌||◌, Option, none, some, String, ◌==◌, [], ◌∷◌, ◌++◌,
  if◌then◌else◌, is_some,
}
use my_ai_gateway.Health.Types.{AccountHealthRow, HealthConfig}
use my_ai_gateway.Health.Breaker.{Chrono, cooldown_active, normalize_source, sanitize_error}
use my_ai_gateway.Prelude.Sql.{row_not_found, unavailable, SqlResult, ok, err}
use my_ai_gateway.Health.Database.{
  i32_max, AccountHealthEvent, Database, sanitize_health_code, NextHealth, next_health, in_column,
  failed_row, healed_row, find_row, put_row,
}

module _ (chrono : Chrono) (config : HealthConfig) where
  unfoldable pub failure_event :
      String
      → ℕ
      → String
      → Option String
      → Option String
      → Option ℕ
      → Option ℕ
      → NextHealth
      → AccountHealthEvent
  failure_event account_id observed_at source code message latency_ms test_id next = record {
    account_id = account_id;
    status = next.status;
    source = source;
    observed_at = chrono.timestamptz observed_at;
    cooldown_until = in_column chrono next.cooldown_until;
    consecutive_failures = min next.failures i32_max;
    error_code = sanitize_health_code code;
    error_message = sanitize_error message;
    connection_test_id = test_id;
    latency_ms = latency_ms;
  }

  -- The part of the transaction after the row is read and found enabled with its source.
  unfoldable pub commit_failure :
      Database
      → String
      → ℕ
      → String
      → Option String
      → Option String
      → Option ℕ
      → Option ℕ
      → AccountHealthRow
      → SqlResult (AccountHealthRow × Bool) × Database
  unfolding failure_event
  commit_failure db account_id observed_at source code message latency_ms test_id current =
      let next = next_health chrono config observed_at current in
      let event =
        failure_event account_id observed_at source code message latency_ms test_id next in
      let db' = record db {
        accounts = put_row (failed_row chrono observed_at source message next current) db.accounts;
        health_events =
            if next.status == current.health_status
            then db.health_events
            else db.health_events ++ event ∷ [];
      } in
      let cooldown_started =
        not (cooldown_active observed_at current.cooldown_until) && is_some next.cooldown_until in
      (
        elim (find_row account_id db'.accounts) [
          | none ↦ err row_not_found
          | some row ↦ ok (row, cooldown_started)
        ],
        db',
      )

  unfoldable pub record_account_health_failure :
      Database
      → String
      → ℕ
      → String
      → Option String
      → Option String
      → Option ℕ
      → Option ℕ
      → SqlResult (AccountHealthRow × Bool) × Database
  record_account_health_failure db account_id observed_at source code message latency_ms test_id =
      if not db.reachable then (err unavailable, db) else elim (find_row account_id db.accounts) [
        | none ↦ (err row_not_found, db)
        | some current ↦
            if not current.enabled || not current.source_enabled
            then (ok (current, false), db)
            else commit_failure db account_id observed_at (normalize_source source) code message
                latency_ms test_id current
      ]

unfoldable pub commit_success :
    Chrono
    → Database
    → String
    → ℕ
    → String
    → Option ℕ
    → Option ℕ
    → AccountHealthRow
    → SqlResult AccountHealthRow × Database
commit_success chrono db account_id observed_at source test_id latency_ms current =
    let status = if current.enabled then "healthy" else "disabled" in
    let event : AccountHealthEvent = record {
      account_id = account_id;
      status = status;
      source = source;
      observed_at = chrono.timestamptz observed_at;
      cooldown_until = none;
      consecutive_failures = 0;
      error_code = none;
      error_message = none;
      connection_test_id = test_id;
      latency_ms = latency_ms;
    } in
    let db' = record db {
      accounts = put_row (healed_row chrono observed_at source current) db.accounts;
      health_events =
          if current.health_status == status
          then db.health_events
          else db.health_events ++ event ∷ [];
    } in
    (elim (find_row account_id db'.accounts) [ none ↦ err row_not_found | some row ↦ ok row ], db')

unfoldable pub record_account_health_success :
    Chrono
    → Database
    → String
    → ℕ
    → String
    → Option ℕ
    → Option ℕ
    → SqlResult AccountHealthRow × Database
record_account_health_success chrono db account_id observed_at source test_id latency_ms =
    if not db.reachable then (err unavailable, db) else elim (find_row account_id db.accounts) [
      | none ↦ (err row_not_found, db)
      | some current ↦
          if not current.enabled || not current.source_enabled
          then (ok current, db)
          else commit_success chrono db account_id observed_at (normalize_source source) test_id
              latency_ms current
    ]
