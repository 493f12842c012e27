-- ===== src/Health/Registry.antt =====
-- `HealthRegistry` of src/infra/health.rs: the operations that routing and the proxy call. The clock is
-- read once in each operation, so `now` is an argument; an operation returns the new registry.
pub mod Isolation
use my_ai_gateway.Prelude.{
  ℕ, ◌+◌, Bool, true, false, ◌&&◌, Option, none, some, String, ◌==◌, List, [], ◌∷◌, map, max,
  if◌then◌else◌, unwrap_or,
}
use my_ai_gateway.Health.Types.{
  HealthConfig, MemoryAccountState, AccountHealth, AccountHealthRow, normalized, new_account_state,
}
use my_ai_gateway.Health.Breaker.{Chrono, mark_entry_failure, mark_entry_success}
use my_ai_gateway.Health.View.{memory_health, health_from_row, unknown_health}
use my_ai_gateway.Prelude.Sql.{SqlResult, ok, err}
use my_ai_gateway.Health.Database.{Database, account_health, account_health_all}
use my_ai_gateway.Health.Database.Recording.{
  record_account_health_failure, record_account_health_success,
}

pub record HealthRegistry : Type 0 where
  pub config : HealthConfig
  pub database : Option Database
  pub state : List (String × MemoryAccountState)

-- `with_config_and_clock` and `with_database_config_and_clock`.
unfoldable pub with_config : HealthConfig → Option Database → HealthRegistry
with_config config database = record { config = normalized config; database = database; state = [] }

-- `state.get(account_id)`; a `HashMap` as an association list.
unfoldable pub get_entry : String → List (String × MemoryAccountState) → Option MemoryAccountState
get_entry account_id [] = none
get_entry account_id ((id, entry) ∷ rest) =
    if id == account_id then some entry else get_entry account_id rest

-- `entry(account_id).or_insert_with(…)` and the writes through it.
unfoldable pub put_entry :
    String
    → MemoryAccountState
    → List (String × MemoryAccountState)
    → List (String × MemoryAccountState)
put_entry account_id entry [] = (account_id, entry) ∷ []
put_entry account_id entry ((id, old) ∷ rest) =
    if id == account_id then (id, entry) ∷ rest else (id, old) ∷ put_entry account_id entry rest

pub record ConnectionTestRecord : Type 0 where
  pub id : ℕ
  pub account_id : Option String
  pub status : String
  pub error_code : Option String
  pub error_message : Option String
  pub latency_ms : ℕ

-- The rest of the record is passed on unread.
module _ (chrono : Chrono) (now : ℕ) where
  row_available : HealthConfig → SqlResult (Option AccountHealthRow) → Bool
  row_available config (ok (some row)) =
      (health_from_row chrono row now config.stale_after).available
  row_available config (ok none) = false
  row_available config (err e) = false

  entry_available : HealthConfig → Option MemoryAccountState → Bool
  entry_available config (some entry) =
      (memory_health chrono entry now config.stale_after).available
  entry_available config none = true

  unfoldable pub is_available : HealthRegistry → String → Bool
  unfolding row_available entry_available
  is_available r account_id = elim r.database [
    | some db ↦ row_available r.config (account_health db account_id)
    | none ↦ entry_available r.config (get_entry account_id r.state)
  ]

  row_health : HealthConfig → SqlResult (Option AccountHealthRow) → AccountHealth
  row_health config (ok (some row)) = health_from_row chrono row now config.stale_after
  row_health config (ok none) = unknown_health false "unknown"
  row_health config (err e) = unknown_health false "database"

  entry_health : HealthConfig → Option MemoryAccountState → AccountHealth
  entry_health config (some entry) = memory_health chrono entry now config.stale_after
  entry_health config none = unknown_health true "unknown"

  unfoldable pub get_health : HealthRegistry → String → AccountHealth
  unfolding row_health entry_health
  get_health r account_id = elim r.database [
    | some db ↦ row_health r.config (account_health db account_id)
    | none ↦ entry_health r.config (get_entry account_id r.state)
  ]

  rows_health : HealthConfig → SqlResult (List AccountHealthRow) → List (String × AccountHealth)
  rows_health config (ok rows) =
      map (λ row. (row.account_id, health_from_row chrono row now config.stale_after)) rows
  rows_health config (err e) = []

  unfoldable pub all_health : HealthRegistry → List (String × AccountHealth)
  unfolding rows_health
  all_health r = elim r.database [
    | some db ↦ rows_health r.config (account_health_all db)
    | none ↦ map (λ p. (p.0, memory_health chrono p.1 now r.config.stale_after)) r.state
  ]

  unfoldable pub mark_memory_failure :
      HealthRegistry → String → String → Option String → HealthRegistry × Bool
  mark_memory_failure r account_id source error_message =
      let entry = unwrap_or new_account_state (get_entry account_id r.state) in
      let (entry', cooldown_started) =
        mark_entry_failure chrono r.config now source error_message entry in
      (record r { state = put_entry account_id entry' r.state }, cooldown_started)

  failure_started : SqlResult (AccountHealthRow × Bool) → Bool
  failure_started (ok (row, cooldown_started)) = cooldown_started
  failure_started (err e) = false

  unfoldable pub mark_failure_with_details :
      HealthRegistry → String → String → Option String → Option String → HealthRegistry × Bool
  unfolding failure_started mark_memory_failure
  mark_failure_with_details r account_id source error_code error_message = elim r.database [
    | some db ↦
        let (result, db') =
          record_account_health_failure chrono r.config db account_id now source error_code
            error_message none none in
        (record r { database = some db' }, failure_started result)
    | none ↦ mark_memory_failure r account_id source error_message
  ]

  unfoldable pub mark_probe_failure :
      HealthRegistry → String → Option ℕ → Option String → Option String → Option ℕ → HealthRegistry
  unfolding mark_memory_failure
  mark_probe_failure r account_id test_id error_code error_message latency_ms = elim r.database [
    | some db ↦ record r {
      database =
          some
            (record_account_health_failure chrono r.config db account_id now "probe" error_code
              error_message latency_ms test_id).1;
    }
    | none ↦ (mark_memory_failure r account_id "probe" error_message).0
  ]

  unfoldable pub mark_success_with_source :
      HealthRegistry → String → String → Option ℕ → Option ℕ → HealthRegistry
  mark_success_with_source r account_id source test_id latency_ms = elim r.database [
    | some db ↦ record r {
      database =
          some (record_account_health_success chrono db account_id now source test_id latency_ms).1;
    }
    | none ↦
        let entry = unwrap_or new_account_state (get_entry account_id r.state) in
        record r { state = put_entry account_id (mark_entry_success now source entry) r.state }
  ]

  unfoldable pub mark_success : HealthRegistry → String → HealthRegistry
  unfolding mark_success_with_source
  mark_success r account_id = mark_success_with_source r account_id "passive" none none

  unfoldable pub apply_connection_test : HealthRegistry → ConnectionTestRecord → HealthRegistry
  unfolding mark_success_with_source mark_probe_failure
  apply_connection_test r test = elim test.account_id [
    | none ↦ r
    | some account_id ↦
        if test.status == "succeeded"
        then mark_success_with_source r account_id "probe" (some test.id) (some test.latency_ms)
        else mark_probe_failure r account_id (some test.id) test.error_code test.error_message
            (some test.latency_ms)
  ]
