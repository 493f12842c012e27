-- ===== src/Health/Database/Transactions.antt =====
-- The tables before and after `record_account_health_failure` of src/infra/db/health.rs.
use my_ai_gateway.Prelude.{
  ℕ, ◌≡◌, true, false, not, ◌&&◌, ◌||◌, ◌==◌, ◌++◌, Option, some, String, List, [], ◌∷◌, is_some,
  is_some_and, ◌⊎◌, ◌∙◌, if◌then◌else◌, arith, eq_iff, sym, refl, subst,
}
use text.Mathlib.TextPositions.{eq_refl}
use my_ai_gateway.Health.Types.{HealthConfig, AccountHealthRow}
use my_ai_gateway.Health.Breaker.{Chrono, normalize_source, cooldown_active}
use my_ai_gateway.Prelude.Sql.{ok}
use my_ai_gateway.Health.Database.{Database, NextHealth, find_row, put_row, next_health, failed_row}
use my_ai_gateway.Health.Database.Recording.{
  failure_event, commit_failure, record_account_health_failure,
}

find_row-put_row :
    (account_id : String) (row old : AccountHealthRow) (rows : List AccountHealthRow)
    → find_row row.account_id rows ≡ some old
    → find_row account_id (put_row row rows)
      ≡ (if row.account_id == account_id then some row else find_row account_id rows)
unfolding find_row put_row
find_row-put_row account_id row old [] h = cc
find_row-put_row account_id row old (r ∷ rows) h = ground (
  arith,
  eq_iff r.account_id row.account_id,
  eq_iff row.account_id account_id,
  eq_iff r.account_id account_id,
  find_row-put_row account_id row old rows,
)

failed_row-account_id :
    (chrono : Chrono) (now : ℕ) (source : String) (error : Option String) (next : NextHealth)
    (row : AccountHealthRow)
    → (failed_row chrono now source error next row).account_id ≡ row.account_id
unfolding failed_row
failed_row-account_id chrono now source error next row = ground arith

find_row-account_id :
    (account_id : String) (rows : List AccountHealthRow) (row : AccountHealthRow)
    → find_row account_id rows ≡ some row
    → row.account_id ≡ account_id
unfolding find_row
find_row-account_id account_id [] row h = cc
find_row-account_id account_id (r ∷ rows) row h =
    ground (arith, eq_iff r.account_id account_id, find_row-account_id account_id rows row)

find_row-failed_row :
    (chrono : Chrono) (account_id : String) (now : ℕ) (source : String) (error : Option String)
    (next : NextHealth) (row : AccountHealthRow) (rows : List AccountHealthRow)
    → find_row account_id rows ≡ some row
    → (other : String)
    → find_row other (put_row (failed_row chrono now source error next row) rows) ≡ (
        if account_id == other
        then some (failed_row chrono now source error next row)
        else find_row other rows)
find_row-failed_row chrono account_id now source error next row rows found other =
    let after = failed_row chrono now source error next row in
    let same : after.account_id ≡ account_id =
      failed_row-account_id chrono now source error next row
      ∙ find_row-account_id account_id rows row found in
    subst
      (λ id.
        find_row other (put_row after rows)
        ≡ (if id == other then some after else find_row other rows))
      same
      (find_row-put_row other after row rows
        (subst (λ id. find_row id rows ≡ some row) (sym same) found))

module _ (chrono : Chrono) (config : HealthConfig) where
  record_failure-eq-commit :
      (db : Database) (account_id : String) (now : ℕ) (source : String)
      (code message : Option String) (latency_ms test_id : Option ℕ) (row : AccountHealthRow)
      → db.reachable ≡ true
      → find_row account_id db.accounts ≡ some row
      → (not row.enabled || not row.source_enabled) ≡ false
      → record_account_health_failure chrono config db account_id now source code message latency_ms
          test_id
        ≡ commit_failure chrono config db account_id now
            (normalize_source source)
            code
            message
            latency_ms
            test_id
            row
  unfolding record_account_health_failure
  record_failure-eq-commit db account_id now source code message latency_ms test_id row up found
        on =
      simp (up, found, on)

  commit_failure-stored :
      (db : Database) (account_id : String) (now : ℕ) (source : String)
      (code message : Option String) (latency_ms test_id : Option ℕ) (row : AccountHealthRow)
      → let next = next_health chrono config now row in
        let after = failed_row chrono now source message next row in
        find_row account_id (put_row after db.accounts) ≡ some after
        → (commit_failure chrono config db account_id now source code message latency_ms test_id
            row).0
          ≡ ok (after, not (cooldown_active now row.cooldown_until) && is_some next.cooldown_until)
  unfolding commit_failure
  commit_failure-stored db account_id now source code message latency_ms test_id row stored =
      rw (stored, commit_failure)

  -- On a database that answers, for an account that is enabled with its source, a recorded failure
  -- stores the next row and returns it with whether a cooldown began, leaves the other accounts as
  -- they were, and appends an event exactly when the stored status changes.
  pub record_failure_commits :
      (db : Database) (account_id : String) (now : ℕ) (source : String)
      (code message : Option String) (latency_ms test_id : Option ℕ) (row : AccountHealthRow)
      → db.reachable ≡ true
      → find_row account_id db.accounts ≡ some row
      → row.enabled ≡ true
      → row.source_enabled ≡ true
      → let (result, db') =
          record_account_health_failure chrono config db account_id now source code message
            latency_ms test_id in
        let next = next_health chrono config now row in
        let after = failed_row chrono now (normalize_source source) message next row in
        let started = not (cooldown_active now row.cooldown_until) && is_some next.cooldown_until in
        (result ≡ ok (after, started))
        × ((other : String)
            → find_row other db'.accounts
              ≡ (if account_id == other then some after else find_row other db.accounts))
        × (db'.health_events ≡ (
            if next.status == row.health_status
            then db.health_events
            else db.health_events
              ++ failure_event chrono config account_id now
                  (normalize_source source)
                  code
                  message
                  latency_ms
                  test_id
                  next
                ∷ []))
  unfolding commit_failure
  record_failure_commits db account_id now source code message latency_ms test_id row up found on
        source_on =
      let next = next_health chrono config now row in
      let after = failed_row chrono now (normalize_source source) message next row in
      let stored =
        find_row-failed_row chrono account_id now (normalize_source source) message next row
          db.accounts found in
      rw
        (record_failure-eq-commit db account_id now source code message latency_ms test_id row up
          found (ground arith))
        (
          commit_failure-stored db account_id now (normalize_source source) code message latency_ms
              test_id row (stored account_id ∙ (rw (eq_refl account_id))),
          stored,
          refl,
        )

  -- A database that does not answer, an unknown account and a disabled account change nothing.
  pub record_failure_unchanged :
      (db : Database) (account_id : String) (now : ℕ) (source : String)
      (code message : Option String) (latency_ms test_id : Option ℕ)
      → is_some_and (λ row. row.enabled && row.source_enabled) (find_row account_id db.accounts)
          ≡ false
        ⊎ (db.reachable ≡ false)
      → (record_account_health_failure chrono config db account_id now source code message
          latency_ms test_id).1
        ≡ db
  unfolding record_account_health_failure
  record_failure_unchanged db account_id now source code message latency_ms test_id h = ground arith
