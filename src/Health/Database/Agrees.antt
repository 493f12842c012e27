-- ===== src/Health/Database/Agrees.antt =====
-- The breaker in memory (src/infra/health.rs) beside the breaker in the tables (src/infra/db/health.rs).
use my_ai_gateway.Prelude.{
  ℕ, ◌+◌, ◌-◌, ◌*◌, ◌/◌, min, max, eqb, ◌≤◌, ◌<◌, ◌≡◌, Bool, refl, true, false, not, ◌&&◌, ◌==◌,
  ◌||◌, Option, some, String, if◌then◌else◌, arith, is_some, List, [], ◌∷◌, length, Bool-cases, inl,
  inr, All, subst, sym,
}
use my_ai_gateway.Health.Types.{
  HealthConfig, MemoryAccountState, AccountHealthRow, normalized, nanos_per_milli, u64_max,
}
use my_ai_gateway.Health.Backoff.{exponential_backoff, delay_ms}
use my_ai_gateway.Health.Backoff.Bounds.{exponential_backoff_bounds}
use my_ai_gateway.Health.Breaker.{
  Chrono, IsDocumented, KeepsMicroseconds, chrono_max, after_delay, mark_entry_failure,
  mark_entry_success, normalize_source, cooldown_active,
}
use my_ai_gateway.Health.Breaker.Invariant.{
  HealthEvent, failure, success, apply_event, apply_events,
}
use my_ai_gateway.Health.Breaker.Outage.{after_delay_bounds}
use my_ai_gateway.Health.View.{memory_health, health_from_row}
use my_ai_gateway.Health.Database.{next_health, in_column, failed_row, healed_row, i32_max}

-- The entry and the row of an enabled account with an enabled source hold the same observation.
pub record Matches (entry : MemoryAccountState) (row : AccountHealthRow) : Type 0 where
  pub entry_enabled : entry.enabled ≡ true
  pub row_enabled : row.enabled ≡ true
  pub source_enabled : row.source_enabled ≡ true
  pub status : entry.status ≡ row.health_status
  pub source : entry.source ≡ row.health_source
  pub cooldown_until : entry.cooldown_until ≡ row.cooldown_until
  pub consecutive_failures : entry.consecutive_failures ≡ row.consecutive_failures
  pub window : entry.failure_window_started_at ≡ row.failure_window_started_at
  pub updated_at : entry.updated_at ≡ row.health_updated_at
  pub last_error : entry.last_error ≡ row.last_error
  pub last_success_at : entry.last_success_at ≡ row.last_success_at
  pub last_probe_at : entry.last_probe_at ≡ row.last_probe_at
  pub last_probe_status : entry.last_probe_status ≡ row.last_probe_status
  pub last_probe_error : entry.last_probe_error ≡ row.last_probe_error

-- Normalizing the source keeps the test for a probe.
keep_or_unknown :
    (b : Bool) (s : String)
    → ((s == "probe") ≡ true → b ≡ true)
    → ((if b then s else "unknown") == "probe") ≡ (s == "probe")
keep_or_unknown true s h = refl
keep_or_unknown false s h = elim (Bool-cases (s == "probe")) [ inl t ↦ cc (h t) | inr f ↦ rw f ]

or_second : (a b c d : Bool) → b ≡ true → (a || b || c || d) ≡ true
or_second a b c d h = ground arith

probe-normalize_source : (s : String) → (normalize_source s == "probe") ≡ (s == "probe")
unfolding normalize_source
probe-normalize_source s = keep_or_unknown _ s (or_second _ _ _ _)

-- The instant is one of whole microseconds.
abbrev pub Whole : ℕ → Type 0
Whole t = (n : ℕ) × (t ≡ n * 1_000)

abbrev pub WholeEvent : HealthEvent → Type 0
WholeEvent (failure now source error) = Whole now
WholeEvent (success now source) = Whole now

delay-Whole : (base maximum failures : ℕ) → Whole (exponential_backoff base maximum failures)
unfolding exponential_backoff
delay-Whole base maximum failures =
    let base_ms = base / nanos_per_milli in
    let ms = min (delay_ms base_ms (max (maximum / nanos_per_milli) base_ms) failures) u64_max in
    elim (Bool-cases (eqb failures 0)) [
      | inl none_yet ↦ (0, rw none_yet refl)
      | inr some_failures ↦ (ms * 1_000, rw some_failures (omega arith))
    ]

-- The columns of the row that a failure may write again hold what they are read as.
pub record IsStored (chrono : Chrono) (row : AccountHealthRow) : Type 0 where
  pub cooldown : in_column chrono row.cooldown_until ≡ row.cooldown_until
  pub window : in_column chrono row.failure_window_started_at ≡ row.failure_window_started_at

module _ (chrono : Chrono) where
  success-Matches :
      (now : ℕ) (source : String) (entry : MemoryAccountState) (row : AccountHealthRow)
      → chrono.timestamptz now ≡ now
      → Matches entry row
      → Matches
          (mark_entry_success now source entry)
          (healed_row chrono now (normalize_source source) row)
  unfolding mark_entry_success healed_row
  success-Matches now source entry row kept m = ground (arith, kept, probe-normalize_source source)

  success-IsStored :
      (now : ℕ) (source : String) (row : AccountHealthRow)
      → IsStored chrono (healed_row chrono now source row)
  unfolding healed_row
  success-IsStored now source row = ground arith

module _ (chrono : Chrono) (c : HealthConfig) where
  failure-Matches :
      (now : ℕ) (source : String) (error : Option String) (entry : MemoryAccountState)
      (row : AccountHealthRow)
      → ((failures : ℕ)
          → 0 < failures
          → now
            < after_delay chrono now
                (exponential_backoff (normalized c).cooldown (normalized c).max_cooldown failures))
      → chrono.timestamptz now ≡ now
      → ((failures : ℕ)
          → 0 < failures
          → let until =
              after_delay chrono now (
                exponential_backoff (normalized c).cooldown (normalized c).max_cooldown failures) in
            chrono.timestamptz until ≡ until)
      → IsStored chrono row
      → row.consecutive_failures < i32_max
      → Matches entry row
      → let (after, opened) = mark_entry_failure chrono (normalized c) now source error entry in
        let next = next_health chrono (normalized c) now row in
        Matches after (failed_row chrono now (normalize_source source) error next row)
        × IsStored chrono (failed_row chrono now (normalize_source source) error next row)
        × (opened ≡ (not (cooldown_active now row.cooldown_until) && is_some next.cooldown_until))
  unfolding mark_entry_failure next_health failed_row
  failure-Matches now source error entry row later kept kept_later stored small m =
      let first = row.consecutive_failures + 1 - (normalized c).failure_threshold + 1 in
      let again = 1 - (normalized c).failure_threshold + 1 in
      let cooldown = stored.cooldown in
      let window = stored.window in
      (
        ground (
          arith,
          probe-normalize_source source,
          kept,
          cooldown,
          window,
          later first,
          later again,
          kept_later first,
          kept_later again,
        ),
        record {
          cooldown = ground (arith, kept, cooldown, kept_later first, kept_later again);
          window = ground (arith, kept, window);
        },
        ground (arith, probe-normalize_source source),
      )

  -- What the two transactions make of a row, for an account that is enabled with its source.
  abbrev pub apply_row_event : HealthEvent → AccountHealthRow → AccountHealthRow
  apply_row_event (failure now source error) row =
      failed_row chrono now (normalize_source source) error
        (next_health chrono (normalized c) now row) row
  apply_row_event (success now source) row = healed_row chrono now (normalize_source source) row

  abbrev pub apply_row_events : List HealthEvent → AccountHealthRow → AccountHealthRow
  apply_row_events [] row = row
  apply_row_events (e ∷ es) row = apply_row_events es (apply_row_event e row)

  apply_row_event-count :
      (e : HealthEvent) (row : AccountHealthRow)
      → (apply_row_event e row).consecutive_failures ≤ row.consecutive_failures + 1
  unfolding failed_row healed_row next_health
  apply_row_event-count (failure now source error) row = ground arith
  apply_row_event-count (success now source) row = ground arith

  kept-Whole : (t : ℕ) → KeepsMicroseconds chrono → Whole t → chrono.timestamptz t ≡ t
  kept-Whole t keeps (n, e) = subst (λ x. chrono.timestamptz x ≡ x) (sym e) (keeps n)

  -- The end of a cooldown that begins at a whole microsecond is one.
  end-Whole :
      (now failures : ℕ)
      → IsDocumented chrono
      → (normalized c).max_cooldown ≤ chrono_max
      → 0 < failures
      → Whole now
      → Whole (
          after_delay chrono now
            (exponential_backoff (normalized c).cooldown (normalized c).max_cooldown failures))
  unfolding after_delay normalized
  end-Whole now failures documented fits h (n, e) =
      let config = normalized c in
      let delay = exponential_backoff config.cooldown config.max_cooldown failures in
      let bounds =
        exponential_backoff_bounds config.cooldown config.max_cooldown failures h (omega arith) in
      let held : chrono.from_std delay ≡ some delay = documented delay (omega arith) in
      let (k, d) = delay-Whole config.cooldown config.max_cooldown failures in
      (n + k, rw held (omega (arith, e, d)))

  -- With a chrono that behaves as documented and holds the longest cooldown of the normalized
  -- configuration, columns that hold whole microseconds exactly, a count of failures that stays within an
  -- i32, and a row whose cooldown and window are what the columns hold: an entry and a row that match
  -- still match after the same failures and successes at instants of whole microseconds.
  pub apply_events-Matches :
      (events : List HealthEvent) (entry : MemoryAccountState) (row : AccountHealthRow)
      → IsDocumented chrono
      → KeepsMicroseconds chrono
      → (normalized c).max_cooldown ≤ chrono_max
      → row.consecutive_failures + length events ≤ i32_max
      → All WholeEvent events
      → IsStored chrono row
      → Matches entry row
      → Matches (apply_events chrono (normalized c) events entry) (apply_row_events events row)
  unfolding apply_events apply_event
  apply_events-Matches [] entry row documented keeps fits small whole stored m = m
  apply_events-Matches (failure now source error ∷ es) entry row documented keeps fits small whole
        stored m =
      let after =
        failure-Matches now source error entry row
          (λ n h. (after_delay_bounds chrono c now n documented fits h).0)
          (kept-Whole now keeps whole.0)
          (λ n h. kept-Whole _ keeps (end-Whole now n documented fits h whole.0)) stored
          (omega arith) m in
      apply_events-Matches es _ _ documented keeps fits
        (omega (arith, apply_row_event-count (failure now source error) row)) whole.1 after.1
        after.0
  apply_events-Matches (success now source ∷ es) entry row documented keeps fits small whole stored
        m =
      apply_events-Matches es _ _ documented keeps fits
        (omega (arith, apply_row_event-count (success now source) row)) whole.1
        (success-IsStored chrono now (normalize_source source) row)
        (success-Matches chrono now source entry row (kept-Whole now keeps whole.0) m)

  -- A matching entry and row with an observation report the same health.
  pub health_from_row-Matches :
      (entry : MemoryAccountState) (row : AccountHealthRow) (now updated : ℕ)
      → Matches entry row
      → entry.updated_at ≡ some updated
      → let mem = memory_health chrono entry now (normalized c).stale_after in
        let view = health_from_row chrono row now (normalized c).stale_after in
        (mem.available ≡ view.available)
        × (mem.status ≡ view.status)
        × (mem.cooldown_remaining_ms ≡ view.cooldown_remaining_ms)
        × (mem.consecutive_failures ≡ view.consecutive_failures)
        × (mem.stale ≡ view.stale)
  unfolding memory_health health_from_row
  health_from_row-Matches entry row now updated m u = ground arith
