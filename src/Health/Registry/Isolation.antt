-- ===== src/Health/Registry/Isolation.antt =====
-- The accounts of one registry of src/infra/health.rs, and its two readings of an account.
use my_ai_gateway.Prelude.{
  ℕ, ◌≡◌, refl, ◌≢◌, Option, none, some, String, ◌==◌, List, [], ◌∷◌, if◌then◌else◌, arith, eq_iff,
}
use my_ai_gateway.Health.Types.{HealthConfig, MemoryAccountState}
use my_ai_gateway.Health.Breaker.{Chrono}
use my_ai_gateway.Health.View.{unknown_health}
use my_ai_gateway.Health.Registry.{
  HealthRegistry, get_entry, put_entry, is_available, get_health, mark_failure_with_details,
  mark_success,
}

get_entry-put_entry :
    (id other : String) (entry : MemoryAccountState) (state : List (String × MemoryAccountState))
    → get_entry other (put_entry id entry state)
      ≡ (if id == other then some entry else get_entry other state)
unfolding get_entry put_entry
get_entry-put_entry id other entry [] = refl
get_entry-put_entry id other entry ((k, old) ∷ rest) =
    ground
      (arith, eq_iff k id, eq_iff id other, eq_iff k other, get_entry-put_entry id other entry rest)

get_entry-put_entry_ne :
    (id other : String) (entry : MemoryAccountState) (state : List (String × MemoryAccountState))
    → id ≢ other
    → get_entry other (put_entry id entry state) ≡ get_entry other state
get_entry-put_entry_ne id other entry state ne =
    ground (arith, eq_iff id other, get_entry-put_entry id other entry state)

-- `is_available` is the availability that `get_health` reports, with and without a database.
pub is_available-get_health :
    (chrono : Chrono) (now : ℕ) (r : HealthRegistry) (account_id : String)
    → is_available chrono now r account_id ≡ (get_health chrono now r account_id).available
unfolding is_available get_health unknown_health
is_available-get_health chrono now r account_id = ground arith

-- Without a database, a failure or a success of one account changes the health of no other account.
pub mark-isolated :
    (chrono : Chrono) (now later : ℕ) (config : HealthConfig)
    (state : List (String × MemoryAccountState)) (id other source : String)
    (code message : Option String)
    → id ≢ other
    → let r : HealthRegistry = record { config = config; database = none; state = state } in
      (get_health chrono later
          (mark_failure_with_details chrono now r id source code message).0
          other
        ≡ get_health chrono later r other)
      × (get_health chrono later (mark_success chrono now r id) other
          ≡ get_health chrono later r other)
unfolding get_health mark_failure_with_details mark_success
mark-isolated chrono now later config state id other source code message ne = (
  rw (get_entry-put_entry_ne id other _ state ne),
  rw (get_entry-put_entry_ne id other _ state ne),
)
