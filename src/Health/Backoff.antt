-- ===== src/Health/Backoff.antt =====
-- `exponential_backoff` of src/infra/health.rs (src/infra/db/health.rs has the same text).
pub mod Bounds
use my_ai_gateway.Prelude.{ℕ, ◌-◌, ◌*◌, ◌/◌, ◌^◌, min, max, eqb, if◌then◌else◌}
use my_ai_gateway.Health.Types.{nanos_per_milli, u64_max}

abbrev pub u128_max : ℕ
u128_max = 2 ^ 128 - 1

-- `failures.saturating_sub(1).min(63)`: the shift is below 128, so `checked_shl` succeeds.
unfoldable pub shift : ℕ → ℕ
shift failures = min (failures - 1) 63

-- In milliseconds, before the conversion to u64.
unfoldable pub delay_ms : ℕ → ℕ → ℕ → ℕ
unfolding shift
delay_ms base_ms max_ms failures = min (min (base_ms * 2 ^ shift failures) u128_max) max_ms

unfoldable pub exponential_backoff : ℕ → ℕ → ℕ → ℕ
unfolding delay_ms
exponential_backoff base maximum failures =
    let base_ms = base / nanos_per_milli in
    let max_ms = max (maximum / nanos_per_milli) base_ms in
    if eqb failures 0 then 0 else min (delay_ms base_ms max_ms failures) u64_max * nanos_per_milli
