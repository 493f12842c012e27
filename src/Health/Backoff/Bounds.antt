-- ===== src/Health/Backoff/Bounds.antt =====
-- `exponential_backoff` of src/infra/health.rs as the count of failures varies.
use my_ai_gateway.Prelude.{ℕ, suc, ◌*◌, ◌/◌, ◌^◌, ◌≤◌, ◌<◌, max, ◌≡◌, arith}
use my_ai_gateway.Health.Types.{nanos_per_milli, u64_max}
use my_ai_gateway.Health.Backoff.{shift, delay_ms, exponential_backoff}
use native.Mathlib.Nat.{pow-le-pow_right, one-le-pow, mul-le-mul_left}

shift-le : (m n : ℕ) → m ≤ n → shift m ≤ shift n
unfolding shift
shift-le m n h = omega arith

delay_ms-le :
    (base_ms max_ms m n : ℕ) → m ≤ n → delay_ms base_ms max_ms m ≤ delay_ms base_ms max_ms n
unfolding delay_ms
delay_ms-le base_ms max_ms m n h =
    let powers : 2 ^ shift m ≤ 2 ^ shift n = pow-le-pow_right (omega arith) (shift-le m n h) in
    let grows : base_ms * 2 ^ shift m ≤ base_ms * 2 ^ shift n = mul-le-mul_left base_ms powers in
    omega arith

-- The delay never falls as the count of failures grows.
pub exponential_backoff-le :
    (base maximum m n : ℕ)
    → m ≤ n
    → exponential_backoff base maximum m ≤ exponential_backoff base maximum n
unfolding exponential_backoff
exponential_backoff-le base maximum m n h = ground (
  arith,
  delay_ms-le (base / nanos_per_milli) (max (maximum / nanos_per_milli) (base / nanos_per_milli)) m
      n,
)

le-mul-pow : (b k : ℕ) → b ≤ b * 2 ^ k
le-mul-pow b k = let one : 1 ≤ 2 ^ k = one-le-pow k 2 (omega arith) in grind arith

base-le-delay_ms :
    (base_ms max_ms n : ℕ)
    → base_ms ≤ max_ms
    → base_ms ≤ u64_max
    → base_ms ≤ delay_ms base_ms max_ms n
unfolding delay_ms
base-le-delay_ms base_ms max_ms n h k = omega (arith, le-mul-pow base_ms (shift n))

delay_ms-le-max : (base_ms max_ms n : ℕ) → delay_ms base_ms max_ms n ≤ max_ms
unfolding delay_ms
delay_ms-le-max base_ms max_ms n = omega arith

-- From the first failure on, for a base whose milliseconds fit a u64, the delay lies between the
-- whole milliseconds of the base and the larger of base and maximum.
pub exponential_backoff_bounds :
    (base maximum n : ℕ)
    → 0 < n
    → base / nanos_per_milli ≤ u64_max
    → (base / nanos_per_milli * nanos_per_milli ≤ exponential_backoff base maximum n)
      × (exponential_backoff base maximum n ≤ max base maximum)
unfolding exponential_backoff
exponential_backoff_bounds base maximum n h k =
    let base_ms = base / nanos_per_milli in
    let max_ms = max (maximum / nanos_per_milli) base_ms in
    let low : base_ms ≤ delay_ms base_ms max_ms n =
      base-le-delay_ms base_ms max_ms n (omega arith) k in
    let high : delay_ms base_ms max_ms n ≤ max_ms = delay_ms-le-max base_ms max_ms n in ground arith

-- For a base of whole milliseconds and a maximum whose milliseconds fit a u64, the delay after `n +
-- 1` failures is the base doubled `n` times, as long as `n` is at most 63 and that does not pass the
-- maximum.
pub exponential_backoff_doubles :
    (base_ms maximum n : ℕ)
    → n ≤ 63
    → base_ms * 2 ^ n ≤ maximum / nanos_per_milli
    → maximum / nanos_per_milli ≤ u64_max
    → exponential_backoff (base_ms * nanos_per_milli) maximum (suc n)
      ≡ base_ms * 2 ^ n * nanos_per_milli
unfolding exponential_backoff
exponential_backoff_doubles base_ms maximum n h k l =
    let same : base_ms * nanos_per_milli / nanos_per_milli ≡ base_ms = omega arith in
    let capped : shift (suc n) ≡ n = unfold shift in omega arith in
    rw (same, capped) (ground (arith, le-mul-pow base_ms n))
