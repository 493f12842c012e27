-- ===== src/Proxy/Policy.antt =====
-- src/proxy/policy.rs: which responses are retried, and what they do to the health of the account.
use Prim.Native.Char.{code}
use Prim.Native.String
use my_ai_gateway.Prelude.{
  ℕ, ◌+◌, ◌-◌, ◌*◌, ◌/◌, ◌%◌, Bool, ◌&&◌, ◌||◌, Option, none, some, String, ◌==◌, [], ◌∷◌, ltb, leb,
  eqb, if◌then◌else◌, and_then, unwrap_or, get_elem?,
}
use my_ai_gateway.Prelude.Text.{trim, concat}
use my_ai_gateway.Health.Types.{AccountHealth, nanos_per_sec, u64_max}
use my_ai_gateway.Proxy.Transport.{TransportError, timeout}
use my_ai_gateway.Proxy.Environment.{Environment, Live, mark_failed, mark_succeeded}

abbrev pub max_same_account_retry_after : ℕ
max_same_account_retry_after = 2 * nanos_per_sec

unfoldable pub primary_unavailable_reason : AccountHealth → String
primary_unavailable_reason health =
    if health.status == "disabled"
    then "account_disabled"
    else if health.status == "cooling_down"
    then "account_cooling_down"
    else if health.status == "unhealthy"
    then "account_unhealthy"
    else "account_unavailable"

-- `StatusCode::is_server_error` and `StatusCode::is_success`.
abbrev pub is_server_error : ℕ → Bool
is_server_error status = leb 500 status && ltb status 600

abbrev pub is_success : ℕ → Bool
is_success status = leb 200 status && ltb status 300

-- `StatusCode::as_u16` in decimal: a status has three digits.
abbrev digit_text : ℕ → String
digit_text n =
    unwrap_or "" (get_elem? ("0" ∷ "1" ∷ "2" ∷ "3" ∷ "4" ∷ "5" ∷ "6" ∷ "7" ∷ "8" ∷ "9" ∷ []) n)

unfoldable pub upstream_http : ℕ → String
upstream_http status = concat (
    "upstream_http_"
    ∷ digit_text (status / 100 % 10)
    ∷ digit_text (status / 10 % 10)
    ∷ digit_text (status % 10)
    ∷ [])

unfoldable pub is_retryable : ℕ → Bool
is_retryable status = eqb status 408 || eqb status 429 || is_server_error status

-- `str::parse::<u64>`: decimal digits after an optional plus sign, none on overflow.
abbrev digit : ℕ → Option ℕ
digit c = if leb b'0' c && leb c b'9' then some (c - b'0') else none

abbrev push_digit : ℕ → ℕ → Option ℕ
push_digit n d = let next = n * 10 + d in if leb next u64_max then some next else none

unfoldable pub parse_digits : String → ℕ → Option ℕ
parse_digits Prim.Native.String.[] n = some n
parse_digits (Prim.Native.String.◌∷◌ c s) n =
    and_then (digit (code c)) (λ d. and_then (push_digit n d) (λ next. parse_digits s next))

abbrev nonempty_digits : String → Option ℕ
nonempty_digits Prim.Native.String.[] = none
nonempty_digits (Prim.Native.String.◌∷◌ c s) = parse_digits (Prim.Native.String.◌∷◌ c s) 0

unfoldable pub parse_u64 : String → Option ℕ
parse_u64 Prim.Native.String.[] = none
parse_u64 (Prim.Native.String.◌∷◌ c s) =
    if eqb (code c) b'+' then nonempty_digits s else nonempty_digits (Prim.Native.String.◌∷◌ c s)

abbrev until : ℕ → ℕ → Option ℕ
until now retry_at = if ltb retry_at now then none else some (retry_at - now)

abbrev short_enough : ℕ → Option ℕ
short_enough delay = if leb delay max_same_account_retry_after then some delay else none

module _ {W : Type 0} (env : Environment W) where
  -- Of the text of the header, at a reading of the clock.
  abbrev parsed_delay : ℕ → String → Option ℕ
  parsed_delay now value = elim (parse_u64 value) [
    | some seconds ↦ some (seconds * nanos_per_sec)
    | none ↦ and_then (env.parse_from_rfc2822 value) (until now)
  ]

  unfoldable pub retry_after_delay : ℕ → Option String → Option ℕ
  retry_after_delay now header =
      and_then header (λ text. and_then (parsed_delay now (trim text)) short_enough)

  unfoldable pub record_response_health : Live W → String → ℕ → Live W
  record_response_health live account_id status =
      if is_retryable status
      then mark_failed env live account_id (upstream_http status) "retryable upstream response"
      else if is_success status
      then mark_succeeded env live account_id
      else live

unfoldable pub transport_error_status : TransportError → ℕ
transport_error_status (timeout termination) = 504
transport_error_status _ = 502
