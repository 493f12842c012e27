-- ===== src/Proxy/Weighted.antt =====
-- src/proxy/weighted.rs: the preferred account first, then one weighted fallback or one short retry.
pub mod Outcome
use my_ai_gateway.Prelude.{
  ℕ, ◌==◌, eqb, Bool, true, false, Option, none, some, String, List, [], ◌∷◌, if◌then◌else◌,
}
use my_ai_gateway.Domain.Config.{GatewayConfig, AccountConfig, ProviderConfig, account, provider}
use my_ai_gateway.Domain.Routing.{ResolvedRoute}
use my_ai_gateway.Health.Types.{AccountHealth}
use my_ai_gateway.Proxy.Transport.{
  TransportError, timeout, UpstreamResult, ok, err, UpstreamResponse, Response, forwarded,
  data_plane_error, transport_error_message,
}
use my_ai_gateway.Proxy.Environment.{Environment, Live, read_health}
use my_ai_gateway.Proxy.Policy.{
  primary_unavailable_reason, is_retryable, retry_after_delay, transport_error_status,
  upstream_http,
}
use my_ai_gateway.Proxy.Fallback.{FallbackCandidate, select_fallback_candidate, primary_candidate}
use my_ai_gateway.Proxy.Attempt.{UsageAttempt, AttemptContext, AttemptResult, execute}
use my_ai_gateway.Proxy.Ordered.{Completion}

-- A request ends by `finish_proxy` alone, or by `finish` of the completion.
pub data Reply : Type 0 where
  refused : Response → Reply
  completed : Completion → Reply

module _ {W : Type 0} (env : Environment W) (context : AttemptContext) where
  abbrev gateway_error : ℕ → String → String → Response
  gateway_error status code message =
      data_plane_error context.protocol status code message context.request_id

  abbrev pub error_of : TransportError → Response
  error_of error =
      gateway_error (transport_error_status error) "upstream_request_failed"
        (transport_error_message error)

  abbrev pub answer : (TransportError → Response) → UpstreamResult → Response
  answer on_error (ok response) = forwarded response
  answer on_error (err error) = on_error error

  abbrev pub unavailable_response : Bool → Response
  unavailable_response enabled =
      gateway_error 503 (if enabled then "account_cooling_down" else "account_disabled")
        "primary account is unavailable and no fallback succeeded"

  -- A timeout is reported as such, any other failure as the unavailable account.
  abbrev pub timeout_or_unavailable : Bool → TransportError → Response
  timeout_or_unavailable enabled (timeout t) = error_of (timeout t)
  timeout_or_unavailable enabled error = unavailable_response enabled

  -- The first attempt alone.
  unfoldable pub only_primary : FallbackCandidate → UsageAttempt → Response → Completion
  only_primary primary first response = record {
    response = response;
    upstream = some primary;
    attempts = first ∷ [];
    request_body = context.body;
    fallback_reason = none;
    error_summary = none;
  }

  -- The second attempt, by `c`.
  unfoldable pub second_attempt :
      FallbackCandidate
      → UsageAttempt
      → String
      → (TransportError → Response)
      → Live W
      → Completion × Live W
  second_attempt c first reason on_error live =
      let (attempted, done) = execute env context live c 1 in
      (
        record {
          response = answer on_error attempted.result;
          upstream = some c;
          attempts = first ∷ attempted.usage ∷ [];
          request_body = context.body;
          fallback_reason = some reason;
          error_summary = none;
        },
        done,
      )

  unfoldable pub to_fallback :
      FallbackCandidate
      → UsageAttempt
      → String
      → Response
      → (TransportError → Response)
      → Option FallbackCandidate × Live W
      → Completion × Live W
  unfolding only_primary second_attempt
  to_fallback primary first reason response on_error (none, live) =
      (only_primary primary first response, live)
  to_fallback primary first reason response on_error (some c, live) =
      second_attempt c first reason on_error live

  -- The attempt of the fallback when the primary account cannot be used.
  unfoldable pub fallback_only :
      Bool → String → Option FallbackCandidate × Live W → Completion × Live W
  fallback_only enabled reason (none, live) = (
    record {
      response = unavailable_response enabled;
      upstream = none;
      attempts = [];
      request_body = context.body;
      fallback_reason = some reason;
      error_summary = none;
    },
    live,
  )
  fallback_only enabled reason (some c, live) =
      let (attempted, done) = execute env context live c 0 in
      (
        record {
          response = answer (timeout_or_unavailable enabled) attempted.result;
          upstream = some c;
          attempts = attempted.usage ∷ [];
          request_body = attempted.request_body;
          fallback_reason = some reason;
          error_summary = none;
        },
        done,
      )

  -- The clock is read for the date form of the header only; here it is read in both.
  abbrev pub delay_of : UpstreamResponse → Live W → Option ℕ × Live W
  delay_of r live =
      if eqb r.status 429
      then (let (now, w) = env.utc_now live.world in
          (retry_after_delay env now r.retry_after, record live { world = w }))
      else (none, live)

  abbrev pub slept : ℕ → Live W → Live W
  slept delay live = record live { world = env.sleep delay live.world }

  module _ (config : GatewayConfig) (route : ResolvedRoute) where
    abbrev pub select : Live W → Option FallbackCandidate × Live W
    select live = select_fallback_candidate env config route context.model context.protocol live

    -- A short delay is waited for if no fallback is there; otherwise a fallback is selected anew.
    unfoldable pub retry_or_fallback :
        FallbackCandidate
        → UsageAttempt
        → UpstreamResponse
        → Option ℕ
        → Option FallbackCandidate × Live W
        → Completion × Live W
    unfolding to_fallback second_attempt
    retry_or_fallback primary first r (some delay) (none, live) =
        second_attempt primary first (upstream_http r.status) error_of (slept delay live)
    retry_or_fallback primary first r _ (_, live) =
        to_fallback primary first (upstream_http r.status) (forwarded r) (λ e. forwarded r)
          (select live)

    unfoldable pub after_primary :
        FallbackCandidate → UsageAttempt → UpstreamResult → Live W → Completion × Live W
    unfolding to_fallback only_primary retry_or_fallback
    after_primary primary first (err error) live =
        to_fallback primary first "upstream_transport_error" (error_of error) error_of (select live)
    after_primary primary first (ok r) live =
        if is_retryable r.status
        then (let (delay, delayed) = delay_of r live in
            retry_or_fallback primary first r delay (select delayed))
        else (only_primary primary first (forwarded r), live)

    unfoldable pub try_primary : FallbackCandidate → Live W → Completion × Live W
    unfolding after_primary
    try_primary primary live =
        let (attempted, done) = execute env context live primary 0 in
        after_primary primary attempted.usage attempted.result done

    unfoldable pub by_health :
        AccountConfig → ProviderConfig → AccountHealth × Live W → Completion × Live W
    unfolding try_primary fallback_only
    by_health a p (health, live) =
        if a.enabled
        then if health.available
          then try_primary (primary_candidate route a p context.model) live
          else fallback_only a.enabled (primary_unavailable_reason health) (select live)
        else fallback_only a.enabled "account_disabled" (select live)

    abbrev complete_with : Completion × Live W → Reply × Live W
    complete_with (c, live) = (completed c, live)

    unfoldable pub by_account :
        Option ProviderConfig → Option AccountConfig → Live W → Reply × Live W
    unfolding by_health
    by_account none _ live = (
      refused (gateway_error 502 "provider_not_found" "route references an unknown provider"),
      live,
    )
    by_account (some p) none live = (
      refused (gateway_error 502 "account_not_found" "route references an unknown account"),
      live,
    )
    by_account (some p) (some a) live = complete_with (by_health a p (read_health env live a.id))

    unfoldable pub proxy_weighted : Live W → Reply × Live W
    unfolding by_account
    proxy_weighted live =
        by_account (provider config route.source_id) (account config route.primary_account_id) live
