-- ===== src/Proxy/Ordered.antt =====
-- src/proxy/ordered.rs: the lines of a route tried in their order.
pub mod Loop
pub mod Bounds
pub mod Outcome
pub mod Order
use my_ai_gateway.Prelude.{
  ℕ, suc, ◌+◌, ◌-◌, Bool, true, false, not, ◌&&◌, ◌||◌, Option, none, some, String, ◌==◌,
  starts_with, List, [], ◌∷◌, ◌++◌, leb, eqb, ltb, if◌then◌else◌, length, is_empty, is_some_and,
  unwrap_or, or_else,
}
use my_ai_gateway.Domain.Config.{GatewayConfig, AccountConfig, ProviderConfig, account, provider}
use my_ai_gateway.Domain.Routing.{ResolvedRoute}
use my_ai_gateway.Health.Types.{AccountHealth}
use my_ai_gateway.Proxy.Transport.{
  TransportError, timeout, total_timeout, StreamTermination, UpstreamResult, ok, err,
  UpstreamResponse, Response, forwarded, data_plane_error, transport_error_message,
  termination_message,
}
use my_ai_gateway.Proxy.Environment.{Environment, Live, read_health, check_available}
use my_ai_gateway.Proxy.Policy.{
  primary_unavailable_reason, is_retryable, transport_error_status, upstream_http,
}
use my_ai_gateway.Proxy.Fallback.{
  FallbackCandidate, available_fallback_candidates, primary_candidate,
}
use my_ai_gateway.Proxy.Attempt.{UsageAttempt, AttemptContext, AttemptResult, execute}

-- The variables that the loop writes.
pub record Progress : Type 0 where
  pub attempts : List UsageAttempt
  pub last_response : Option Response
  pub final_candidate : Option FallbackCandidate
  pub fallback_reason : Option String
  pub usage_request_body : String
  pub total_timeout : Bool

abbrev pub is_total_timeout : TransportError → Bool
is_total_timeout (timeout total_timeout) = true
is_total_timeout _ = false

-- An `Option` that keeps its first value.
abbrev get_or_insert : Option String → String → Option String
get_or_insert none s = some s
get_or_insert (some r) s = some r

-- What `finish` of the completion is called with.
pub record Completion : Type 0 where
  pub response : Response
  pub upstream : Option FallbackCandidate
  pub attempts : List UsageAttempt
  pub request_body : String
  pub fallback_reason : Option String
  pub error_summary : Option String

-- How the body of the loop ends: at its end or at a `continue`, or at a `break`.
pub data Step (W : Type 0) : Type 0 where
  next stop : Progress → Live W → Step W

module _ {W : Type 0} (env : Environment W) (context : AttemptContext) where
  abbrev gateway_error : ℕ → String → String → Response
  gateway_error status code message =
      data_plane_error context.protocol status code message context.request_id

  -- The response and whether the next line is tried.
  abbrev pub classify : UpstreamResult → Response × Bool
  classify (ok response) = (forwarded response, is_retryable response.status)
  classify (err error) = (
    gateway_error (transport_error_status error)
        (if is_total_timeout error then "gateway_total_timeout" else "upstream_request_failed")
        (transport_error_message error),
    not (is_total_timeout error),
  )

  abbrev next_reason : Option String → UpstreamResult → Option String
  next_reason reason (ok response) =
      if is_retryable response.status
      then get_or_insert reason (upstream_http response.status)
      else reason
  next_reason reason (err error) = get_or_insert reason "upstream_transport_error"

  abbrev timed_out : Bool → UpstreamResult → Bool
  timed_out before (ok response) = before
  timed_out before (err error) = is_total_timeout error

  unfoldable pub after_attempt : Progress → FallbackCandidate → AttemptResult → Progress
  after_attempt s c attempted = record {
    attempts = s.attempts ++ attempted.usage ∷ [];
    last_response = some (classify attempted.result).0;
    final_candidate = some c;
    fallback_reason = next_reason s.fallback_reason attempted.result;
    usage_request_body = attempted.request_body;
    total_timeout = timed_out s.total_timeout attempted.result;
  }

  unfoldable pub after_deadline : Progress → Progress
  after_deadline s = record s {
    total_timeout = true;
    last_response = some (
        gateway_error 504 "gateway_total_timeout"
          (termination_message StreamTermination.total_timeout));
  }

  -- No limit is `usize::MAX`, which no list reaches.
  abbrev pub allowed : Option ℕ → ℕ → Bool
  allowed none made = true
  allowed (some max_retries) made = ltb made (max_retries + 1)

  -- `total_timeout` is not zero and has passed.
  unfoldable pub past_deadline : Live W → Bool × Live W
  past_deadline live =
      if eqb context.stream_config.total_timeout 0
      then (false, live)
      else let (now, w) = env.instant_now live.world in
        (leb context.stream_config.total_timeout (now - context.started), record live { world = w })

  -- The body of the loop over the candidates: the attempt, the deadline before it, the availability
  -- before that and the limit first.
  unfoldable pub run_line : FallbackCandidate → Progress → Live W → Step W
  unfolding after_attempt
  run_line c s live =
      let (attempted, done) = execute env context live c (length s.attempts) in
      if (classify attempted.result).1
      then next (after_attempt s c attempted) done
      else stop (after_attempt s c attempted) done

  abbrev pub before_deadline : FallbackCandidate → Progress → Bool × Live W → Step W
  before_deadline c s (true, live) = stop (after_deadline s) live
  before_deadline c s (false, live) = run_line c s live

  abbrev pub if_available : FallbackCandidate → Progress → Bool × Live W → Step W
  if_available c s (false, live) = next s live
  if_available c s (true, live) = before_deadline c s (past_deadline live)

  unfoldable pub try_line : Option ℕ → FallbackCandidate → Progress → Live W → Step W
  unfolding run_line
  try_line max_retries c s live =
      if allowed max_retries (length s.attempts)
      then if_available c s (check_available env live c.account.id)
      else stop s live

  unfoldable pub attempt_lines :
      Option ℕ → List FallbackCandidate → Progress → Live W → Progress × Live W
  unfolding try_line
  attempt_lines max_retries [] s live = (s, live)
  attempt_lines max_retries (c ∷ cs) s live = elim (try_line max_retries c s live) [
    | next s' live' ↦ attempt_lines max_retries cs s' live'
    | stop s' live' ↦ (s', live')
  ]

  module _ (config : GatewayConfig) (route : ResolvedRoute) where
    -- The primary line, if it can be tried, or why it cannot.
    unfoldable pub consider_primary :
        Live W
        → Option AccountConfig
        → Option ProviderConfig
        → (List FallbackCandidate × Option String) × Live W
    consider_primary live (some a) (some p) =
        let (health, live') = read_health env live a.id in
        (
          if a.enabled && health.available
              then (primary_candidate route a p context.model ∷ [], none)
              else (
                [],
                some (if a.enabled then primary_unavailable_reason health else "account_disabled"),
              ),
          live',
        )
    consider_primary live _ _ = (([], none), live)

    abbrev pub start : Option String → Progress
    start reason = record {
      attempts = [];
      last_response = none;
      final_candidate = none;
      fallback_reason = reason;
      usage_request_body = context.body;
      total_timeout = false;
    }

    abbrev of_account_reason : Option String → Bool
    of_account_reason reason = is_some_and (λ r. starts_with r "account_") reason

    unfoldable pub complete : Progress → Completion
    complete s = record {
      response =
          unwrap_or
            (gateway_error 503 "route_unavailable" "no upstream line is currently available")
            s.last_response;
      upstream = s.final_candidate;
      attempts = s.attempts;
      request_body = s.usage_request_body;
      fallback_reason =
          if ltb 1 (length s.attempts) || of_account_reason s.fallback_reason
          then s.fallback_reason
          else none;
      error_summary = if s.total_timeout then some "gateway_total_timeout" else none;
    }

    -- The lines in their order, and the reason not to try the primary one.
    unfoldable pub gather_lines : Live W → (List FallbackCandidate × Option String) × Live W
    unfolding consider_primary
    gather_lines live =
        let ((primary, reason), live') =
          consider_primary live (account config route.primary_account_id)
            (provider config route.source_id) in
        let (fallbacks, live'') =
          available_fallback_candidates env config route context.model context.protocol live' in
        ((primary ++ fallbacks, reason), live'')

    unfoldable pub run_lines :
        (List FallbackCandidate × Option String) × Live W → Completion × Live W
    unfolding attempt_lines complete
    run_lines ((lines, reason), live) =
        let (s, live') = attempt_lines route.max_retries lines (start reason) live in
        (complete s, live')

    unfoldable pub proxy_ordered : Live W → Completion × Live W
    unfolding gather_lines run_lines
    proxy_ordered live = run_lines (gather_lines live)
