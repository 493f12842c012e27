-- ===== src/Proxy/Weighted/Outcome.antt =====
-- The replies of src/proxy/weighted.rs.
use my_ai_gateway.Prelude.{
  ℕ, ◌≤◌, ◌≡◌, ◌∙◌, sym, ◌⊎◌, refl, inl, inr, Bool, true, false, Option, none, some, String, [],
  ◌∷◌, length, Bool-cases, if◌then◌else◌, arith,
}
use my_ai_gateway.Domain.Config.{GatewayConfig, AccountConfig, ProviderConfig, account, provider}
use my_ai_gateway.Domain.Routing.{ResolvedRoute}
use my_ai_gateway.Health.Types.{AccountHealth}
use my_ai_gateway.Proxy.Transport.{
  TransportError, UpstreamResult, ok, err, UpstreamResponse, Response, forwarded, response_status,
}
use my_ai_gateway.Proxy.Environment.{Environment, Live, read_health}
use my_ai_gateway.Proxy.Policy.{
  primary_unavailable_reason, is_retryable, is_success, transport_error_status, upstream_http,
}
use my_ai_gateway.Proxy.Fallback.{FallbackCandidate, primary_candidate}
use my_ai_gateway.Proxy.Attempt.{
  UsageAttempt, AttemptContext, execute, result_status, result_success,
}
use my_ai_gateway.Proxy.Ordered.{Completion}
use my_ai_gateway.Proxy.Ordered.Outcome.{Answered}
use my_ai_gateway.Proxy.Weighted.{
  Reply, refused, completed, error_of, answer, timeout_or_unavailable, only_primary, second_attempt,
  to_fallback, fallback_only, delay_of, select, retry_or_fallback, after_primary, try_primary,
  by_health, by_account, proxy_weighted,
}

-- At most two attempts, and the client gets a success exactly if the last of them is one.
abbrev Done : Completion → Type 0
Done c = (length c.attempts ≤ 2) × Answered c

-- A refused request is answered with a gateway error before any attempt.
abbrev pub RepliesSoundly : Reply → Type 0
RepliesSoundly (refused response) = response_status response ≡ 502
RepliesSoundly (completed c) = Done c

module _ {W : Type 0} (env : Environment W) (context : AttemptContext) where
  abbrev IsFailing : (TransportError → Response) → Type 0
  IsFailing on_error = (e : TransportError) → is_success (response_status (on_error e)) ≡ false

  error_of-fails : IsFailing (error_of env context)
  unfolding transport_error_status
  error_of-fails e = ground arith

  timeout_or_unavailable-fails :
      (enabled : Bool) → IsFailing (timeout_or_unavailable env context enabled)
  unfolding transport_error_status
  timeout_or_unavailable-fails enabled e = ground arith

  -- What the client gets of a result: its status if it succeeded, else a failure.
  answer-cases :
      (on_error : TransportError → Response) (result : UpstreamResult)
      → IsFailing on_error
      → ((result_success env context result ≡ true)
          × (response_status (answer env context on_error result)
              ≡ result_status env context result))
        ⊎ ((result_success env context result ≡ false)
            × (is_success (response_status (answer env context on_error result)) ≡ false))
  answer-cases on_error (ok response) h = ground arith
  answer-cases on_error (err error) h = inr (refl, h error)

  second_attempt-Done :
      (c : FallbackCandidate) (first : UsageAttempt) (reason : String)
      (on_error : TransportError → Response) (live : Live W)
      → first.success ≡ false
      → IsFailing on_error
      → Done (second_attempt env context c first reason on_error live).0
  unfolding second_attempt execute
  second_attempt-Done c first reason on_error live failed failing =
      elim (answer-cases on_error (execute env context live c 1).0.result failing) [
        | inl (succeeded, same) ↦
            (omega arith, inr (first ∷ [], _, _, refl, refl, (failed, tt), succeeded, same))
        | inr (failed_too, failure) ↦ (omega arith, inl ((failed, (failed_too, tt)), failure))
      ]

  only_primary-Done :
      (primary : FallbackCandidate) (first : UsageAttempt) (response : Response)
      → first.success ≡ false
      → is_success (response_status response) ≡ false
      → Done (only_primary env context primary first response)
  unfolding only_primary
  only_primary-Done primary first response failed failure =
      (omega arith, inl ((failed, tt), failure))

  to_fallback-Done :
      (primary : FallbackCandidate) (first : UsageAttempt) (reason : String) (response : Response)
      (on_error : TransportError → Response) (p : Option FallbackCandidate × Live W)
      → first.success ≡ false
      → is_success (response_status response) ≡ false
      → IsFailing on_error
      → Done (to_fallback env context primary first reason response on_error p).0
  unfolding to_fallback
  to_fallback-Done primary first reason response on_error (none, live) failed failure failing =
      only_primary-Done primary first response failed failure
  to_fallback-Done primary first reason response on_error (some c, live) failed failure failing =
      second_attempt-Done c first reason on_error live failed failing

  fallback_only-Done :
      (enabled : Bool) (reason : String) (p : Option FallbackCandidate × Live W)
      → Done (fallback_only env context enabled reason p).0
  unfolding fallback_only execute
  fallback_only-Done enabled reason (none, live) = (omega arith, inl (tt, refl))
  fallback_only-Done enabled reason (some c, live) =
      elim (answer-cases (timeout_or_unavailable env context enabled)
        (execute env context live c 0).0.result (timeout_or_unavailable-fails enabled)) [
          | inl (succeeded, same) ↦ (omega arith, inr ([], _, _, refl, refl, tt, succeeded, same))
          | inr (failed, failure) ↦ (omega arith, inl ((failed, tt), failure))
        ]

  retryable-fails : (status : ℕ) → is_retryable status ≡ true → is_success status ≡ false
  unfolding is_retryable
  retryable-fails status h = ground arith

  if-Done :
      (t : Bool) (x y : Completion × Live W)
      → (t ≡ true → Done x.0)
      → (t ≡ false → Done y.0)
      → Done (if t then x else y).0
  if-Done true x y h k = h refl
  if-Done false x y h k = k refl

  forwarded-Done :
      (primary : FallbackCandidate) (first : UsageAttempt) (r : UpstreamResponse)
      → first.success ≡ is_success r.status
      → first.status_code ≡ r.status
      → Done (only_primary env context primary first (forwarded r))
  unfolding only_primary
  forwarded-Done primary first r success status = elim (Bool-cases (is_success r.status)) [
    | inl good ↦ (omega arith, inr ([], first, _, refl, refl, tt, success ∙ good, sym status))
    | inr bad ↦ (omega arith, inl ((success ∙ bad, tt), bad))
  ]

  module _ (config : GatewayConfig) (route : ResolvedRoute) where
    retry_or_fallback-Done :
        (primary : FallbackCandidate) (first : UsageAttempt) (r : UpstreamResponse)
        (delay : Option ℕ) (p : Option FallbackCandidate × Live W)
        → first.success ≡ false
        → is_success r.status ≡ false
        → Done (retry_or_fallback env context config route primary first r delay p).0
    unfolding retry_or_fallback
    retry_or_fallback-Done primary first r (some delay) (none, live) failed failure =
        second_attempt-Done primary first (upstream_http r.status) _ _ failed error_of-fails
    retry_or_fallback-Done primary first r (some delay) (some c, live) failed failure =
        to_fallback-Done primary first (upstream_http r.status) _ _ _ failed failure (λ e. failure)
    retry_or_fallback-Done primary first r none p failed failure =
        to_fallback-Done primary first (upstream_http r.status) _ _ _ failed failure (λ e. failure)

    -- The usage of an attempt says whether its result succeeded, and its status.
    abbrev Reports : UsageAttempt → UpstreamResult → Type 0
    Reports u result =
        (u.success ≡ result_success env context result)
        × (u.status_code ≡ result_status env context result)

    after_primary-Done :
        (primary : FallbackCandidate) (first : UsageAttempt) (result : UpstreamResult)
        (live : Live W)
        → Reports first result
        → Done (after_primary env context config route primary first result live).0
    unfolding after_primary
    after_primary-Done primary first (err error) live (failed, status) =
        to_fallback-Done primary first "upstream_transport_error" _ _ _ failed
          (error_of-fails error) error_of-fails
    after_primary-Done primary first (ok r) live (success, status) =
        if-Done (is_retryable r.status) _ _
          (λ retryable.
            let failure = retryable-fails r.status retryable in
            let (delay, delayed) = delay_of env context r live in
            retry_or_fallback-Done primary first r delay (select env context config route delayed)
              (success ∙ failure) failure)
          (λ final. forwarded-Done primary first r success status)

    try_primary-Done :
        (primary : FallbackCandidate) (live : Live W)
        → Done (try_primary env context config route primary live).0
    unfolding try_primary execute
    try_primary-Done primary live =
        let (attempted, done) = execute env context live primary 0 in
        after_primary-Done primary attempted.usage attempted.result done (refl, refl)

    by_health-Done :
        (a : AccountConfig) (p : ProviderConfig) (h : AccountHealth × Live W)
        → Done (by_health env context config route a p h).0
    unfolding by_health
    by_health-Done a p (health, live) =
        if-Done a.enabled _ _
          (λ on.
            if-Done health.available _ _
              (λ there. try_primary-Done (primary_candidate route a p context.model) live)
              (λ away.
                fallback_only-Done a.enabled (primary_unavailable_reason health)
                  (select env context config route live)))
          (λ off.
            fallback_only-Done a.enabled "account_disabled" (select env context config route live))

    by_account_sound :
        (p : Option ProviderConfig) (a : Option AccountConfig) (live : Live W)
        → RepliesSoundly (by_account env context config route p a live).0
    unfolding by_account
    by_account_sound none a live = refl
    by_account_sound (some p) none live = refl
    by_account_sound (some p) (some a) live = by_health-Done a p (read_health env live a.id)

    -- The weighted policy refuses with the status 502, or makes at most two attempts and ends in one of
    -- two ways: every attempt failed and the client gets a status that is no success, or every attempt
    -- but the last failed, the last one succeeded, and the client gets its status.
    pub proxy_weighted-outcome :
        (live : Live W) → RepliesSoundly (proxy_weighted env context config route live).0
    unfolding proxy_weighted
    proxy_weighted-outcome live =
        by_account_sound (provider config route.source_id) (account config route.primary_account_id)
          live
