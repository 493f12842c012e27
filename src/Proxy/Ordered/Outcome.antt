-- ===== src/Proxy/Ordered/Outcome.antt =====
-- The responses of src/proxy/ordered.rs.
use my_ai_gateway.Prelude.{
  ℕ, ◌≡◌, ◌⊎◌, refl, inl, inr, true, false, Option, none, some, List, [], ◌∷◌, ◌++◌, All,
  All-append, unwrap_or, arith,
}
use my_ai_gateway.Domain.Config.{GatewayConfig}
use my_ai_gateway.Domain.Routing.{ResolvedRoute}
use my_ai_gateway.Proxy.Transport.{UpstreamResult, ok, err, Response, response_status}
use my_ai_gateway.Proxy.Environment.{Environment, Live}
use my_ai_gateway.Proxy.Policy.{is_retryable, is_success, transport_error_status}
use my_ai_gateway.Proxy.Fallback.{FallbackCandidate}
use my_ai_gateway.Proxy.Attempt.{
  UsageAttempt, AttemptContext, execute, result_status, result_success,
}
use my_ai_gateway.Proxy.Ordered.{
  Progress, Completion, after_attempt, after_deadline, classify, attempt_lines, run_lines, start,
  proxy_ordered, complete,
}
use my_ai_gateway.Proxy.Ordered.Loop.{run, attempt_lines-ends, proxy_ordered-elim}

abbrev Failed : UsageAttempt → Type 0
Failed u = u.success ≡ false

-- The status is not one of success.
abbrev IsFailure : Option Response → Type 0
IsFailure none = Unit
IsFailure (some r) = is_success (response_status r) ≡ false

abbrev AllFailed : Progress → Type 0
AllFailed s = All Failed s.attempts × IsFailure s.last_response

-- The last attempt succeeded, and the client gets its status.
abbrev Succeeded : List UsageAttempt → Option Response → Type 0
Succeeded attempts response =
    (before : List UsageAttempt) × (u : UsageAttempt) × (r : Response) × (attempts
      ≡ before ++ u ∷ [])
    × (response ≡ some r)
    × All Failed before
    × (u.success ≡ true)
    × (response_status r ≡ u.status_code)

-- Every attempt failed and the client gets no success, or the last one succeeded.
abbrev pub Answered : Completion → Type 0
Answered c =
    (All Failed c.attempts × (is_success (response_status c.response) ≡ false))
    ⊎ Succeeded c.attempts (some c.response)

module _ {W : Type 0} (env : Environment W) (context : AttemptContext) where
  -- A result that is retried did not succeed.
  classify-failed :
      (result : UpstreamResult)
      → (classify env context result).1 ≡ true
      → (result_success env context result ≡ false)
        × (is_success (response_status (classify env context result).0) ≡ false)
  unfolding is_retryable transport_error_status
  classify-failed (ok response) h = ground arith
  classify-failed (err error) h = ground arith

  -- A result succeeds with the status that the client gets, or fails with a failure.
  classify-cases :
      (result : UpstreamResult)
      → ((result_success env context result ≡ true)
          × (response_status (classify env context result).0 ≡ result_status env context result))
        ⊎ ((result_success env context result ≡ false)
            × (is_success (response_status (classify env context result).0) ≡ false))
  unfolding transport_error_status
  classify-cases (ok response) = ground arith
  classify-cases (err error) = inr (refl, ground arith)

  module _ (s : Progress) (c : FallbackCandidate) (live : Live W) where
    retried :
        (classify env context (run env context s c live).result).1 ≡ true
        → AllFailed s
        → AllFailed (after_attempt env context s c (run env context s c live))
    unfolding after_attempt execute
    retried again (failed, response) =
        let (failed_here, failure) = classify-failed _ again in
        (All-append Failed s.attempts _ failed (failed_here, tt), failure)

    ended :
        AllFailed s
        → let s' = after_attempt env context s c (run env context s c live) in
          AllFailed s' ⊎ Succeeded s'.attempts s'.last_response
    unfolding after_attempt execute
    ended (failed, response) = elim (classify-cases (run env context s c live).result) [
      | inl (succeeded, same) ↦ inr (s.attempts, _, _, refl, refl, failed, succeeded, same)
      | inr (failed_here, failure) ↦
          inl (All-append Failed s.attempts _ failed (failed_here, tt), failure)
    ]

  expired : (s : Progress) → AllFailed s → AllFailed (after_deadline env context s)
  unfolding after_deadline
  expired s (failed, response) = (failed, refl)

  attempt_lines-outcome :
      (m : Option ℕ) (cs : List FallbackCandidate) (s : Progress) (live : Live W)
      → AllFailed s
      → let s' = (attempt_lines env context m cs s live).0 in
        AllFailed s' ⊎ Succeeded s'.attempts s'.last_response
  attempt_lines-outcome m cs s live =
      attempt_lines-ends env context m (λ cs s. AllFailed s)
        (λ s. AllFailed s ⊎ Succeeded s.attempts s.last_response) (λ cs s h. inl h) (λ c cs s h. h)
        (λ cs s h. inl (expired s h)) (λ c cs s l may again h. retried s c l again h)
        (λ c cs s l may h. ended s c l h) cs s live

  -- Without a response of a line the client gets `d`.
  failure_or :
      (d : Response) (o : Option Response)
      → is_success (response_status d) ≡ false
      → IsFailure o
      → is_success (response_status (unwrap_or d o)) ≡ false
  failure_or d none h k = h
  failure_or d (some r) h k = k

  answer_is :
      (d : Response) (o : Option Response) (r : Response)
      → o ≡ some r
      → some (unwrap_or d o) ≡ some r
  answer_is d none r h = absurd (cc)
  answer_is d (some q) r h = h

  -- The ordered policy ends in one of two ways: every attempt failed and the client gets a status that
  -- is no success, or every attempt but the last failed, the last one succeeded, and the client gets its
  -- status.
  pub proxy_ordered-outcome :
      (config : GatewayConfig) (route : ResolvedRoute) (live : Live W)
      → Answered (proxy_ordered env context config route live).0
  unfolding run_lines complete
  proxy_ordered-outcome config route live =
      proxy_ordered-elim env context config route live Answered λ lines reason live'.
        elim (attempt_lines-outcome route.max_retries lines (start env context config route reason)
          live' (tt, tt)) [
            | inl (failed, failure) ↦ inl (failed, failure_or _ _ refl failure)
            | inr (before, u, r, split, response, failed, succeeded, same) ↦
                inr (before, u, r, split, answer_is _ _ r response, failed, succeeded, same)
          ]
