-- ===== src/Proxy/Ordered/Loop.antt =====
-- The loop of src/proxy/ordered.rs: how a line is passed, and induction over the lines.
use my_ai_gateway.Prelude.{
  ℕ, ◌≡◌, inl, inr, Bool, true, false, Option, String, List, [], ◌∷◌, length, Bool-cases,
}
use my_ai_gateway.Domain.Config.{GatewayConfig}
use my_ai_gateway.Domain.Routing.{ResolvedRoute}
use my_ai_gateway.Proxy.Environment.{Environment, Live}
use my_ai_gateway.Proxy.Fallback.{FallbackCandidate}
use my_ai_gateway.Proxy.Attempt.{AttemptContext, AttemptResult, execute}
use my_ai_gateway.Proxy.Ordered.{
  Progress, Step, next, stop, Completion, after_attempt, after_deadline, allowed, classify,
  run_line, before_deadline, if_available, try_line, attempt_lines, proxy_ordered, gather_lines,
  run_lines,
}

abbrev pub run :
    {W : Type 0}
    → Environment W
    → AttemptContext
    → Progress
    → FallbackCandidate
    → Live W
    → AttemptResult
run env context s c live = (execute env context live c (length s.attempts)).0

module _ {W : Type 0} (env : Environment W) (context : AttemptContext)
    (max_retries : Option ℕ) where
  -- How a line is passed.
  pub data Tried (c : FallbackCandidate) (s : Progress) : Step W → Type 0 where
    exhausted : (live : Live W) → Tried c s (stop s live)
    skipped : (live : Live W) → Tried c s (next s live)
    expired : (live : Live W) → Tried c s (stop (after_deadline env context s) live)
    again :
        (live done : Live W)
        → allowed env context max_retries (length s.attempts) ≡ true
        → (classify env context (run env context s c live).result).1 ≡ true
        → Tried c s (next (after_attempt env context s c (run env context s c live)) done)
    last :
        (live done : Live W)
        → allowed env context max_retries (length s.attempts) ≡ true
        → Tried c s (stop (after_attempt env context s c (run env context s c live)) done)

  Tried-running :
      (c : FallbackCandidate) (s : Progress) (live : Live W)
      → allowed env context max_retries (length s.attempts) ≡ true
      → Tried c s (run_line env context c s live)
  unfolding run_line
  Tried-running c s live may =
      elim (Bool-cases (classify env context (run env context s c live).result).1) [
        | inl retried ↦ rw (retried, run_line) (again live _ may retried)
        | inr ended ↦ rw (ended, run_line) (last live _ may)
      ]

  Tried-before_deadline :
      (c : FallbackCandidate) (s : Progress) (p : Bool × Live W)
      → allowed env context max_retries (length s.attempts) ≡ true
      → Tried c s (before_deadline env context c s p)
  Tried-before_deadline c s (true, live) may = expired live
  Tried-before_deadline c s (false, live) may = Tried-running c s live may

  Tried-if_available :
      (c : FallbackCandidate) (s : Progress) (p : Bool × Live W)
      → allowed env context max_retries (length s.attempts) ≡ true
      → Tried c s (if_available env context c s p)
  Tried-if_available c s (false, live) may = skipped live
  Tried-if_available c s (true, live) may = Tried-before_deadline c s _ may

  tried :
      (c : FallbackCandidate) (s : Progress) (live : Live W)
      → Tried c s (try_line env context max_retries c s live)
  unfolding try_line
  tried c s live = elim (Bool-cases (allowed env context max_retries (length s.attempts))) [
    | inr never ↦ rw (never, try_line) (exhausted live)
    | inl may ↦ rw (may, try_line) (Tried-if_available c s _ may)
  ]

  module _ {ℓ κ} (P : List FallbackCandidate → Progress → Type ℓ) (Q : Progress → Type κ)
      (finish : (cs : List FallbackCandidate) (s : Progress) → P cs s → Q s)
      (skip : (c : FallbackCandidate) (cs : List FallbackCandidate) (s : Progress)
        → P (c ∷ cs) s
        → P cs s)
      (expire : (cs : List FallbackCandidate) (s : Progress)
        → P cs s
        → Q (after_deadline env context s))
      (retry : (c : FallbackCandidate) (cs : List FallbackCandidate) (s : Progress) (live : Live W)
        → allowed env context max_retries (length s.attempts) ≡ true
        → (classify env context (run env context s c live).result).1 ≡ true
        → P (c ∷ cs) s
        → P cs (after_attempt env context s c (run env context s c live)))
      (end : (c : FallbackCandidate) (cs : List FallbackCandidate) (s : Progress) (live : Live W)
        → allowed env context max_retries (length s.attempts) ≡ true
        → P (c ∷ cs) s
        → Q (after_attempt env context s c (run env context s c live))) where
    abbrev finished : Step W → List FallbackCandidate → Progress × Live W
    finished step cs = elim step [
      | next s live ↦ attempt_lines env context max_retries cs s live
      | stop s live ↦ (s, live)
    ]

    after_line :
        (c : FallbackCandidate) (cs : List FallbackCandidate) (s : Progress) {step : Step W}
        → ((s' : Progress) (live' : Live W)
            → P cs s'
            → Q (attempt_lines env context max_retries cs s' live').0)
        → Tried c s step
        → P (c ∷ cs) s
        → Q (finished step cs).0
    after_line c cs s rest (exhausted live) h = finish (c ∷ cs) s h
    after_line c cs s rest (skipped live) h = rest s live (skip c cs s h)
    after_line c cs s rest (expired live) h = expire (c ∷ cs) s h
    after_line c cs s rest (again live done may retried) h =
        rest _ done (retry c cs s live may retried h)
    after_line c cs s rest (last live done may) h = end c cs s live may h

    pub attempt_lines-ends :
        (cs : List FallbackCandidate) (s : Progress) (live : Live W)
        → P cs s
        → Q (attempt_lines env context max_retries cs s live).0
    unfolding attempt_lines
    attempt_lines-ends [] s live h = finish [] s h
    attempt_lines-ends (c ∷ cs) s live h =
        after_line c cs s (attempt_lines-ends cs) (tried c s live) h

-- What holds of every run over lines holds of the policy.
pub proxy_ordered-elim {ℓ} :
    {W : Type 0} (env : Environment W) (context : AttemptContext) (config : GatewayConfig)
    (route : ResolvedRoute) (live : Live W) (Q : Completion → Type ℓ)
    → ((lines : List FallbackCandidate) (reason : Option String) (live' : Live W)
        → Q (run_lines env context config route ((lines, reason), live')).0)
    → Q (proxy_ordered env context config route live).0
unfolding proxy_ordered
proxy_ordered-elim {W = W} env context config route live Q h =
    of_pair (gather_lines env context config route live)
  where
    of_pair :
        (g : (List FallbackCandidate × Option String) × Live W)
        → Q (run_lines env context config route g).0
    of_pair ((lines, reason), live') = h lines reason live'
