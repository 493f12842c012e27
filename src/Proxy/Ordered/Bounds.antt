-- ===== src/Proxy/Ordered/Bounds.antt =====
-- The number of attempts of src/proxy/ordered.rs.
use my_ai_gateway.Prelude.{
  ℕ, zero, suc, ◌+◌, ◌≤◌, ◌≡◌, refl, subst, true, Option, some, List, [], ◌∷◌, ◌++◌, length,
  length-append, get_elem?, arith,
}
use my_ai_gateway.Domain.Config.{GatewayConfig}
use my_ai_gateway.Domain.Routing.{ResolvedRoute}
use my_ai_gateway.Proxy.Environment.{Environment, Live}
use my_ai_gateway.Proxy.Fallback.{FallbackCandidate}
use my_ai_gateway.Proxy.Attempt.{UsageAttempt, AttemptContext, AttemptResult, execute}
use my_ai_gateway.Proxy.Ordered.{
  Progress, after_attempt, after_deadline, allowed, attempt_lines, complete, run_lines, start,
  proxy_ordered,
}
use my_ai_gateway.Proxy.Ordered.Loop.{run, attempt_lines-ends, proxy_ordered-elim}

length-snoc {ℓ} : {A : Type ℓ} (xs : List A) (x : A) → length (xs ++ x ∷ []) ≡ suc (length xs)
length-snoc xs x = omega (arith, length-append xs (x ∷ []))

some-injective {ℓ} : {A : Type ℓ} {x y : A} → some x ≡ some y → x ≡ y
some-injective h = cc

-- The element at an index of a list with one more.
get_elem?-snoc {ℓ κ} :
    {A : Type ℓ} (P : ℕ → A → Type κ) (xs : List A) (x : A) (i : ℕ) {y : A}
    → ((k : ℕ) (z : A) → get_elem? xs k ≡ some z → P k z)
    → P (length xs) x
    → get_elem? (xs ++ x ∷ []) i ≡ some y
    → P i y
get_elem?-snoc P [] x zero h p e = subst (P 0) (some-injective e) p
get_elem?-snoc P [] x (suc i) h p e = absurd (cc)
get_elem?-snoc P (y ∷ ys) x zero h p e = h 0 _ e
get_elem?-snoc P (y ∷ ys) x (suc i) h p e =
    get_elem?-snoc (λ k z. P (suc k) z) ys x i (λ k z at. h (suc k) z at) p e

module _ {W : Type 0} (env : Environment W) (context : AttemptContext) where
  abbrev AtMost : ℕ → Progress → Type 0
  AtMost n s = length s.attempts ≤ n + 1

  one_more :
      (n : ℕ) (s : Progress) (c : FallbackCandidate) (r : AttemptResult)
      → allowed env context (some n) (length s.attempts) ≡ true
      → AtMost n (after_attempt env context s c r)
  unfolding after_attempt
  one_more n s c r h = ground (arith, length-snoc s.attempts r.usage)

  abbrev IsNumbered : Progress → Type 0
  IsNumbered s = (i : ℕ) (u : UsageAttempt) → get_elem? s.attempts i ≡ some u → u.attempt_no ≡ i

  next_number :
      (s : Progress) (c : FallbackCandidate) (live : Live W)
      → IsNumbered s
      → IsNumbered (after_attempt env context s c (run env context s c live))
  unfolding after_attempt execute
  next_number s c live h i u at =
      get_elem?-snoc (λ k z. UsageAttempt.attempt_no z ≡ k) s.attempts _ i h refl at

  module _ (m : Option ℕ) (cs : List FallbackCandidate) (s : Progress) (live : Live W) where
    attempt_lines-AtMost :
        (n : ℕ) → m ≡ some n → AtMost n s → AtMost n (attempt_lines env context m cs s live).0
    unfolding after_deadline
    attempt_lines-AtMost n limit =
        attempt_lines-ends env context m (λ cs s. AtMost n s) (AtMost n) (λ cs s h. h)
          (λ c cs s h. h) (λ cs s h. h)
          (λ c cs s l may again h. one_more n s c (run env context s c l) (rw limit at may))
          (λ c cs s l may h. one_more n s c (run env context s c l) (rw limit at may)) cs s live

    attempt_lines-IsNumbered : IsNumbered s → IsNumbered (attempt_lines env context m cs s live).0
    unfolding after_deadline
    attempt_lines-IsNumbered =
        attempt_lines-ends env context m (λ cs s. IsNumbered s) IsNumbered (λ cs s h. h)
          (λ c cs s h. h) (λ cs s h. h) (λ c cs s l may again h. next_number s c l h)
          (λ c cs s l may h. next_number s c l h) cs s live

  zero_le : (n : ℕ) → 0 ≤ n + 1
  zero_le n = omega arith

  none_numbered : (i : ℕ) (u : UsageAttempt) → get_elem? [] i ≡ some u → u.attempt_no ≡ i
  none_numbered i u at = absurd (cc)

  module _ (config : GatewayConfig) (route : ResolvedRoute) (live : Live W) where
    -- With a retry allowance of `n`, the ordered policy makes at most `n + 1` attempts.
    pub proxy_ordered-attempts_le :
        (n : ℕ)
        → route.max_retries ≡ some n
        → length (proxy_ordered env context config route live).0.attempts ≤ n + 1
    unfolding run_lines complete
    proxy_ordered-attempts_le n limit =
        proxy_ordered-elim env context config route live (λ c. length c.attempts ≤ n + 1)
          λ lines reason live'.
            attempt_lines-AtMost route.max_retries lines (start env context config route reason)
              live' n limit (zero_le n)

    -- The attempts of the ordered policy are numbered from 0 in the order they are made.
    pub proxy_ordered-numbered :
        (i : ℕ) (u : UsageAttempt)
        → get_elem? (proxy_ordered env context config route live).0.attempts i ≡ some u
        → u.attempt_no ≡ i
    unfolding run_lines complete
    proxy_ordered-numbered =
        proxy_ordered-elim env context config route live
          (λ c. (i : ℕ) (u : UsageAttempt) → get_elem? c.attempts i ≡ some u → u.attempt_no ≡ i)
          λ lines reason live'.
            attempt_lines-IsNumbered route.max_retries lines (start env context config route reason)
              live' none_numbered
