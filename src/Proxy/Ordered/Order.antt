-- ===== src/Proxy/Ordered/Order.antt =====
-- The lines that src/proxy/ordered.rs tries.
use my_ai_gateway.Prelude.{ℕ, ◌≡◌, refl, subst, Option, String, ◌∙◌, List, [], ◌∷◌, ◌++◌, map, ap}
use my_ai_gateway.Domain.Config.{GatewayConfig}
use my_ai_gateway.Domain.Routing.{ResolvedRoute}
use my_ai_gateway.Proxy.Environment.{Environment, Live}
use my_ai_gateway.Proxy.Fallback.{FallbackCandidate}
use my_ai_gateway.Proxy.Attempt.{UsageAttempt, AttemptContext, execute}
use my_ai_gateway.Proxy.Ordered.{
  Progress, after_attempt, after_deadline, attempt_lines, start, complete, gather_lines, run_lines,
  proxy_ordered,
}
use my_ai_gateway.Proxy.Ordered.Loop.{run, attempt_lines-ends}

-- The first list is the second with elements left out.
pub data Sublist {ℓ} {A : Type ℓ} : List A → List A → Type ℓ where
  none_left : Sublist [] []
  left_out : {x : A} {xs ys : List A} → Sublist xs ys → Sublist xs (x ∷ ys)
  kept : {x : A} {xs ys : List A} → Sublist xs ys → Sublist (x ∷ xs) (x ∷ ys)

Sublist-append {ℓ} :
    {A : Type ℓ} (zs : List A) {xs ys : List A} → Sublist xs ys → Sublist xs (ys ++ zs)
Sublist-append [] none_left = none_left
Sublist-append (z ∷ zs) none_left = left_out (Sublist-append zs none_left)
Sublist-append zs (left_out h) = left_out (Sublist-append zs h)
Sublist-append zs (kept h) = kept (Sublist-append zs h)

Sublist-snoc {ℓ} :
    {A : Type ℓ} (z : A) {xs ys : List A} → Sublist xs ys → Sublist (xs ++ z ∷ []) (ys ++ z ∷ [])
Sublist-snoc z none_left = kept none_left
Sublist-snoc z (left_out h) = left_out (Sublist-snoc z h)
Sublist-snoc z (kept h) = kept (Sublist-snoc z h)

map-append {ℓ κ} :
    {A : Type ℓ} {B : Type κ} (f : A → B) (xs ys : List A) → map f (xs ++ ys) ≡ map f xs ++ map f ys
map-append f [] ys = refl
map-append f (x ∷ xs) ys = ap (λ r. f x ∷ r) (map-append f xs ys)

append-snoc {ℓ} :
    {A : Type ℓ} (xs : List A) (x : A) (ys : List A) → (xs ++ x ∷ []) ++ ys ≡ xs ++ x ∷ ys
append-snoc [] x ys = refl
append-snoc (y ∷ xs) x ys = ap (λ r. y ∷ r) (append-snoc xs x ys)

abbrev pub attempted : List UsageAttempt → List String
attempted attempts = map (λ u. UsageAttempt.account_id u) attempts

abbrev account_of : FallbackCandidate → String
account_of c = c.account.id

abbrev pub accounts : List FallbackCandidate → List String
accounts lines = map account_of lines

module _ {W : Type 0} (env : Environment W) (context : AttemptContext)
    (lines : List FallbackCandidate) where
  -- The attempts so far are of the lines before `cs`.
  abbrev InOrder : List FallbackCandidate → Progress → Type 0
  InOrder cs s =
      (before : List FallbackCandidate) × (before ++ cs ≡ lines)
      × Sublist (attempted s.attempts) (accounts before)

  skip :
      (c : FallbackCandidate) (cs : List FallbackCandidate) (s : Progress)
      → InOrder (c ∷ cs) s
      → InOrder cs s
  skip c cs s (before, split, sublist) = (
    before ++ c ∷ [],
    append-snoc before c cs ∙ split,
    rw (map-append account_of before (c ∷ [])) (Sublist-append _ sublist),
  )

  make :
      (c : FallbackCandidate) (cs : List FallbackCandidate) (s : Progress) (live : Live W)
      → InOrder (c ∷ cs) s
      → InOrder cs (after_attempt env context s c (run env context s c live))
  unfolding after_attempt execute
  make c cs s live (before, split, sublist) = (
    before ++ c ∷ [],
    append-snoc before c cs ∙ split,
    rw
        (
          map-append account_of before (c ∷ []),
          map-append (λ u. UsageAttempt.account_id u) s.attempts
              ((run env context s c live).usage ∷ []),
        )
        (Sublist-snoc _ sublist),
  )

  in_all :
      (cs : List FallbackCandidate) (s : Progress)
      → InOrder cs s
      → Sublist (attempted s.attempts) (accounts lines)
  in_all cs s (before, split, sublist) =
      subst (λ l. Sublist (attempted s.attempts) (accounts l)) split
        (rw (map-append account_of before cs) (Sublist-append _ sublist))

  attempt_lines-InOrder :
      (m : Option ℕ) (s : Progress) (live : Live W)
      → InOrder lines s
      → Sublist (attempted (attempt_lines env context m lines s live).0.attempts) (accounts lines)
  unfolding after_deadline
  attempt_lines-InOrder m s live =
      attempt_lines-ends env context m InOrder
        (λ s. Sublist (attempted s.attempts) (accounts lines)) (λ cs s h. in_all cs s h)
        (λ c cs s h. skip c cs s h) (λ cs s h. in_all cs s h)
        (λ c cs s l may again h. make c cs s l h)
        (λ c cs s l may h.
          in_all cs (after_attempt env context s c (run env context s c l)) (make c cs s l h))
        lines s live

module _ {W : Type 0} (env : Environment W) (context : AttemptContext) (config : GatewayConfig)
    (route : ResolvedRoute) where
  run_lines-in_order :
      (g : (List FallbackCandidate × Option String) × Live W)
      → Sublist (attempted (run_lines env context config route g).0.attempts) (accounts g.0.0)
  unfolding run_lines complete
  run_lines-in_order ((lines, reason), live) =
      attempt_lines-InOrder env context lines route.max_retries
        (start env context config route reason) live ([], refl, none_left)

  -- The accounts that the ordered policy tries are accounts of the gathered lines, in their order, each
  -- line at most once.
  pub proxy_ordered-in_order :
      (live : Live W)
      → Sublist
          (attempted (proxy_ordered env context config route live).0.attempts)
          (accounts (gather_lines env context config route live).0.0)
  unfolding proxy_ordered
  proxy_ordered-in_order live = run_lines-in_order (gather_lines env context config route live)
