-- ===== src/Domain/Routing/Candidate/Progress.antt =====
-- Successful chains of results in src/domain/routing.rs.
use my_ai_gateway.Prelude.{
  Bool, true, false, ◌≡◌, refl, Option, none, some, String, eq_iff, List, [], ◌∷◌, All,
  Option-cases, inl, inr, arith, subst, sym,
}
use my_ai_gateway.Domain.Protocol.{Protocol, get_protocol}
use my_ai_gateway.Domain.Config.{GatewayConfig, ProviderConfig, AccountConfig, RouteConfig}
use my_ai_gateway.Domain.Config.Matrix.{has_endpoint}
use my_ai_gateway.Domain.Capability.{capabilities}
use my_ai_gateway.Domain.Intersection.{intersect_capabilities}
use my_ai_gateway.Domain.Routing.{Resolved, ◌>>=◌, ◌>>◌}
use my_ai_gateway.Domain.Routing.Candidate.{
  ok_or, ensure, Handling, check_fallbacks, finish_candidate, lossy_error,
}
use my_ai_gateway.Domain.Routing.Production.{intersect_capabilities-ok}
use my_ai_gateway.Domain.Routing.Candidate.Sound.{BelongsTo}

-- The result is a success.
abbrev pub Succeeds {ℓ} : {A : Type ℓ} → Resolved A → Type ℓ
Succeeds {A = A} m = (a : A) × Path (Resolved A) m (Resolved.ok a)

module _ {ℓ κ} {A : Type ℓ} {B : Type κ} where
  pub chain_bind :
      (m : Resolved A) (f : A → Resolved B) (a : A)
      → Path (Resolved A) m (Resolved.ok a)
      → Succeeds (f a)
      → Succeeds (m >>= f)
  chain_bind (Resolved.ok x) f a e s = let q : x ≡ a = cc in subst (λ y. Succeeds (f y)) (sym q) s
  chain_bind (Resolved.err x) f a e s = absurd (cc)

  pub chain_some :
      (o : Option A) (code : String) (message : List String) (id : String) (f : A → Resolved B)
      (a : A)
      → o ≡ some a
      → Succeeds (f a)
      → Succeeds (ok_or o code message id >>= f)
  unfolding ok_or
  chain_some none code message id f a e s = absurd (cc)
  chain_some (some x) code message id f a e s =
      let q : x ≡ a = cc in subst (λ y. Succeeds (f y)) (sym q) s

pub chain_then {κ} :
    {B : Type κ} (m : Resolved (Unit {0})) (n : Resolved B)
    → Succeeds m
    → Succeeds n
    → Succeeds (m >> n)
chain_then (Resolved.ok x) n s t = t
chain_then (Resolved.err e) n s t = absurd (cc)

pub chain_ensure {ℓ} :
    {B : Type ℓ} (b : Bool) (code : String) (message : List String) (id : String) (m : Resolved B)
    → b ≡ true
    → Succeeds m
    → Succeeds (ensure b code message id >> m)
unfolding ensure
chain_ensure true code message id m e s = s
chain_ensure false code message id m e s = absurd (cc)

module _ (test : Bool) (config : GatewayConfig) (route : RouteConfig) (p : ProviderConfig) where
  pub fallbacks-Succeeds :
      (ids : List String)
      → All (BelongsTo config p) ids
      → Succeeds (check_fallbacks test config route p ids)
  unfolding check_fallbacks
  fallbacks-Succeeds [] h = (tt, refl)
  fallbacks-Succeeds (id ∷ ids) h =
      chain_some _ _ _ _ _ h.0.0 h.0.1
        (chain_ensure _ _ _ _ _ ((eq_iff _ _).1 h.0.2) (fallbacks-Succeeds ids h.1))

  module _ (protocol : Protocol) (model : String) (a : AccountConfig) where
    pub finish-Succeeds :
        (h : Handling)
        → h.adapter_features ≡ none
        → has_endpoint p.endpoints h.upstream ≡ true
        → Succeeds (finish_candidate test config route protocol model p a h)
    unfolding finish_candidate has_endpoint
    finish-Succeeds h plain e = elim (Option-cases (get_protocol h.upstream p.endpoints)) [
      | inl nothing ↦ absurd (ground (arith, e, nothing))
      | inr (endpoint, found) ↦ chain_some _ _ _ _ _ endpoint found (
          chain_ensure _ _ _ _ _ (ground (arith, e, found)) (
            let whole =
              intersect_capabilities-ok (capabilities config p.id (some a.id) model)
                route.allow_lossy_conversion in
            chain_bind
              (lossy_error test config route protocol model (
                intersect_capabilities (capabilities config p.id (some a.id) model)
                  h.adapter_features route.allow_lossy_conversion))
              _ whole.0 (rw (plain, whole.1) refl) (_, refl)))
    ]
