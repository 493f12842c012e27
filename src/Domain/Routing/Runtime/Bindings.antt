-- ===== src/Domain/Routing/Runtime/Bindings.antt =====
-- The lines of a route that `resolve_runtime_route` of src/domain/routing.rs returns.
use my_ai_gateway.Prelude.{
  ℕ, ◌≡◌, ◌⊎◌, refl, sym, ap, subst, inl, inr, none, some, String, List, [], ◌∷◌, map, find,
  Option-cases,
}
use my_ai_gateway.Domain.Protocol.{Protocol}
use my_ai_gateway.Domain.Routing.{
  RuntimeBinding, RuntimeRoute, ResolvedBinding, ResolvedRoute, RouteResolutionError, Resolved, ok,
  err,
}
use my_ai_gateway.Domain.Routing.Runtime.{
  resolved_binding, accepts, resolve_bindings, resolve_found, resolve_runtime_route,
}

-- The line of a resolved route that is tried first, read back from its fields.
abbrev pub primary_line : ResolvedRoute → ℕ → ResolvedBinding
primary_line r id = record {
  binding_id = id;
  source_id = r.source_id;
  provider_id = r.provider_id;
  account_id = r.primary_account_id;
  upstream_model_id = r.upstream_model_id;
  protocol_upstream = r.protocol_upstream;
  upstream_endpoint = r.upstream_endpoint;
  mode = r.mode;
  adapter = r.adapter;
  effective_capabilities = r.effective_capabilities;
  degraded_features = r.degraded_features;
}

ok-injective {ℓ} : {A : Type ℓ} {x y : A} → ok x ≡ ok y → x ≡ y
ok-injective h = cc

err-injective : {x y : RouteResolutionError} → Path (Resolved ResolvedRoute) (err x) (err y) → x ≡ y
err-injective h = cc

module _ (routes : List RuntimeRoute) (protocol : Protocol) (model : String) where
  -- What a resolved route keeps of the published one.
  pub record Keeps (r : ResolvedRoute) : Type 0 where
    pub route : RuntimeRoute
    pub id : ℕ
    pub found : find (accepts protocol model) routes ≡ some route
    pub numbered : r.binding_id ≡ some id
    pub lines : (primary_line r id ∷ r.fallback_bindings) ≡ map resolved_binding route.bindings
    pub accounts : r.fallback_accounts ≡ map (λ b. ResolvedBinding.account_id b) r.fallback_bindings
    pub policy :
        (r.strategy ≡ route.strategy)
        × (r.max_retries ≡ route.max_retries)
        × (r.request_timeout_ms ≡ route.request_timeout_ms)

  resolve_bindings-Keeps :
      (route : RuntimeRoute) (bindings : List RuntimeBinding) (r : ResolvedRoute)
      → find (accepts protocol model) routes ≡ some route
      → route.bindings ≡ bindings
      → resolve_bindings route protocol model bindings ≡ ok r
      → Keeps r
  unfolding resolve_bindings
  resolve_bindings-Keeps route [] r found same h = absurd (cc)
  resolve_bindings-Keeps route (b ∷ bs) r found same h = subst Keeps (ok-injective h) (record {
    route = route;
    id = b.binding_id;
    found = found;
    numbered = refl;
    lines = sym (ap (map resolved_binding) same);
    accounts = refl;
    policy = (refl, refl, refl);
  })

  resolve_bindings-err :
      (route : RuntimeRoute) (bindings : List RuntimeBinding) (e : RouteResolutionError)
      → resolve_bindings route protocol model bindings ≡ err e
      → (bindings ≡ []) × (e.code ≡ "route_unavailable")
  unfolding resolve_bindings
  resolve_bindings-err route [] e h =
      (refl, ap (λ x. RouteResolutionError.code x) (sym (err-injective h)))
  resolve_bindings-err route (b ∷ bs) e h = absurd (cc)

  -- A published route that resolves is the first that accepts the protocol and names the model; the
  -- lines of the result, primary and fallbacks, are its bindings in order, with its retry policy.
  pub resolve_runtime_route-Keeps :
      (r : ResolvedRoute) → resolve_runtime_route routes protocol model ≡ ok r → Keeps r
  unfolding resolve_runtime_route
  resolve_runtime_route-Keeps r h = elim (Option-cases (find (accepts protocol model) routes)) [
    | inl missing ↦ absurd (cc (rw (missing, resolve_found) at h))
    | inr (route, found) ↦
        resolve_bindings-Keeps route route.bindings r found refl (rw (found, resolve_found) at h)
  ]

  -- A published route fails to resolve in two ways only: none accepts the protocol and names the model,
  -- or the first that does has no binding.
  pub resolve_runtime_route-err :
      (e : RouteResolutionError)
      → resolve_runtime_route routes protocol model ≡ err e
      → ((find (accepts protocol model) routes ≡ none) × (e.code ≡ "route_not_found"))
        ⊎ ((route : RuntimeRoute) × (find (accepts protocol model) routes ≡ some route)
            × (route.bindings ≡ [])
            × (e.code ≡ "route_unavailable"))
  unfolding resolve_runtime_route
  resolve_runtime_route-err e h = elim (Option-cases (find (accepts protocol model) routes)) [
    | inl missing ↦ inl (
      missing,
      ap (λ x. RouteResolutionError.code x)
          (sym (err-injective (rw (missing, resolve_found) at h))),
    )
    | inr (route, found) ↦
        let (empty, code) =
          resolve_bindings-err route route.bindings e (rw (found, resolve_found) at h) in
        inr (route, found, empty, code)
  ]
