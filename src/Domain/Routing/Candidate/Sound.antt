-- ===== src/Domain/Routing/Candidate/Sound.antt =====
-- Results of `resolve_candidate` of src/domain/routing.rs, step by step.
use my_ai_gateway.Prelude.{
  ◌≡◌, ◌≢◌, refl, inl, inr, Bool, true, false, not, Option, none, some, String, ◌==◌, List, [], ◌∷◌,
  All, arith, eq_iff, Bool-cases, sym, subst,
}
use my_ai_gateway.Prelude.Text.{trim}
use my_ai_gateway.Domain.Protocol.{Protocol, same_protocol-eq, get_protocol}
use my_ai_gateway.Domain.Config.{
  is_mode, GatewayConfig, ProviderConfig, AccountConfig, RouteConfig, ProtocolMode,
  ProtocolCapability, Capabilities, AdapterDefinition, adapter_definition, provider, account,
}
use my_ai_gateway.Domain.Capability.{protocol_capability, capabilities}
use my_ai_gateway.Domain.Intersection.{Intersected, intersect_capabilities}
use my_ai_gateway.Domain.Routing.{ResolvedRoute, Resolved, ok, err, ◌>>=◌, ◌>>◌, join_endpoint}
use my_ai_gateway.Domain.Routing.Candidate.{
  ok_or, ensure, Handling, check_fallbacks, handle_native, handle_adapter, handle_mode,
  finish_candidate, resolve_candidate, lossy_error,
}

-- Inversion of a successful chain, step by step, into whatever is to be proved.
module _ {ℓ κ} {B : Type ℓ} {P : Type κ} {b : B} where
  pub from_bind {μ} :
      {A : Type μ} (m : Resolved A) (f : A → Resolved B)
      → (m >>= f) ≡ ok b
      → ((a : A) → m ≡ ok a → f a ≡ ok b → P)
      → P
  from_bind (ok a) f h k = k a refl h
  from_bind (err e) f h k = absurd (cc)

  pub from_some {μ} :
      {A : Type μ} (o : Option A) (code : String) (message : List String) (id : String)
      (f : A → Resolved B)
      → (ok_or o code message id >>= f) ≡ ok b
      → ((a : A) → o ≡ some a → f a ≡ ok b → P)
      → P
  unfolding ok_or
  from_some none code message id f h k = absurd (cc)
  from_some (some a) code message id f h k = k a refl h

  pub from_ensure :
      (t : Bool) (code : String) (message : List String) (id : String) (m : Resolved B)
      → (ensure t code message id >> m) ≡ ok b
      → (t ≡ true → m ≡ ok b → P)
      → P
  unfolding ensure
  from_ensure true code message id m h k = k refl h
  from_ensure false code message id m h k = absurd (cc)

ok-injective {ℓ} : {A : Type ℓ} {x y : A} → ok x ≡ ok y → x ≡ y
ok-injective h = cc

-- The account exists and belongs to the provider.
abbrev pub BelongsTo : GatewayConfig → ProviderConfig → String → Type 0
BelongsTo config p id = (a : AccountConfig) × (account config id ≡ some a) × (a.provider_id ≡ p.id)

check_fallbacks_sound :
    (test : Bool) (config : GatewayConfig) (route : RouteConfig) (p : ProviderConfig)
    (ids : List String) {u : Unit {0}}
    → check_fallbacks test config route p ids ≡ ok u
    → All (BelongsTo config p) ids
unfolding check_fallbacks
check_fallbacks_sound test config route p [] h = tt
check_fallbacks_sound test config route p (id ∷ ids) h = from_some _ _ _ _ _ h λ a found rest.
    from_ensure _ _ _ _ _ rest λ same rest'.
      ((a, found, (eq_iff _ _).0 same), check_fallbacks_sound test config route p ids rest')

module _ (test : Bool) (config : GatewayConfig) (route : RouteConfig) (protocol : Protocol)
    (model : String) where
  -- How the mode of the route is handled: natively, or by an adapter of the build from this protocol to
  -- one that the account serves natively.
  pub data HandledBy (p : ProviderConfig) (a : AccountConfig) (h : Handling) : Type 0 where
    natively :
        is_mode
            (protocol_capability config p.id (some a.id) model protocol).mode
            ProtocolMode.native
          ≡ true
        → h ≡ record {
          upstream = protocol;
          mode = "native";
          adapter_name = none;
          adapter_features = none;
        }
        → HandledBy p a h
    adapted :
        (name : String) (d : AdapterDefinition)
        → route.adapter ≡ some name
        → adapter_definition test name ≡ some d
        → d.from_protocol ≡ protocol
        → is_mode
            (protocol_capability config p.id (some a.id) model d.to_protocol).mode
            ProtocolMode.native
          ≡ true
        → h ≡ record {
          upstream = d.to_protocol;
          mode = "adapter";
          adapter_name = some name;
          adapter_features = some d.features;
        }
        → HandledBy p a h

  pub record IsSound (r : ResolvedRoute) : Type 0 where
    pub p : ProviderConfig
    pub a : AccountConfig
    pub handling : Handling
    pub endpoint : String
    pub provider_found : provider config route.provider_id ≡ some p
    pub account_found : account config route.primary_account_id ≡ some a
    pub owned : a.provider_id ≡ p.id
    pub fallbacks : All (BelongsTo config p) route.fallback_accounts
    pub handled : HandledBy p a handling
    pub endpoint_found : get_protocol r.protocol_upstream p.endpoints ≡ some endpoint
    pub endpoint_filled : trim endpoint ≢ ""
    pub url : r.upstream_endpoint ≡ join_endpoint p.base_url endpoint
    pub primary : r.primary_account_id ≡ a.id
    pub listed : r.fallback_accounts ≡ route.fallback_accounts
    pub upstream :
        (r.protocol_upstream ≡ handling.upstream)
        × (r.mode ≡ handling.mode)
        × (r.adapter ≡ handling.adapter_name)
    pub features :
        intersect_capabilities
          (capabilities config p.id (some a.id) model)
          handling.adapter_features
          route.allow_lossy_conversion
        ≡ Intersected.ok (r.effective_capabilities, r.degraded_features)

  handle_native_sound :
      (p : ProviderConfig) (a : AccountConfig) {h : Handling}
      → handle_native test config route protocol model
          (protocol_capability config p.id (some a.id) model protocol)
        ≡ ok h
      → HandledBy p a h
  unfolding handle_native
  handle_native_sound p a e =
      from_ensure _ _ _ _ _ e λ declared rest. natively declared (sym (ok-injective rest))

  handle_adapter_sound :
      (p : ProviderConfig) (a : AccountConfig) (declared : ProtocolCapability) {h : Handling}
      → handle_adapter test config route protocol model p a declared ≡ ok h
      → HandledBy p a h
  unfolding handle_adapter
  handle_adapter_sound p a declared e = from_some _ _ _ _ _ e λ name named e1.
      from_some _ _ _ _ _ e1 λ d defined e2. from_ensure _ _ _ _ _ e2 λ from e3.
        from_ensure _ _ _ _ _ e3 λ matching e4. from_ensure _ _ _ _ _ e4 λ source e5.
          adapted name d named defined (same_protocol-eq _ _ from) source (sym (ok-injective e5))

  handle_mode_sound :
      (p : ProviderConfig) (a : AccountConfig) {h : Handling}
      → handle_mode test config route protocol model p a
          (protocol_capability config p.id (some a.id) model protocol)
        ≡ ok h
      → HandledBy p a h
  unfolding handle_mode
  handle_mode_sound p a e = elim (Bool-cases (route.mode == "native")) [
    | inl t ↦ handle_native_sound p a (rw t at e)
    | inr f ↦ elim (Bool-cases (route.mode == "adapter")) [
      | inl t ↦ handle_adapter_sound p a _ (rw t at (rw f at e))
      | inr g ↦ elim (Bool-cases (route.mode == "unsupported")) [
        | inl t ↦ cc (rw t at (rw g at (rw f at e)))
        | inr k ↦ cc (rw k at (rw g at (rw f at e)))
      ]
    ]
  ]

  lossy_error-eq-ok :
      (m : Intersected (Capabilities × List String)) {r : Capabilities × List String}
      → lossy_error test config route protocol model m ≡ ok r
      → m ≡ Intersected.ok r
  lossy_error-eq-ok (Intersected.ok x) h = cc
  lossy_error-eq-ok (Intersected.err x) h = cc

  not_blank : (s : String) → not (s == "") ≡ true → s ≢ ""
  not_blank s h = ground (arith, eq_iff s "")

  -- A candidate resolves only to the configured primary account, which belongs to the configured
  -- provider, with fallbacks of the same provider, handled natively or by an adapter of the build,
  -- at an endpoint of the provider that is not blank, with the intersected capabilities.
  pub resolve_candidate-IsSound :
      (r : ResolvedRoute) → resolve_candidate test config route protocol model ≡ ok r → IsSound r
  unfolding resolve_candidate finish_candidate
  resolve_candidate-IsSound r e = from_some _ _ _ _ _ e λ p has_provider e1.
      from_some _ _ _ _ _ e1 λ a has_account e2. from_ensure _ _ _ _ _ e2 λ owned e3.
        from_bind _ _ e3 λ u fallbacks e4. from_bind _ _ e4 λ handling handled e5.
          from_some _ _ _ _ _ e5 λ endpoint has_endpoint e6. from_ensure _ _ _ _ _ e6 λ filled e7.
            from_bind _ _ e7 λ features intersected e8. subst IsSound (ok-injective e8) (record {
              p = p;
              a = a;
              handling = handling;
              endpoint = endpoint;
              provider_found = has_provider;
              account_found = has_account;
              owned = (eq_iff _ _).0 owned;
              fallbacks =
                  check_fallbacks_sound test config route p route.fallback_accounts fallbacks;
              handled = handle_mode_sound p a handled;
              endpoint_found = has_endpoint;
              endpoint_filled = not_blank _ filled;
              url = refl;
              primary = refl;
              listed = refl;
              upstream = (refl, refl, refl);
              features = lossy_error-eq-ok _ intersected;
            })
