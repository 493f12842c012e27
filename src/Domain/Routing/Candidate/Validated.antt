-- ===== src/Domain/Routing/Candidate/Validated.antt =====
-- Resolution by src/domain/routing.rs under a configuration that src/domain/config.rs accepts.
use my_ai_gateway.Prelude.{
  ℕ, ◌+◌, Bool, true, ◌≡◌, refl, none, some, String, ◌==◌, eq_iff, List, [], ◌∷◌, ◌++◌, map,
  get_elem?, zero, suc, All, find-passes, Bool-cases, Option-cases, inl, inr, subst, sym,
}
use my_ai_gateway.Prelude.Text.{concat}
use my_ai_gateway.Domain.Protocol.{
  Protocol, same_protocol, display, same_protocol-eq, contains_protocol,
}
use my_ai_gateway.Domain.Config.{
  GatewayConfig, ProviderConfig, AccountConfig, RouteConfig, ProtocolMode, is_mode, provider,
  account,
}
use my_ai_gateway.Domain.Config.Matrix.{has_endpoint, err}
use my_ai_gateway.Domain.Config.Validate.{
  validate, routes_errors, route_errors, found_errors, protocols_errors, mode_errors, numbered,
}
use my_ai_gateway.Domain.Config.Validate.Accepted.{validate-IsBacked, Passes}
use my_ai_gateway.Domain.Config.Validate.Native.{validate-native}
use my_ai_gateway.Domain.Capability.{protocol_capability}
use my_ai_gateway.Domain.Routing.{Resolved}
use my_ai_gateway.Domain.Routing.Candidate.{
  ensure, Handling, handle_mode, handle_native, resolve_candidate,
}
use my_ai_gateway.Domain.Routing.Candidate.Progress.{
  Succeeds, chain_bind, chain_then, chain_some, chain_ensure, fallbacks-Succeeds, finish-Succeeds,
}
use my_ai_gateway.Domain.Routing.Candidate.Sound.{BelongsTo}

no_errors : (messages : List String) → Passes (map err messages) → messages ≡ []
no_errors [] h = refl
no_errors (message ∷ rest) h = absurd (cc)

parts_empty {ℓ} : {A : Type ℓ} (xs ys : List A) → (xs ++ ys) ≡ [] → (xs ≡ []) × (ys ≡ [])
parts_empty [] ys h = (refl, h)
parts_empty (x ∷ xs) ys h = absurd (cc)

module _ (test : Bool) (config : GatewayConfig) where
  -- The errors of a route of an accepted configuration.
  route_of :
      (index : ℕ) (routes : List RouteConfig)
      → routes_errors test config index routes ≡ []
      → All (λ route. (i : ℕ) × (route_errors test config i route ≡ [])) routes
  unfolding routes_errors
  route_of index [] h = tt
  route_of index (route ∷ rest) h =
      let both =
        parts_empty (route_errors test config index route)
          (routes_errors test config (index + 1) rest) h in
      ((index, both.0), route_of (index + 1) rest both.1)

  module _ (route : RouteConfig) (scope : String) (p : ProviderConfig) where
    mode-native :
        (place : String) (protocol : Protocol)
        → (route.mode == "native") ≡ true
        → mode_errors test config route scope p place protocol ≡ []
        → is_mode
            (protocol_capability config p.id
              (some route.primary_account_id)
              route.model
              protocol).mode
            ProtocolMode.native
          ≡ true
    unfolding mode_errors
    mode-native place protocol native h =
        elim (Bool-cases (
          is_mode
            (protocol_capability config p.id (some route.primary_account_id) route.model
              protocol).mode
            ProtocolMode.native)) [
              | inl yes_native ↦ yes_native
              | inr other ↦ absurd (cc (rw (native, other) at h))
            ]

    protocols-native :
        (index : ℕ) (protocols : List Protocol) (protocol : Protocol)
        → (route.mode == "native") ≡ true
        → protocols_errors test config route scope p index protocols ≡ []
        → contains_protocol protocol protocols ≡ true
        → is_mode
            (protocol_capability config p.id
              (some route.primary_account_id)
              route.model
              protocol).mode
            ProtocolMode.native
          ≡ true
    unfolding protocols_errors
    protocols-native index [] protocol native h c = absurd (cc)
    protocols-native index (q ∷ rest) protocol native h c =
        let both =
          parts_empty
            (mode_errors test config route scope p
              (numbered (concat (scope ∷ ".protocols" ∷ [])) index (display q)) q)
            (protocols_errors test config route scope p (index + 1) rest) h in
        elim (Bool-cases (same_protocol q protocol)) [
          | inl hit ↦
              subst
                (λ x.
                  is_mode
                    (protocol_capability config p.id (some route.primary_account_id) route.model
                      x).mode
                    ProtocolMode.native
                  ≡ true)
                (same_protocol-eq q protocol hit) (mode-native _ q native both.0)
          | inr miss ↦ protocols-native (index + 1) rest protocol native both.1 (rw miss at c)
        ]

  -- What the validation of a route says of its provider and its protocols.
  route-native :
      (i : ℕ) (route : RouteConfig) (protocol : Protocol)
      → route_errors test config i route ≡ []
      → (route.mode == "native") ≡ true
      → contains_protocol protocol route.protocols ≡ true
      → (p : ProviderConfig) × (provider config route.provider_id ≡ some p)
        × (is_mode
              (protocol_capability config p.id
                (some route.primary_account_id)
                route.model
                protocol).mode
              ProtocolMode.native
            ≡ true)
  unfolding route_errors found_errors
  route-native i route protocol h native c =
      elim (Option-cases (provider config route.provider_id)) [
        | inl nothing ↦ absurd (cc (rw (nothing, route_errors) at h))
        | inr (p, found) ↦
            let h' : found_errors test config route (numbered "routes" i route.id) p ≡ [] =
              rw (found, route_errors) at h in
            let both = parts_empty _ _ h' in
            (
              p,
              found,
              protocols-native route (numbered "routes" i route.id) p 0 route.protocols protocol
                  native (parts_empty _ _ both.1).0 c,
            )
      ]

All-get {ℓ κ} :
    {A : Type ℓ} (P : A → Type κ) (xs : List A) (i : ℕ) (x : A)
    → All P xs
    → get_elem? xs i ≡ some x
    → P x
All-get P [] i x h e = absurd (cc)
All-get P (y ∷ ys) zero x h e = let q : y ≡ x = cc in subst P q h.0
All-get P (y ∷ ys) (suc i) x h e = All-get P ys i x h.1 e

handle-ok :
    (test : Bool) (config : GatewayConfig) (route : RouteConfig) (protocol : Protocol)
    (model : String) (p : ProviderConfig) (a : AccountConfig)
    → (route.mode == "native") ≡ true
    → is_mode (protocol_capability config p.id (some a.id) model protocol).mode ProtocolMode.native
      ≡ true
    → Path
        (Resolved Handling)
        (handle_mode test config route protocol model p a
          (protocol_capability config p.id (some a.id) model protocol))
        (Resolved.ok (record {
          upstream = protocol;
          mode = "native";
          adapter_name = none;
          adapter_features = none;
        }))
unfolding handle_mode handle_native ensure
handle-ok test config route protocol model p a native can = rw (native, can) refl

-- A native route of an accepted configuration resolves, for its model and each of its protocols, if its
-- primary account and its fallback accounts exist and belong to its provider.
pub resolve_candidate-validated :
    (test : Bool) (config : GatewayConfig) (i : ℕ) (route : RouteConfig) (protocol : Protocol)
    → validate test config ≡ some []
    → get_elem? config.routes i ≡ some route
    → (route.mode == "native") ≡ true
    → contains_protocol protocol route.protocols ≡ true
    → ((p : ProviderConfig)
        → provider config route.provider_id ≡ some p
        → All (BelongsTo config p) (route.primary_account_id ∷ route.fallback_accounts))
    → Succeeds (resolve_candidate test config route protocol route.model)
unfolding resolve_candidate provider account
resolve_candidate-validated test config i route protocol accepted listed native speaks owned =
    let backed = validate-IsBacked test config accepted in
    let errors : (n : ℕ) × (route_errors test config n route ≡ []) =
      All-get (λ r. (n : ℕ) × (route_errors test config n r ≡ [])) config.routes i route
        (route_of test config 0 config.routes (no_errors _ backed.routes)) listed in
    let (p, found, can) = route-native test config errors.0 route protocol errors.1 native speaks in
    let (primary, fallbacks) = owned p found in
    let (a, found_a, own) = primary in
    let named : p.id ≡ route.provider_id =
      (eq_iff p.id route.provider_id).0
        (find-passes (λ x. x.id == route.provider_id) config.providers p found) in
    let named_a : a.id ≡ route.primary_account_id =
      (eq_iff a.id route.primary_account_id).0
        (find-passes (λ x. x.id == route.primary_account_id) config.accounts a found_a) in
    let can_a : is_mode (protocol_capability config p.id (some a.id) route.model protocol).mode
          ProtocolMode.native
        ≡ true =
      subst
        (λ x.
          is_mode (protocol_capability config p.id (some x) route.model protocol).mode
            ProtocolMode.native
          ≡ true)
        (sym named_a) can in
    let serves : has_endpoint p.endpoints protocol ≡ true =
      validate-native test config p a p.id route.primary_account_id route.model protocol accepted
        (subst (λ x. provider config x ≡ some p) (sym named) found) found_a own can in
    chain_some _ _ _ _ _ p found (
      chain_some _ _ _ _ _ a found_a (
        chain_ensure _ _ _ _ _ ((eq_iff _ _).1 own) (
          chain_then _ _ (fallbacks-Succeeds test config route p route.fallback_accounts fallbacks)
            (chain_bind _ _ _ (handle-ok test config route protocol route.model p a native can_a)
              (finish-Succeeds test config route p protocol route.model a _ refl serves)))))
