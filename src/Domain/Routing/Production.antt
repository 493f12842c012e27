-- ===== src/Domain/Routing/Production.antt =====
-- Route resolution in a production build, whose adapter registry is empty.
use my_ai_gateway.Prelude.{
  ◌≡◌, refl, false, true, none, some, String, List, [], ◌∷◌, ◌∙◌, sym, ap, subst, arith, Bool,
  if◌then◌else◌,
}
use my_ai_gateway.Domain.Protocol.{Protocol}
use my_ai_gateway.Domain.Config.{
  GatewayConfig, RouteConfig, Capabilities, CapabilityMode, adapter_registry, adapter_definition,
}
use my_ai_gateway.Domain.Config.CapabilityMode.{native, translated, unsupported}
use my_ai_gateway.Domain.Capability.{capabilities}
use my_ai_gateway.Domain.Intersection.{Intersected, intersect_capabilities}
use my_ai_gateway.Domain.Intersection.Laws.{
  Feature, features, is_degraded, is_lost, names_where, outcome, intersect_capabilities_lem,
}
use my_ai_gateway.Domain.Routing.{ResolvedRoute, ok}
use my_ai_gateway.Domain.Routing.Candidate.{Handling, resolve_candidate}
use my_ai_gateway.Domain.Routing.Candidate.Sound.{
  HandledBy, natively, adapted, IsSound, resolve_candidate-IsSound,
}

no_adapter : (name : String) → adapter_definition false name ≡ none
unfolding adapter_definition adapter_registry
no_adapter name = refl

native_keeps : (m : CapabilityMode) → (is_lost native m ≡ false) × (is_degraded native m ≡ false)
native_keeps native = (refl, refl)
native_keeps translated = (refl, refl)
native_keeps unsupported = (refl, refl)

names_where-none :
    (model : Capabilities) (fs : List Feature)
    → (names_where is_lost none model fs ≡ []) × (names_where is_degraded none model fs ≡ [])
names_where-none model [] = (refl, refl)
names_where-none model ((name, field) ∷ rest) =
    ground (arith, native_keeps (field model), names_where-none model rest)

lost_nil : (lossy : Bool) {names : List String} → names ≡ [] → (if lossy then [] else names) ≡ []
lost_nil true h = refl
lost_nil false h = h

outcome_nil :
    (names : List String) (result : Capabilities × List String) {c : Capabilities}
    {degraded : List String}
    → names ≡ []
    → result.1 ≡ []
    → outcome names (Intersected.ok result) ≡ Intersected.ok (c, degraded)
    → degraded ≡ []
outcome_nil [] result n r h = ground arith
outcome_nil (x ∷ xs) result n r h = cc

-- Without an adapter nothing is lost and nothing is degraded.
pub intersect_capabilities-none :
    (model : Capabilities) (lossy : Bool) {c : Capabilities} {degraded : List String}
    → intersect_capabilities model none lossy ≡ Intersected.ok (c, degraded)
    → degraded ≡ []
intersect_capabilities-none model lossy {c} {degraded} h =
    let (lost, weaker) = names_where-none model features in
    let result = intersect_capabilities_lem model none lossy in
    outcome_nil _ _ (lost_nil lossy lost) weaker (sym result ∙ h)

outcome_ok :
    (names : List String) (result : Intersected (Capabilities × List String))
    → names ≡ []
    → Path (Intersected (Capabilities × List String)) (outcome names result) result
outcome_ok [] result n = refl
outcome_ok (x ∷ xs) result n = absurd (cc)

-- Without an adapter the intersection succeeds.
pub intersect_capabilities-ok :
    (model : Capabilities) (lossy : Bool)
    → (r : Capabilities × List String) × (intersect_capabilities model none lossy
        ≡ Intersected.ok r)
intersect_capabilities-ok model lossy = (
  _,
  intersect_capabilities_lem model none lossy
      ∙ outcome_ok _ _ (lost_nil lossy (names_where-none model features).0),
)

module _ (config : GatewayConfig) (route : RouteConfig) (protocol : Protocol) (model : String) where
  handled_natively :
      (r : ResolvedRoute) (s : IsSound false config route protocol model r)
      → HandledBy false config route protocol model s.p s.a s.handling
      → s.handling ≡ record {
        upstream = protocol;
        mode = "native";
        adapter_name = none;
        adapter_features = none;
      }
  handled_natively r s (natively declared same) = same
  handled_natively r s (adapted name d named defined from source same) =
      absurd (cc (no_adapter name))

  -- A production build resolves a candidate only natively: the upstream protocol is the client's, no
  -- adapter is named and no feature is degraded.
  pub resolve_candidate-native :
      (r : ResolvedRoute)
      → resolve_candidate false config route protocol model ≡ ok r
      → (r.mode ≡ "native")
        × (r.protocol_upstream ≡ protocol)
        × (r.adapter ≡ none)
        × (r.degraded_features ≡ [])
  resolve_candidate-native r e =
      let s = resolve_candidate-IsSound false config route protocol model r e in
      let same = handled_natively r s s.handled in
      (
        s.upstream.1 ∙ ap (λ (h : Handling). h.mode) same,
        s.upstream.0 ∙ ap (λ (h : Handling). h.upstream) same,
        s.upstream.2 ∙ ap (λ (h : Handling). h.adapter_name) same,
        intersect_capabilities-none _ route.allow_lossy_conversion (
            subst
              (λ f.
                intersect_capabilities (capabilities config s.p.id (some s.a.id) model) f
                  route.allow_lossy_conversion
                ≡ Intersected.ok (r.effective_capabilities, r.degraded_features))
              (ap (λ (h : Handling). h.adapter_features) same) s.features),
      )
