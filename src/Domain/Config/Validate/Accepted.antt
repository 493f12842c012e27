-- ===== src/Domain/Config/Validate/Accepted.antt =====
-- What a configuration that `validate` of src/domain/config.rs accepts guarantees.
use my_ai_gateway.Prelude.{
  ℕ, ◌+◌, Bool, true, ◌≡◌, refl, Option, none, some, String, List, [], ◌∷◌, ◌++◌, map, All,
}
use mathlib.Core.Option
use my_ai_gateway.Domain.Protocol.{Protocol}
use my_ai_gateway.Domain.Config.{
  GatewayConfig, ProviderConfig, AccountConfig, ModelCapabilityOverride, ProtocolCapability,
  provider,
}
use my_ai_gateway.Domain.Config.Matrix.{Validity, ok, panics, err, has_endpoint}
use my_ai_gateway.Domain.Config.Matrix.Backed.{
  Backed, validate_matrix-ok, validate_override_matrix-ok,
}
use my_ai_gateway.Domain.Config.Validate.{
  collect, override_checks, provider_checks, endpoints_of, native_of, matrix_of, account_checks,
  accounts_checks, routes_errors, checks, validate, numbered,
}

abbrev pub Passes : List Validity → Type 0
Passes = All (λ v. Path Validity v ok)

consed :
    (message : String) (o : Option (List String))
    → Option.map (λ later. message ∷ later) o ≡ some []
    → (A : Type 0) → A
consed message none h A = absurd (cc)
consed message (some later) h A = absurd (cc)

pub collect-Passes : (vs : List Validity) → collect vs ≡ some [] → Passes vs
unfolding collect
collect-Passes [] h = tt
collect-Passes (ok ∷ vs) h = (refl, collect-Passes vs h)
collect-Passes (panics ∷ vs) h = absurd (cc)
collect-Passes (err message ∷ vs) h = consed message (collect vs) h (Passes (err message ∷ vs))

pub Passes-parts : (vs ws : List Validity) → Passes (vs ++ ws) → Passes vs × Passes ws
Passes-parts [] ws h = (tt, h)
Passes-parts (v ∷ vs) ws h = let rest = Passes-parts vs ws h.1 in ((h.0, rest.0), rest.1)

-- The overrides of models declare backed matrices.
abbrev pub OverridesBacked :
    List (Protocol × String) → List (String × ModelCapabilityOverride) → Type 0
OverridesBacked endpoints overrides =
    All (λ (o : String × ModelCapabilityOverride). Backed endpoints o.1.protocol_capabilities)
      overrides

abbrev pub ProviderBacked : ProviderConfig → Type 0
ProviderBacked p =
    All (λ protocol. has_endpoint p.endpoints protocol ≡ true) p.native_protocols
    × Backed p.endpoints p.protocol_capabilities
    × OverridesBacked p.endpoints p.model_overrides

abbrev pub AccountBacked : Option ProviderConfig → AccountConfig → Type 0
AccountBacked p a =
    Backed (endpoints_of p) a.protocol_capabilities
    × OverridesBacked (endpoints_of p) a.model_overrides

module _ (test : Bool) where
  override_checks-Backed :
      (base : List (Protocol × ProtocolCapability)) (endpoints : List (Protocol × String))
      (native : List Protocol) (scope : String)
      (overrides : List (String × ModelCapabilityOverride))
      → Passes (override_checks test base endpoints native scope overrides)
      → OverridesBacked endpoints overrides
  unfolding override_checks
  override_checks-Backed base endpoints native scope [] h = tt
  override_checks-Backed base endpoints native scope ((model, o) ∷ rest) h = (
    validate_override_matrix-ok test endpoints native _ o.protocol_capabilities base h.0,
    override_checks-Backed base endpoints native scope rest h.1,
  )

  provider_checks-Backed :
      (index : ℕ) (ps : List ProviderConfig)
      → Passes (provider_checks test index ps)
      → All ProviderBacked ps
  unfolding provider_checks
  provider_checks-Backed index [] h = tt
  provider_checks-Backed index (p ∷ rest) h =
      let parts =
        Passes-parts
          (override_checks test p.protocol_capabilities p.endpoints p.native_protocols
            (numbered "providers" index p.id) p.model_overrides)
          (provider_checks test (index + 1) rest) h.1 in
      let own =
        validate_matrix-ok test p.endpoints p.native_protocols _ p.protocol_capabilities h.0 in
      (
        (
          own.0,
          own.1,
          override_checks-Backed p.protocol_capabilities p.endpoints p.native_protocols
              (numbered "providers" index p.id) p.model_overrides parts.0,
        ),
        provider_checks-Backed (index + 1) rest parts.1,
      )

  accounts_checks-Backed :
      (config : GatewayConfig) (index : ℕ) (accounts : List AccountConfig)
      → Passes (accounts_checks test config index accounts)
      → All (λ a. AccountBacked (provider config a.provider_id) a) accounts
  unfolding accounts_checks account_checks
  accounts_checks-Backed config index [] h = tt
  accounts_checks-Backed config index (a ∷ rest) h =
      let p : Option ProviderConfig = provider config a.provider_id in
      let parts =
        Passes-parts (account_checks test p index a) (accounts_checks test config (index + 1) rest)
          h in
      (
        (
          validate_override_matrix-ok test (endpoints_of p) (native_of p) _ a.protocol_capabilities
              (matrix_of p) parts.0.0,
          override_checks-Backed (a.protocol_capabilities ++ matrix_of p) (endpoints_of p)
              (native_of p) (numbered "accounts" index a.id) a.model_overrides parts.0.1,
        ),
        accounts_checks-Backed config (index + 1) rest parts.1,
      )

  pub record IsBacked (config : GatewayConfig) : Type 0 where
    pub providers : All ProviderBacked config.providers
    pub accounts : All (λ a. AccountBacked (provider config a.provider_id) a) config.accounts
    pub routes : Passes (map err (routes_errors test config 0 config.routes))

  pub validate-IsBacked :
      (config : GatewayConfig) → validate test config ≡ some [] → IsBacked config
  unfolding validate checks
  validate-IsBacked config h =
      let all = collect-Passes (checks test config) h in
      let first = Passes-parts (provider_checks test 0 config.providers) _ all in
      let second =
        Passes-parts (accounts_checks test config 0 config.accounts)
          (map err (routes_errors test config 0 config.routes)) first.1 in
      record {
        providers = provider_checks-Backed 0 config.providers first.0;
        accounts = accounts_checks-Backed config 0 config.accounts second.0;
        routes = second.1;
      }
