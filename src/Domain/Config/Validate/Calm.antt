-- ===== src/Domain/Config/Validate/Calm.antt =====
-- `validate` of src/domain/config.rs does not panic.
use my_ai_gateway.Prelude.{
  ℕ, ◌+◌, Bool, true, ◌≡◌, refl, Option, some, String, List, [], ◌∷◌, ◌++◌, map, All, All-append,
}
use my_ai_gateway.Domain.Protocol.{Protocol}
use my_ai_gateway.Domain.Config.{
  GatewayConfig, ProviderConfig, AccountConfig, ModelCapabilityOverride, ProtocolCapabilityMatrix,
  provider,
}
use my_ai_gateway.Domain.Config.Matrix.{Validity, ok, panics, err}
use my_ai_gateway.Domain.Config.Matrix.Sources.{
  calm, validate_matrix-calm, validate_override_matrix-calm,
}
use my_ai_gateway.Domain.Config.Validate.{
  numbered, collect, override_checks, provider_checks, endpoints_of, native_of, matrix_of,
  account_checks, accounts_checks, routes_errors, checks, validate,
}

abbrev AllCalm : List Validity → Type 0
AllCalm = All (λ v. calm v ≡ true)

collect-calm :
    (vs : List Validity) → AllCalm vs → (errors : List String) × (collect vs ≡ some errors)
unfolding collect
collect-calm [] h = ([], refl)
collect-calm (ok ∷ vs) h = collect-calm vs h.1
collect-calm (panics ∷ vs) h = absurd (cc (h.0))
collect-calm (err message ∷ vs) h =
    let (errors, e) = collect-calm vs h.1 in (message ∷ errors, rw e refl)

errors_calm : (messages : List String) → AllCalm (map err messages)
errors_calm [] = tt
errors_calm (message ∷ rest) = (refl, errors_calm rest)

module _ (test : Bool) where
  override_checks-calm :
      (base : ProtocolCapabilityMatrix) (endpoints : List (Protocol × String))
      (native : List Protocol) (scope : String)
      (overrides : List (String × ModelCapabilityOverride))
      → AllCalm (override_checks test base endpoints native scope overrides)
  unfolding override_checks
  override_checks-calm base endpoints native scope [] = tt
  override_checks-calm base endpoints native scope ((model, o) ∷ rest) = (
    validate_override_matrix-calm test endpoints native _ o.protocol_capabilities base,
    override_checks-calm base endpoints native scope rest,
  )

  provider_checks-calm :
      (index : ℕ) (ps : List ProviderConfig) → AllCalm (provider_checks test index ps)
  unfolding provider_checks
  provider_checks-calm index [] = tt
  provider_checks-calm index (p ∷ rest) = (
    validate_matrix-calm test p.endpoints p.native_protocols _ p.protocol_capabilities,
    All-append (λ v. calm v ≡ true)
        (override_checks test p.protocol_capabilities p.endpoints p.native_protocols
          (numbered "providers" index p.id) p.model_overrides)
        (provider_checks test (index + 1) rest)
        (override_checks-calm p.protocol_capabilities p.endpoints p.native_protocols
          (numbered "providers" index p.id) p.model_overrides)
        (provider_checks-calm (index + 1) rest),
  )

  account_checks-calm :
      (p : Option ProviderConfig) (index : ℕ) (a : AccountConfig)
      → AllCalm (account_checks test p index a)
  unfolding account_checks
  account_checks-calm p index a = (
    validate_override_matrix-calm test (endpoints_of p) (native_of p) _ a.protocol_capabilities
        (matrix_of p),
    override_checks-calm (a.protocol_capabilities ++ matrix_of p) (endpoints_of p) (native_of p)
        (numbered "accounts" index a.id) a.model_overrides,
  )

  accounts_checks-calm :
      (config : GatewayConfig) (index : ℕ) (accounts : List AccountConfig)
      → AllCalm (accounts_checks test config index accounts)
  unfolding accounts_checks
  accounts_checks-calm config index [] = tt
  accounts_checks-calm config index (a ∷ rest) =
      All-append (λ v. calm v ≡ true) (account_checks test (provider config a.provider_id) index a)
        (accounts_checks test config (index + 1) rest)
        (account_checks-calm (provider config a.provider_id) index a)
        (accounts_checks-calm config (index + 1) rest)

  -- The validation of any configuration returns a list of errors. None of its `expect`s panics: each is on
  -- an entry of a matrix that has passed the checks.
  pub validate-calm :
      (config : GatewayConfig) → (errors : List String) × (validate test config ≡ some errors)
  unfolding validate checks
  validate-calm config = collect-calm (checks test config) (
      All-append (λ v. calm v ≡ true) (provider_checks test 0 config.providers) _
        (provider_checks-calm 0 config.providers)
        (All-append (λ v. calm v ≡ true) (accounts_checks test config 0 config.accounts)
          (map err (routes_errors test config 0 config.routes))
          (accounts_checks-calm config 0 config.accounts)
          (errors_calm (routes_errors test config 0 config.routes))))
