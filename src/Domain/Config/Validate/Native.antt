-- ===== src/Domain/Config/Validate/Native.antt =====
-- Native capabilities under a configuration that `validate` of src/domain/config.rs accepts.
use my_ai_gateway.Prelude.{
  Bool, true, ◌≡◌, refl, Option, none, some, String, ◌==◌, eq_iff, List, [], ◌∷◌, All, All-find,
  Bool-cases, Option-cases, inl, inr, arith, unwrap_or, subst, sym, ◌∙◌, find-passes,
}
use my_ai_gateway.Domain.Protocol.{Protocol, get_protocol, contains_protocol}
use my_ai_gateway.Domain.Config.{
  GatewayConfig, ProviderConfig, AccountConfig, ModelCapabilityOverride, ProtocolCapability,
  ProtocolMode, is_mode, provider, account, find_model_override, find_pattern, get_text,
  matches_pattern, unsupported_capability,
}
use my_ai_gateway.Domain.Config.Matrix.{has_endpoint}
use my_ai_gateway.Domain.Config.Matrix.Backed.{Backed, get_protocol-Backed, contains_protocol-All}
use my_ai_gateway.Domain.Config.Validate.{validate}
use my_ai_gateway.Domain.Config.Validate.Accepted.{
  OverridesBacked, ProviderBacked, AccountBacked, validate-IsBacked,
}
use my_ai_gateway.Domain.Capability.{model_protocol, protocol_capability}
use my_ai_gateway.Domain.Capability.Precedence.{first_some, legacy, protocol_capability-first}

-- What holds of each declaration of the layers and of the default holds of the first.
first_some-elim {ℓ κ} :
    {A : Type ℓ} (P : A → Type κ) (os : List (Option A)) (d : A)
    → All (λ o. (a : A) → o ≡ some a → P a) os
    → P d
    → P (unwrap_or d (first_some os))
first_some-elim P [] d h p = p
first_some-elim P (none ∷ os) d h p = first_some-elim P os d h.1 p
first_some-elim P (some a ∷ os) d h p = h.0 a refl

module _ (P : ModelCapabilityOverride → Type 0) where
  get_text-All :
      (model : String) (overrides : List (String × ModelCapabilityOverride))
      (o : ModelCapabilityOverride)
      → All (λ (e : String × ModelCapabilityOverride). P e.1) overrides
      → get_text model overrides ≡ some o
      → P o
  get_text-All model [] o h e = absurd (cc)
  get_text-All model ((k, v) ∷ rest) o h e = elim (Bool-cases (k == model)) [
    | inl hit ↦ let here : v ≡ o = ground arith in subst P here h.0
    | inr miss ↦ get_text-All model rest o h.1 (rw miss at e)
  ]

  find_pattern-All :
      (model : String) (overrides : List (String × ModelCapabilityOverride))
      (o : ModelCapabilityOverride)
      → All (λ (e : String × ModelCapabilityOverride). P e.1) overrides
      → find_pattern model overrides ≡ some o
      → P o
  unfolding find_pattern
  find_pattern-All model [] o h e = absurd (cc)
  find_pattern-All model ((k, v) ∷ rest) o h e = elim (Bool-cases (matches_pattern k model)) [
    | inl hit ↦ let here : v ≡ o = ground arith in subst P here h.0
    | inr miss ↦ find_pattern-All model rest o h.1 (rw miss at e)
  ]

  find_model_override-All :
      (model : String) (overrides : List (String × ModelCapabilityOverride))
      (o : ModelCapabilityOverride)
      → All (λ (e : String × ModelCapabilityOverride). P e.1) overrides
      → find_model_override overrides model ≡ some o
      → P o
  unfolding find_model_override
  find_model_override-All model overrides o h e = elim (Option-cases (get_text model overrides)) [
    | inl none_here ↦ find_pattern-All model overrides o h (rw none_here at e)
    | inr (x, found) ↦
        let here : x ≡ o = ground arith in get_text-All model overrides o h (rw here at found)
  ]

-- A native capability has an endpoint.
abbrev Serves : List (Protocol × String) → Protocol → ProtocolCapability → Type 0
Serves endpoints protocol c =
    is_mode c.mode ProtocolMode.native ≡ true → has_endpoint endpoints protocol ≡ true

module _ (endpoints : List (Protocol × String)) (protocol : Protocol) where
  overrides-Serves :
      (overrides : List (String × ModelCapabilityOverride)) (model : String)
      → OverridesBacked endpoints overrides
      → (c : ProtocolCapability) → model_protocol overrides model protocol ≡ some c
      → Serves endpoints protocol c
  overrides-Serves overrides model h c e =
      elim (Option-cases (find_model_override overrides model)) [
        | inl nothing ↦ absurd (ground (arith, e, nothing))
        | inr (o, found) ↦
            let declared : get_protocol protocol o.protocol_capabilities ≡ some c =
              ground (arith, e, found) in
            get_protocol-Backed endpoints protocol o.protocol_capabilities c
              (find_model_override-All (λ x. Backed endpoints x.protocol_capabilities) model
                overrides o h found)
              declared
      ]

legacy-Serves :
    (p : ProviderConfig) (protocol : Protocol)
    → All (λ q. has_endpoint p.endpoints q ≡ true) p.native_protocols
    → (c : ProtocolCapability) → legacy p protocol ≡ some c
    → Serves p.endpoints protocol c
legacy-Serves p protocol h c e native =
    elim (Bool-cases (contains_protocol protocol p.native_protocols)) [
      | inl hit ↦
          contains_protocol-All (λ q. has_endpoint p.endpoints q ≡ true) protocol p.native_protocols
            h hit
      | inr miss ↦ absurd (ground (arith, e, miss))
    ]

declared-native :
    (config : GatewayConfig) (p : ProviderConfig) (a : AccountConfig)
    (provider_id account_id model : String) (protocol : Protocol)
    → ProviderBacked p
    → AccountBacked (some p) a
    → provider config provider_id ≡ some p
    → account config account_id ≡ some a
    → Serves p.endpoints protocol
        (protocol_capability config provider_id (some account_id) model protocol)
declared-native config p a provider_id account_id model protocol of_p of_a found_p found_a =
    let first = protocol_capability-first config provider_id (some account_id) model protocol in
    subst (Serves p.endpoints protocol) (sym (rw (found_p, found_a) at first)) (
      first_some-elim (Serves p.endpoints protocol)
        (model_protocol a.model_overrides model protocol
          ∷ model_protocol p.model_overrides model protocol
          ∷ get_protocol protocol a.protocol_capabilities
          ∷ get_protocol protocol p.protocol_capabilities
          ∷ legacy p protocol
          ∷ [])
        unsupported_capability
        (
          overrides-Serves p.endpoints protocol a.model_overrides model of_a.1,
          (
            overrides-Serves p.endpoints protocol p.model_overrides model of_p.2,
            (
              (λ c e. get_protocol-Backed p.endpoints protocol a.protocol_capabilities c of_a.0 e),
              (
                (λ c e.
                    get_protocol-Backed p.endpoints protocol p.protocol_capabilities c of_p.1 e),
                (legacy-Serves p protocol of_p.0, tt),
              ),
            ),
          ),
        )
        (λ native. absurd (cc)))

-- Under an accepted configuration, where an account belongs to a provider, a protocol that is native for a
-- model on the account has an endpoint of the provider that is not blank, whichever of the declarations of
-- the account, the provider and their models decides.
pub validate-native :
    (test : Bool) (config : GatewayConfig) (p : ProviderConfig) (a : AccountConfig)
    (provider_id account_id model : String) (protocol : Protocol)
    → validate test config ≡ some []
    → provider config provider_id ≡ some p
    → account config account_id ≡ some a
    → a.provider_id ≡ p.id
    → is_mode
        (protocol_capability config provider_id (some account_id) model protocol).mode
        ProtocolMode.native
      ≡ true
    → has_endpoint p.endpoints protocol ≡ true
unfolding provider account
validate-native test config p a provider_id account_id model protocol accepted found_p found_a own
      native =
    let backed = validate-IsBacked test config accepted in
    let of_p : ProviderBacked p =
      All-find ProviderBacked (λ x. x.id == provider_id) config.providers p backed.providers
        found_p in
    let of_a' : AccountBacked (provider config a.provider_id) a =
      All-find (λ x. AccountBacked (provider config x.provider_id) x) (λ x. x.id == account_id)
        config.accounts a backed.accounts found_a in
    let named : p.id ≡ provider_id =
      (eq_iff p.id provider_id).0
        (find-passes (λ x. x.id == provider_id) config.providers p found_p) in
    let same : provider config a.provider_id ≡ some p =
      subst (λ x. provider config x ≡ some p) (sym (own ∙ named)) found_p in
    let of_a : AccountBacked (some p) a = subst (λ o. AccountBacked o a) same of_a' in
    declared-native config p a provider_id account_id model protocol of_p of_a found_p found_a
      native
