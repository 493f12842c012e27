-- ===== src/Domain/Config/Matrix/Sources.antt =====
-- The `expect`s of `validate_matrix` of src/domain/config.rs.
use my_ai_gateway.Prelude.{
  Bool, true, false, not, ◌&&◌, ◌||◌, ◌≡◌, refl, Option, none, some, String, List, [], ◌∷◌,
  Bool-cases, inl, inr, arith, is_some,
}
use my_ai_gateway.Domain.Protocol.{Protocol}
use my_ai_gateway.Domain.Config.{
  ProtocolMode, ProtocolCapability, ProtocolCapabilityMatrix, is_mode,
}
use my_ai_gateway.Domain.Config.Matrix.{
  Validity, ok, panics, err, ◌>>◌, require, located, entry, validate_capability, validate_mode,
  validate_source, check_legacy, check_entry, check_adapter, check_direction, check_entries,
  check_declared_source, check_source, check_sources, validate_matrix, check_base_mode,
  check_base_source, check_base, validate_override_matrix,
}
use my_ai_gateway.Domain.Config.Matrix.Backed.{seq-ok}

-- No panic.
abbrev pub calm : Validity → Bool
calm ok = true
calm panics = false
calm (err message) = true

-- A source and a name, as an adapter needs them.
abbrev is_sourced : ProtocolCapability → Bool
is_sourced c =
    not (is_mode c.mode ProtocolMode.adapter) || (is_some c.source_protocol && is_some c.adapter)

seq_calm :
    (v w : Validity) → calm v ≡ true → (Path Validity v ok → calm w ≡ true) → calm (v >> w) ≡ true
seq_calm ok w cv cw = cw refl
seq_calm panics w cv cw = cv
seq_calm (err message) w cv cw = refl

validate_source-calm :
    (target : Protocol) (source : Option Protocol) (adapter : Option String)
    → calm (validate_source target source adapter) ≡ true
unfolding validate_source require
validate_source-calm target none adapter = refl
validate_source-calm target (some source) adapter = ground arith

validate_mode-calm :
    (mode : ProtocolMode) (c : ProtocolCapability) (target : Protocol)
    → calm (validate_mode mode c target) ≡ true
unfolding validate_mode require
validate_mode-calm ProtocolMode.native c target = ground arith
validate_mode-calm ProtocolMode.adapter c target =
    validate_source-calm target c.source_protocol c.adapter
validate_mode-calm ProtocolMode.unsupported c target = ground arith

validate_source-some :
    (target : Protocol) (source : Option Protocol) (adapter : Option String)
    → Path Validity (validate_source target source adapter) ok
    → (is_some source && is_some adapter) ≡ true
unfolding validate_source require
validate_source-some target none adapter h = absurd (cc)
validate_source-some target (some s) none h = ground (arith, h)
validate_source-some target (some s) (some name) h = refl

validate_mode-is_sourced :
    (mode : ProtocolMode) (c : ProtocolCapability) (target : Protocol)
    → Path Validity (validate_mode mode c target) ok
    → (not (is_mode mode ProtocolMode.adapter) || (is_some c.source_protocol && is_some c.adapter))
      ≡ true
unfolding validate_mode
validate_mode-is_sourced ProtocolMode.native c target h = refl
validate_mode-is_sourced ProtocolMode.adapter c target h =
    validate_source-some target c.source_protocol c.adapter h
validate_mode-is_sourced ProtocolMode.unsupported c target h = refl

calm-err :
    (v : Validity)
    → calm v ≡ true
    → (¬ Path Validity v ok)
    → (message : String) × Path Validity v (err message)
calm-err ok c h = absurd (h refl)
calm-err panics c h = absurd (cc)
calm-err (err message) c h = (message, refl)

unsourced :
    (c : ProtocolCapability) (protocol : Protocol)
    → is_sourced c ≡ false
    → (message : String) × Path Validity (validate_mode c.mode c protocol) (err message)
unsourced c protocol s =
    calm-err (validate_mode c.mode c protocol) (validate_mode-calm c.mode c protocol) (λ h.
      let s' : is_sourced c ≡ true = validate_mode-is_sourced c.mode c protocol h in absurd (cc))

located-calm : (place : List String) (v : Validity) → calm v ≡ true → calm (located place v) ≡ true
located-calm place ok h = refl
located-calm place panics h = h
located-calm place (err message) h = refl

module _ (test : Bool) (endpoints : List (Protocol × String)) (legacy_native : List Protocol)
    (scope : String) where
  check_legacy-calm :
      (protocols : List Protocol)
      → calm (check_legacy test endpoints legacy_native scope protocols) ≡ true
  unfolding check_legacy require
  check_legacy-calm [] = refl
  check_legacy-calm (protocol ∷ rest) = ground (arith, check_legacy-calm rest)

  check_adapter-calm :
      (protocol : Protocol) (source : Option Protocol) (adapter : Option String)
      → (is_some source && is_some adapter) ≡ true
      → calm (check_adapter test endpoints legacy_native scope protocol source adapter) ≡ true
  unfolding check_adapter check_direction require
  check_adapter-calm protocol none adapter n = absurd (cc)
  check_adapter-calm protocol (some s) none n = absurd (cc)
  check_adapter-calm protocol (some s) (some name) n = ground arith

  check_entry-calm :
      (protocol : Protocol) (c : ProtocolCapability)
      → calm (check_entry test endpoints legacy_native scope (protocol, c)) ≡ true
  unfolding check_entry validate_capability require
  check_entry-calm protocol c = elim (Bool-cases (is_sourced c)) [
    | inl s ↦ ground (
      arith,
      s,
      located-calm (entry test endpoints legacy_native scope protocol ": " ∷ [])
          (validate_mode c.mode c protocol) (validate_mode-calm c.mode c protocol),
      check_adapter-calm protocol c.source_protocol c.adapter,
    )
    | inr s ↦ let failed = unsourced c protocol s in rw (failed.1, check_entry) refl
  ]

  check_entries-calm :
      (matrix : ProtocolCapabilityMatrix)
      → calm (check_entries test endpoints legacy_native scope matrix) ≡ true
  unfolding check_entries
  check_entries-calm [] = refl
  check_entries-calm ((protocol, c) ∷ rest) =
      ground (arith, check_entry-calm protocol c, check_entries-calm rest)

  check_entry-is_sourced :
      (protocol : Protocol) (c : ProtocolCapability)
      → Path Validity (check_entry test endpoints legacy_native scope (protocol, c)) ok
      → is_sourced c ≡ true
  unfolding check_entry validate_capability
  check_entry-is_sourced protocol c h = elim (Bool-cases (is_sourced c)) [
    | inl s ↦ s
    | inr s ↦
        let failed = unsourced c protocol s in
        let h' = rw (failed.1, check_entry) at h in absurd (cc (h'))
  ]

  check_source-calm :
      (matrix : ProtocolCapabilityMatrix) (protocol : Protocol) (source : Option Protocol)
      → is_some source ≡ true
      → calm (check_source test endpoints legacy_native scope matrix protocol source) ≡ true
  unfolding check_source check_declared_source require
  check_source-calm matrix protocol none h = absurd (cc)
  check_source-calm matrix protocol (some source) h = ground arith

  -- The entries that passed name the sources of the adapters.
  check_sources-calm :
      (matrix rest : ProtocolCapabilityMatrix)
      → Path Validity (check_entries test endpoints legacy_native scope rest) ok
      → calm (check_sources test endpoints legacy_native scope matrix rest) ≡ true
  unfolding check_entries check_sources
  check_sources-calm matrix [] h = refl
  check_sources-calm matrix ((protocol, c) ∷ rest) h =
      let both =
        seq-ok (check_entry test endpoints legacy_native scope (protocol, c))
          (check_entries test endpoints legacy_native scope rest) h in
      let sourced : is_sourced c ≡ true = check_entry-is_sourced protocol c both.0 in
      let later : calm (check_sources test endpoints legacy_native scope matrix rest) ≡ true =
        check_sources-calm matrix rest both.1 in
      elim (Bool-cases (is_mode c.mode ProtocolMode.adapter)) [
        | inl e ↦
            let one : calm (
                  check_source test endpoints legacy_native scope matrix protocol c.source_protocol)
                ≡ true =
              check_source-calm matrix protocol c.source_protocol (ground (arith, sourced, e)) in
            rw (e, check_sources) (ground (arith, one, later))
        | inr e ↦ rw (e, check_sources) later
      ]

  pub validate_matrix-calm :
      (matrix : ProtocolCapabilityMatrix)
      → calm (validate_matrix test endpoints legacy_native scope matrix) ≡ true
  unfolding validate_matrix
  validate_matrix-calm matrix =
      seq_calm
        (check_legacy test endpoints legacy_native scope legacy_native
          >> check_entries test endpoints legacy_native scope matrix)
        (check_sources test endpoints legacy_native scope matrix matrix)
        (seq_calm (check_legacy test endpoints legacy_native scope legacy_native)
          (check_entries test endpoints legacy_native scope matrix)
          (check_legacy-calm legacy_native) (λ _. check_entries-calm matrix))
        (λ h. check_sources-calm matrix matrix (seq-ok _ _ h).1)

  check_base_source-calm :
      (base : ProtocolCapabilityMatrix) (target : Protocol) (source : Option Protocol)
      → is_some source ≡ true
      → calm (check_base_source test endpoints legacy_native scope base target source) ≡ true
  unfolding check_base_source check_base_mode require
  check_base_source-calm base target none h = absurd (cc)
  check_base_source-calm base target (some source) h = ground arith

  check_base-calm :
      (base rest : ProtocolCapabilityMatrix)
      → Path Validity (check_entries test endpoints legacy_native scope rest) ok
      → calm (check_base test endpoints legacy_native scope base rest) ≡ true
  unfolding check_entries check_base
  check_base-calm base [] h = refl
  check_base-calm base ((protocol, c) ∷ rest) h =
      let both =
        seq-ok (check_entry test endpoints legacy_native scope (protocol, c))
          (check_entries test endpoints legacy_native scope rest) h in
      let sourced : is_sourced c ≡ true = check_entry-is_sourced protocol c both.0 in
      let later : calm (check_base test endpoints legacy_native scope base rest) ≡ true =
        check_base-calm base rest both.1 in
      elim (Bool-cases (is_mode c.mode ProtocolMode.adapter)) [
        | inl e ↦
            let one : calm (
                  check_base_source test endpoints legacy_native scope base protocol
                    c.source_protocol)
                ≡ true =
              check_base_source-calm base protocol c.source_protocol (ground (arith, sourced, e)) in
            rw (e, check_base) (ground (arith, one, later))
        | inr e ↦ rw (e, check_base) later
      ]

  pub validate_override_matrix-calm :
      (matrix base : ProtocolCapabilityMatrix)
      → calm (validate_override_matrix test endpoints legacy_native scope matrix base) ≡ true
  unfolding validate_override_matrix validate_matrix
  validate_override_matrix-calm matrix base =
      seq_calm (validate_matrix test endpoints legacy_native scope matrix)
        (check_base test endpoints legacy_native scope base matrix) (validate_matrix-calm matrix)
        (λ h. check_base-calm base matrix (seq-ok _ _ (seq-ok _ _ h).0).1)
