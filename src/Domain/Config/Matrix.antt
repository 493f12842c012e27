-- ===== src/Domain/Config/Matrix.antt =====
-- `ProtocolCapability::validate`, `validate_matrix` and `validate_override_matrix` of
-- src/domain/config.rs.
pub mod Backed
pub mod Sources
use my_ai_gateway.Prelude.{
  Bool, true, false, not, ◌&&◌, ◌||◌, Option, none, some, String, ◌==◌, List, [], ◌∷◌,
  if◌then◌else◌, is_some, is_some_and, ◌++◌,
}
use my_ai_gateway.Prelude.Text.{trim, concat}
use my_ai_gateway.Domain.Protocol.{
  Protocol, same_protocol, display, get_protocol, contains_protocol,
}
use my_ai_gateway.Domain.Config.{
  ProtocolMode, ProtocolCapability, ProtocolCapabilityMatrix, adapter_definition, is_mode,
}

-- A result, or the panic of an `expect`.
pub data Validity : Type 0 where
  ok panics : Validity
  err : String → Validity

infixl 5 ◌>>◌
abbrev pub ◌>>◌ : Validity → Validity → Validity
ok >> next = next
panics >> next = panics
err message >> next = err message

unfoldable pub require : Bool → List String → Validity
unfolding concat
require true message = ok
require false message = err (concat message)

unfoldable pub no_source_or_adapter : ProtocolCapability → Bool
no_source_or_adapter c = not (is_some c.source_protocol || is_some c.adapter)

unfoldable pub validate_source : Protocol → Option Protocol → Option String → Validity
unfolding require trim concat
validate_source target none adapter =
    err (concat (display target ∷ ": adapter mode requires source_protocol" ∷ []))
validate_source target (some source) adapter =
    require (not (same_protocol source target))
      (display target ∷ ": adapter source_protocol must differ from target" ∷ [])
    >> require (is_some_and (λ name. not (trim name == "")) adapter)
        (display target ∷ ": adapter mode requires adapter" ∷ [])

unfoldable pub validate_mode : ProtocolMode → ProtocolCapability → Protocol → Validity
unfolding require no_source_or_adapter validate_source
validate_mode ProtocolMode.native c target =
    require (no_source_or_adapter c)
      (display target ∷ ": native mode cannot set source_protocol or adapter" ∷ [])
validate_mode ProtocolMode.adapter c target = validate_source target c.source_protocol c.adapter
validate_mode ProtocolMode.unsupported c target =
    require (no_source_or_adapter c)
      (display target ∷ ": unsupported mode cannot set source_protocol or adapter" ∷ [])

-- `ProtocolCapability::validate`.
unfoldable pub validate_capability : ProtocolCapability → Protocol → Validity
unfolding validate_mode
validate_capability c target = validate_mode c.mode c target

unfoldable pub has_endpoint : List (Protocol × String) → Protocol → Bool
unfolding trim
has_endpoint endpoints protocol =
    is_some_and (λ endpoint. not (trim endpoint == "")) (get_protocol protocol endpoints)

-- `map_err` with the place of the error.
abbrev pub located : List String → Validity → Validity
located place ok = ok
located place panics = panics
located place (err message) = err (concat (place ++ message ∷ []))

module _ (test : Bool) (endpoints : List (Protocol × String)) (legacy_native : List Protocol)
    (scope : String) where
  -- The first loop, over the native protocols.
  unfoldable pub check_legacy : List Protocol → Validity
  unfolding require has_endpoint
  check_legacy [] = ok
  check_legacy (protocol ∷ rest) =
      require (has_endpoint endpoints protocol) (
        scope
        ∷ ".native_protocols."
        ∷ display protocol
        ∷ ": native protocol requires an endpoint"
        ∷ [])
      >> check_legacy rest

  abbrev pub entry : Protocol → String → String
  entry protocol rest = concat (scope ∷ ".protocol_capabilities." ∷ display protocol ∷ rest ∷ [])

  unfoldable pub check_direction : Protocol → Protocol → String → Validity
  unfolding require adapter_definition
  check_direction protocol source name = elim (adapter_definition test name) [
    | none ↦ err (concat (entry protocol ".adapter: unknown adapter '" ∷ name ∷ "'" ∷ []))
    | some definition ↦
        require
          (same_protocol definition.from_protocol protocol
            && same_protocol definition.to_protocol source)
          (entry protocol ": adapter '"
            ∷ name
            ∷ "' direction is "
            ∷ display definition.from_protocol
            ∷ " -> "
            ∷ display definition.to_protocol
            ∷ ", configured "
            ∷ display protocol
            ∷ " -> "
            ∷ display source
            ∷ [])
  ]

  unfoldable pub check_adapter : Protocol → Option Protocol → Option String → Validity
  unfolding check_direction
  check_adapter protocol none name = panics
  check_adapter protocol (some source) none = panics
  check_adapter protocol (some source) (some name) = check_direction protocol source name

  unfoldable pub check_entry : Protocol × ProtocolCapability → Validity
  unfolding validate_capability has_endpoint check_adapter require
  check_entry (protocol, capability) =
      located (entry protocol ": " ∷ []) (validate_capability capability protocol)
      >> require
          (not (is_mode capability.mode ProtocolMode.native) || has_endpoint endpoints protocol)
          (entry protocol ": native protocol requires an endpoint" ∷ [])
      >> (if is_mode capability.mode ProtocolMode.adapter
          then check_adapter protocol capability.source_protocol capability.adapter
          else ok)

  unfoldable pub check_entries : ProtocolCapabilityMatrix → Validity
  unfolding check_entry
  check_entries [] = ok
  check_entries (e ∷ rest) = check_entry e >> check_entries rest

  -- A source that the matrix declares.
  unfoldable pub check_declared_source : Protocol → Protocol → ProtocolMode → Validity
  unfolding require has_endpoint
  check_declared_source protocol source ProtocolMode.native =
      require (has_endpoint endpoints source) (
        entry protocol ".source_protocol: native source "
        ∷ display source
        ∷ " requires an endpoint"
        ∷ [])
  check_declared_source protocol source ProtocolMode.adapter = err (
      concat (
        entry protocol ".source_protocol: multi-segment adapter chain via "
        ∷ display source
        ∷ " is not allowed"
        ∷ []))
  check_declared_source protocol source ProtocolMode.unsupported = err (
      concat (
        entry protocol ".source_protocol: source protocol "
        ∷ display source
        ∷ " is unsupported"
        ∷ []))

  unfoldable pub check_source : ProtocolCapabilityMatrix → Protocol → Option Protocol → Validity
  unfolding check_declared_source has_endpoint require
  check_source matrix protocol none = panics
  check_source matrix protocol (some source) = elim (get_protocol source matrix) [
    | some declared ↦ check_declared_source protocol source declared.mode
    | none ↦ require (has_endpoint endpoints source || contains_protocol source legacy_native) (
        entry protocol ".source_protocol: source protocol "
        ∷ display source
        ∷ " is unavailable"
        ∷ [])
  ]

  -- The loop over the adapters of the matrix.
  unfoldable pub check_sources : ProtocolCapabilityMatrix → ProtocolCapabilityMatrix → Validity
  unfolding check_source
  check_sources matrix [] = ok
  check_sources matrix ((protocol, capability) ∷ rest) =
      (if is_mode capability.mode ProtocolMode.adapter
        then check_source matrix protocol capability.source_protocol
        else ok)
      >> check_sources matrix rest

  unfoldable pub validate_matrix : ProtocolCapabilityMatrix → Validity
  unfolding check_legacy check_entries check_sources
  validate_matrix matrix =
      check_legacy legacy_native >> check_entries matrix >> check_sources matrix matrix

  unfoldable pub check_base_mode : Protocol → Protocol → ProtocolMode → Validity
  unfolding require has_endpoint
  check_base_mode target source ProtocolMode.unsupported = err (
      concat (
        entry target ".source_protocol: source protocol "
        ∷ display source
        ∷ " is unsupported in the base matrix"
        ∷ []))
  check_base_mode target source ProtocolMode.adapter = err (
      concat (
        entry target ".source_protocol: multi-segment adapter chain via "
        ∷ display source
        ∷ " is not allowed"
        ∷ []))
  check_base_mode target source ProtocolMode.native = require (has_endpoint endpoints source) (
      entry target ".source_protocol: native source "
      ∷ display source
      ∷ " requires an endpoint"
      ∷ [])

  unfoldable pub check_base_source :
      ProtocolCapabilityMatrix → Protocol → Option Protocol → Validity
  unfolding check_base_mode
  check_base_source base target none = panics
  check_base_source base target (some source) = elim (get_protocol source base) [
    | some declared ↦ check_base_mode target source declared.mode
    | none ↦ ok
  ]

  unfoldable pub check_base : ProtocolCapabilityMatrix → ProtocolCapabilityMatrix → Validity
  unfolding check_base_source
  check_base base [] = ok
  check_base base ((target, capability) ∷ rest) =
      (if is_mode capability.mode ProtocolMode.adapter
        then check_base_source base target capability.source_protocol
        else ok)
      >> check_base base rest

  unfoldable pub validate_override_matrix :
      ProtocolCapabilityMatrix → ProtocolCapabilityMatrix → Validity
  unfolding validate_matrix check_base
  validate_override_matrix matrix base = validate_matrix matrix >> check_base base matrix
