-- ===== src/Domain/Config/Matrix/Backed.antt =====
-- What a matrix that `validate_matrix` of src/domain/config.rs accepts guarantees.
use my_ai_gateway.Prelude.{
  Bool, true, false, not, ◌||◌, ◌≡◌, refl, some, String, List, [], ◌∷◌, All, Bool-cases, inl, inr,
  arith, subst,
}
use my_ai_gateway.Domain.Protocol.{
  Protocol, same_protocol, same_protocol-eq, get_protocol, contains_protocol,
}
use my_ai_gateway.Domain.Config.{
  ProtocolMode, ProtocolCapability, ProtocolCapabilityMatrix, is_mode,
}
use my_ai_gateway.Domain.Config.Matrix.{
  Validity, ok, panics, err, ◌>>◌, require, has_endpoint, check_legacy, check_entry, check_entries,
  validate_matrix, validate_override_matrix,
}

pub seq-ok : (v w : Validity) → Path Validity (v >> w) ok → Path Validity v ok × Path Validity w ok
seq-ok ok w h = (refl, h)
seq-ok panics w h = absurd (cc)
seq-ok (err message) w h = absurd (cc)

pub require-ok :
    (b : Bool) (message : List String) → Path Validity (require b message) ok → b ≡ true
unfolding require
require-ok true message h = refl
require-ok false message h = absurd (cc)

-- Each native entry of the matrix has an endpoint that is not blank.
abbrev pub Backed : List (Protocol × String) → ProtocolCapabilityMatrix → Type 0
Backed endpoints matrix =
    All
      (λ (e : Protocol × ProtocolCapability).
        is_mode e.1.mode ProtocolMode.native ≡ true → has_endpoint endpoints e.0 ≡ true)
      matrix

module _ (test : Bool) (endpoints : List (Protocol × String)) (legacy_native : List Protocol)
    (scope : String) where
  check_legacy-ok :
      (protocols : List Protocol)
      → Path Validity (check_legacy test endpoints legacy_native scope protocols) ok
      → All (λ protocol. has_endpoint endpoints protocol ≡ true) protocols
  unfolding check_legacy
  check_legacy-ok [] h = tt
  check_legacy-ok (protocol ∷ rest) h =
      let both = seq-ok _ _ h in
      (require-ok (has_endpoint endpoints protocol) _ both.0, check_legacy-ok rest both.1)

  check_entry-ok :
      (protocol : Protocol) (c : ProtocolCapability)
      → Path Validity (check_entry test endpoints legacy_native scope (protocol, c)) ok
      → (not (is_mode c.mode ProtocolMode.native) || has_endpoint endpoints protocol) ≡ true
  unfolding check_entry
  check_entry-ok protocol c h = require-ok _ _ (seq-ok _ _ (seq-ok _ _ h).0).1

  check_entries-ok :
      (matrix : ProtocolCapabilityMatrix)
      → Path Validity (check_entries test endpoints legacy_native scope matrix) ok
      → Backed endpoints matrix
  unfolding check_entries
  check_entries-ok [] h = tt
  check_entries-ok ((protocol, c) ∷ rest) h = (
    λ native. ground (arith, native, check_entry-ok protocol c (seq-ok _ _ h).0),
    check_entries-ok rest (seq-ok _ _ h).1,
  )

  -- What an accepted matrix guarantees: the native protocols and the native entries have endpoints.
  pub validate_matrix-ok :
      (matrix : ProtocolCapabilityMatrix)
      → Path Validity (validate_matrix test endpoints legacy_native scope matrix) ok
      → All (λ protocol. has_endpoint endpoints protocol ≡ true) legacy_native
        × Backed endpoints matrix
  unfolding validate_matrix
  validate_matrix-ok matrix h =
      let parts = seq-ok _ _ (seq-ok _ _ h).0 in
      (check_legacy-ok legacy_native parts.0, check_entries-ok matrix parts.1)

  pub validate_override_matrix-ok :
      (matrix base : ProtocolCapabilityMatrix)
      → Path Validity (validate_override_matrix test endpoints legacy_native scope matrix base) ok
      → Backed endpoints matrix
  unfolding validate_override_matrix
  validate_override_matrix-ok matrix base h = (validate_matrix-ok matrix (seq-ok _ _ h).0).1

-- A declaration that a backed matrix gives is backed.
pub get_protocol-Backed :
    (endpoints : List (Protocol × String)) (protocol : Protocol) (matrix : ProtocolCapabilityMatrix)
    (c : ProtocolCapability)
    → Backed endpoints matrix
    → get_protocol protocol matrix ≡ some c
    → is_mode c.mode ProtocolMode.native ≡ true
    → has_endpoint endpoints protocol ≡ true
get_protocol-Backed endpoints protocol [] c b e native = absurd (cc)
get_protocol-Backed endpoints protocol ((q, d) ∷ rest) c b e native =
    elim (Bool-cases (same_protocol q protocol)) [
      | inl hit ↦
          let here : d ≡ c = ground arith in
          let same : q ≡ protocol = same_protocol-eq q protocol hit in
          subst (λ x. has_endpoint endpoints x ≡ true) same (b.0 (rw here native))
      | inr miss ↦ get_protocol-Backed endpoints protocol rest c b.1 (rw miss at e) native
    ]

pub contains_protocol-All :
    (P : Protocol → Type 0) (protocol : Protocol) (protocols : List Protocol)
    → All P protocols
    → contains_protocol protocol protocols ≡ true
    → P protocol
contains_protocol-All P protocol [] all h = absurd (cc)
contains_protocol-All P protocol (q ∷ rest) all h = elim (Bool-cases (same_protocol q protocol)) [
  | inl hit ↦ subst P (same_protocol-eq q protocol hit) all.0
  | inr miss ↦ contains_protocol-All P protocol rest all.1 (rw miss at h)
]
