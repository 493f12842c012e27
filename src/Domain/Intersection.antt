-- ===== src/Domain/Intersection.antt =====
-- `intersect_capabilities` of src/domain/routing.rs.
pub mod Laws
use my_ai_gateway.Prelude.{
  Bool, true, false, not, ◌&&◌, Option, none, some, String, List, [], ◌∷◌, ◌++◌, if◌then◌else◌,
}
use my_ai_gateway.Domain.Config.{CapabilityMode, Capabilities}
use my_ai_gateway.Domain.Config.CapabilityMode.{native, translated, unsupported}

-- An error names the feature that would be lost.
pub data Intersected {ℓ} (A : Type ℓ) : Type ℓ where
  ok : A → Intersected A
  err : String → Intersected A

infixl 5 ◌>>=◌
abbrev pub ◌>>=◌ {ℓ κ} :
    {A : Type ℓ} {B : Type κ} → Intersected A → (A → Intersected B) → Intersected B
ok a >>= f = f a
err e >>= f = err e

-- The macro `intersect!` at one field: the adapter's mode, the model's, the policy, the field's name and
-- the names degraded so far.
unfoldable pub intersect :
    CapabilityMode
    → CapabilityMode
    → Bool
    → String
    → List String
    → Intersected (CapabilityMode × List String)
intersect unsupported unsupported allow_lossy name degraded = ok (unsupported, degraded)
intersect unsupported source allow_lossy name degraded =
    if not allow_lossy then err name else ok (unsupported, degraded ++ name ∷ [])
intersect translated native allow_lossy name degraded = ok (translated, degraded ++ name ∷ [])
intersect mode unsupported allow_lossy name degraded = ok (unsupported, degraded)
intersect mode source allow_lossy name degraded = ok (mode, degraded)

-- `adapter.map(|a| a.field).unwrap_or(Native)`.
abbrev pub adapter_mode : Option Capabilities → (Capabilities → CapabilityMode) → CapabilityMode
adapter_mode none field = native
adapter_mode (some a) field = field a

unfoldable pub intersect_capabilities :
    Capabilities → Option Capabilities → Bool → Intersected (Capabilities × List String)
intersect_capabilities model adapter lossy = do
  a ← intersect (adapter_mode adapter (λ c. c.streaming)) model.streaming lossy "streaming" []
  b ← intersect (adapter_mode adapter (λ c. c.tools)) model.tools lossy "tools" a.1
  c ←
      intersect (adapter_mode adapter (λ c. c.tool_streaming)) model.tool_streaming lossy
        "tool_streaming" b.1
  d ← intersect (adapter_mode adapter (λ c. c.thinking)) model.thinking lossy "thinking" c.1
  e ← intersect (adapter_mode adapter (λ c. c.web_search)) model.web_search lossy "web_search" d.1
  f ←
      intersect (adapter_mode adapter (λ c. c.file_search)) model.file_search lossy "file_search"
        e.1
  g ← intersect (adapter_mode adapter (λ c. c.vision)) model.vision lossy "vision" f.1
  h ← intersect (adapter_mode adapter (λ c. c.usage)) model.usage lossy "usage" g.1
  ok (
    record {
      streaming = a.0;
      tools = b.0;
      tool_streaming = c.0;
      thinking = d.0;
      web_search = e.0;
      file_search = f.0;
      vision = g.0;
      usage = h.0;
    },
    h.1,
  )
