-- ===== src/Domain/Intersection/Laws.antt =====
-- `intersect_capabilities` of src/domain/routing.rs against a description by features.
use my_ai_gateway.Prelude.{
  ◌≡◌, refl, Bool, true, false, not, ◌&&◌, Option, String, List, [], ◌∷◌, ◌++◌, if◌then◌else◌,
  arith,
}
use mathlib.Core.List.{append-nil, append_assoc}
use my_ai_gateway.Domain.Config.{CapabilityMode, Capabilities}
use my_ai_gateway.Domain.Config.CapabilityMode.{native, translated, unsupported}
use my_ai_gateway.Domain.Intersection.{
  Intersected, ok, err, ◌>>=◌, intersect, adapter_mode, intersect_capabilities,
}

-- A feature that the model has and the adapter lacks.
abbrev pub is_lost : CapabilityMode → CapabilityMode → Bool
is_lost unsupported native = true
is_lost unsupported translated = true
is_lost _ _ = false

-- A feature that comes out weaker than the model's.
abbrev pub is_degraded : CapabilityMode → CapabilityMode → Bool
is_degraded translated native = true
is_degraded a m = is_lost a m

-- The mode that comes out: unsupported where either side is, and else the adapter's.
abbrev pub effective : CapabilityMode → CapabilityMode → CapabilityMode
effective a unsupported = unsupported
effective a m = a

abbrev pub Feature : Type 0
Feature = String × (Capabilities → CapabilityMode)

-- The features in the order in which the code treats them.
abbrev pub features : List Feature
features =
    ("streaming", λ c. c.streaming)
    ∷ ("tools", λ c. c.tools)
    ∷ ("tool_streaming", λ c. c.tool_streaming)
    ∷ ("thinking", λ c. c.thinking)
    ∷ ("web_search", λ c. c.web_search)
    ∷ ("file_search", λ c. c.file_search)
    ∷ ("vision", λ c. c.vision)
    ∷ ("usage", λ c. c.usage)
    ∷ []

abbrev pub names_where :
    (CapabilityMode → CapabilityMode → Bool)
    → Option Capabilities
    → Capabilities
    → List Feature
    → List String
names_where test adapter model [] = []
names_where test adapter model ((name, field) ∷ rest) =
    let later = names_where test adapter model rest in
    if test (adapter_mode adapter field) (field model) then name ∷ later else later

-- `intersect!` against the two predicates.
intersect_lem :
    (a m : CapabilityMode) (lossy : Bool) (name : String) (degraded : List String)
    → intersect a m lossy name degraded ≡ (
        if not lossy && is_lost a m
        then err name
        else ok (effective a m, if is_degraded a m then degraded ++ name ∷ [] else degraded))
unfolding intersect
intersect_lem unsupported unsupported lossy name degraded = ground arith
intersect_lem unsupported native lossy name degraded = ground arith
intersect_lem unsupported translated lossy name degraded = ground arith
intersect_lem translated native lossy name degraded = ground arith
intersect_lem translated translated lossy name degraded = ground arith
intersect_lem translated unsupported lossy name degraded = ground arith
intersect_lem native native lossy name degraded = ground arith
intersect_lem native translated lossy name degraded = ground arith
intersect_lem native unsupported lossy name degraded = ground arith

-- The first lost feature is the error, if any is lost.
abbrev pub outcome {ℓ} : {A : Type ℓ} → List String → Intersected A → Intersected A
outcome [] result = result
outcome (name ∷ names) result = err name

abbrev assemble : List CapabilityMode → List String → Intersected (Capabilities × List String)
assemble (a ∷ (b ∷ (c ∷ (d ∷ (e ∷ (f ∷ (g ∷ (h ∷ [])))))))) degraded = ok (
  record {
    streaming = a;
    tools = b;
    tool_streaming = c;
    thinking = d;
    web_search = e;
    file_search = f;
    vision = g;
    usage = h;
  },
  degraded,
)
assemble _ degraded = err ""

-- One feature, given what the later ones come to for every list of names degraded before them.
step_lem {ℓ} :
    {A : Type ℓ} (lossy lost weaker : Bool) (name : String) (names degs degraded : List String)
    (mode : CapabilityMode) (later : CapabilityMode → List String → Intersected A)
    (result : CapabilityMode → List String → Intersected A)
    → ((d : List String)
        → later mode d ≡ outcome (if lossy then [] else names) (result mode (d ++ degs)))
    → ◌>>=◌ {A = CapabilityMode × List String}
        (if not lossy && lost
          then err name
          else ok (mode, if weaker then degraded ++ name ∷ [] else degraded))
        (λ r. later r.0 r.1)
      ≡ outcome
          (if lossy then [] else if lost then name ∷ names else names)
          (result mode (degraded ++ (if weaker then name ∷ degs else degs)))
step_lem false true weaker name names degs degraded mode later result ih = refl
step_lem false false false name names degs degraded mode later result ih = ih degraded
step_lem false false true name names degs degraded mode later result ih =
    rw (← append_assoc degraded (name ∷ []) degs) (ih (degraded ++ name ∷ []))
step_lem true lost false name names degs degraded mode later result ih = ih degraded
step_lem true lost true name names degs degraded mode later result ih =
    rw (← append_assoc degraded (name ∷ []) degs) (ih (degraded ++ name ∷ []))

module _ (model : Capabilities) (adapter : Option Capabilities) (lossy : Bool) where
  -- The features one after another, as a fold.
  chain {ℓ} :
      {A : Type ℓ}
      → List Feature
      → List String
      → (List CapabilityMode → List String → Intersected A)
      → Intersected A
  chain [] degraded k = k [] degraded
  chain ((name, field) ∷ rest) degraded k = do
    r ← intersect (adapter_mode adapter field) (field model) lossy name degraded
    chain rest r.1 (λ modes d. k (r.0 ∷ modes) d)

  abbrev pub lost_names : List Feature → List String
  lost_names fs = if lossy then [] else names_where is_lost adapter model fs

  abbrev modes : List Feature → List CapabilityMode
  modes [] = []
  modes ((name, field) ∷ rest) = effective (adapter_mode adapter field) (field model) ∷ modes rest

  chain_lem {ℓ} :
      {A : Type ℓ} (fs : List Feature) (degraded : List String)
      (k : List CapabilityMode → List String → Intersected A)
      → chain fs degraded k
        ≡ outcome
            (lost_names fs)
            (k (modes fs) (degraded ++ names_where is_degraded adapter model fs))
  unfolding chain
  chain_lem [] degraded k =
      elim lossy as (λ b. k [] degraded ≡ outcome (if b then [] else []) (k [] (degraded ++ []))) [
        | true ↦ rw (append-nil degraded)
        | false ↦ rw (append-nil degraded)
      ]
  chain_lem ((name, field) ∷ rest) degraded k =
      rw (intersect_lem (adapter_mode adapter field) (field model) lossy name degraded) (
        step_lem lossy _ _ name _ _ degraded _
          (λ mode d. chain rest d (λ modes d'. k (mode ∷ modes) d'))
          (λ mode d. k (mode ∷ modes rest) d)
          (λ d.
            chain_lem rest d
              (λ modes d'. k (effective (adapter_mode adapter field) (field model) ∷ modes) d')))

  -- Without the permission to lose features, the first feature that the model has and the adapter lacks
  -- is the error; otherwise each feature has the adapter's mode, or none if the model has none, and the
  -- degraded features are listed in order.
  pub intersect_capabilities_lem :
      intersect_capabilities model adapter lossy
      ≡ outcome (lost_names features) (
          ok (
            record {
              streaming = effective (adapter_mode adapter (λ c. c.streaming)) model.streaming;
              tools = effective (adapter_mode adapter (λ c. c.tools)) model.tools;
              tool_streaming =
                  effective (adapter_mode adapter (λ c. c.tool_streaming)) model.tool_streaming;
              thinking = effective (adapter_mode adapter (λ c. c.thinking)) model.thinking;
              web_search = effective (adapter_mode adapter (λ c. c.web_search)) model.web_search;
              file_search = effective (adapter_mode adapter (λ c. c.file_search)) model.file_search;
              vision = effective (adapter_mode adapter (λ c. c.vision)) model.vision;
              usage = effective (adapter_mode adapter (λ c. c.usage)) model.usage;
            },
            names_where is_degraded adapter model features,
          ))
  unfolding intersect_capabilities chain
  intersect_capabilities_lem = chain_lem features [] assemble
