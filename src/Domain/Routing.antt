-- ===== src/Domain/Routing.antt =====
-- The data of src/domain/routing.rs, the ranking of route patterns and the published routes.
pub mod Candidate
pub mod Selection
pub mod Runtime
pub mod Production
use Prim.Native.String.{len}
use my_ai_gateway.Prelude.{
  ℕ, ◌-◌, Bool, true, false, not, ◌&&◌, ◌||◌, Option, none, some, String, ◌==◌, starts_with, List,
  [], ◌∷◌, if◌then◌else◌, is_empty,
}
use my_ai_gateway.Prelude.Text.{trim_start_slash, trim_end_slash, strip_star, concat}
use my_ai_gateway.Domain.Protocol.{Protocol}
use my_ai_gateway.Domain.Config.{Capabilities}

pub record RuntimeBinding : Type 0 where
  pub binding_id : ℕ
  pub source_id : String
  pub provider_id : String
  pub account_id : String
  pub upstream_model_id : String
  pub protocol_upstream : Protocol
  pub upstream_endpoint : String
  pub mode : String
  pub adapter : Option String
  pub effective_capabilities : Capabilities
  pub degraded_features : List String

-- `max_retries` is validated to be nonnegative when it is stored.
pub record RuntimeRoute : Type 0 where
  pub route_id : String
  pub model : String
  pub protocol : Protocol
  pub strategy : String
  pub request_timeout_ms : Option ℕ
  pub max_retries : Option ℕ
  pub allow_lossy_conversion : Bool
  pub bindings : List RuntimeBinding

-- `ResolvedBinding` has the fields of `RuntimeBinding`.
pub record ResolvedBinding : Type 0 where
  pub binding_id : ℕ
  pub source_id : String
  pub provider_id : String
  pub account_id : String
  pub upstream_model_id : String
  pub protocol_upstream : Protocol
  pub upstream_endpoint : String
  pub mode : String
  pub adapter : Option String
  pub effective_capabilities : Capabilities
  pub degraded_features : List String

pub record ResolvedRoute : Type 0 where
  pub route_id : String
  pub strategy : String
  pub request_timeout_ms : Option ℕ
  pub max_retries : Option ℕ
  pub protocol : Protocol
  pub protocol_in : Protocol
  pub protocol_upstream : Protocol
  pub model : String
  pub requested_model : String
  pub upstream_model_id : String
  pub source_id : String
  pub provider_id : String
  pub primary_account_id : String
  pub fallback_accounts : List String
  pub fallback_bindings : List ResolvedBinding
  pub binding_id : Option ℕ
  pub upstream_endpoint : String
  pub mode : String
  pub adapter : Option String
  pub effective_capabilities : Capabilities
  pub degraded_features : List String
  pub allow_lossy_conversion : Bool

abbrev pub is_degraded : ResolvedRoute → Bool
is_degraded route = not (is_empty route.degraded_features)

pub record RouteResolutionError : Type 0 where
  pub code : String
  pub message : String
  pub route_id : Option String

pub data Resolved {ℓ} (A : Type ℓ) : Type ℓ where
  ok : A → Resolved A
  err : RouteResolutionError → Resolved A

infixl 5 ◌>>=◌ ◌>>◌
abbrev pub ◌>>=◌ {ℓ κ} : {A : Type ℓ} {B : Type κ} → Resolved A → (A → Resolved B) → Resolved B
ok a >>= f = f a
err e >>= f = err e

abbrev pub ◌>>◌ {ℓ} : {B : Type ℓ} → Resolved (Unit {0}) → Resolved B → Resolved B
m >> k = m >>= λ _. k

-- `RouteResolutionError::new`.
abbrev pub resolution_error : String → List String → Option String → RouteResolutionError
resolution_error code message route_id = record {
  code = code;
  message = concat message;
  route_id = route_id;
}

-- `model_match_rank`: whether the match is exact, and how specific the pattern is, in bytes.
unfoldable pub model_match_rank : String → String → Option (Bool × ℕ)
model_match_rank pattern model =
    if pattern == model
    then some (true, len pattern)
    else if pattern == "*"
    then some (false, 0)
    else elim (strip_star pattern) [
      | none ↦ none
      | some prefix ↦ if starts_with model prefix then some (false, len pattern - 1) else none
    ]

unfoldable pub join_endpoint : String → String → String
join_endpoint base endpoint =
    if starts_with endpoint "http://" || starts_with endpoint "https://"
    then endpoint
    else concat (trim_end_slash base ∷ "/" ∷ trim_start_slash endpoint ∷ [])
