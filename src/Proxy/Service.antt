-- ===== src/Proxy/Service.antt =====
-- `proxy` of src/proxy/service.rs: the checks of a request, and the policy that serves it.
pub mod Checks
pub mod Keys
use my_ai_gateway.Prelude.{
  ℕ, ◌*◌, Bool, true, false, ◌||◌, Option, none, some, String, ◌==◌, and_then, unwrap_or, is_some,
  if◌then◌else◌,
}
use my_ai_gateway.Domain.Protocol.{Protocol}
use my_ai_gateway.Domain.Routing.{ResolvedRoute, RouteResolutionError, Resolved, ok, err}
use my_ai_gateway.Domain.Routing.Runtime.{RouteResolver, resolve_detailed}
use my_ai_gateway.Health.Types.{nanos_per_milli}
use my_ai_gateway.Proxy.Transport.{StreamConfig, Response, data_plane_error}
use my_ai_gateway.Proxy.Environment.{Environment, Live}
use my_ai_gateway.Proxy.Json.{Json}
use my_ai_gateway.Auth.{Sha256, HeaderMap}
use my_ai_gateway.Auth.VirtualKeys.{KeyDatabase}
use my_ai_gateway.Auth.Identity.{AuthIdentity, authorized_with_db}
use my_ai_gateway.Proxy.Attempt.{AttemptContext}
use my_ai_gateway.Proxy.Ordered.{Completion, proxy_ordered}
use my_ai_gateway.Proxy.Weighted.{Reply, proxy_weighted}
use my_ai_gateway.Proxy.Settlement.{
  SettlementManager, AdmissionError, saturated, is_closing, try_reserve,
}

-- A request: `request_id` and `started` are the id and the instant that the handler takes, `checked_at` is
-- the database's instant of the check of the key.
pub record ProxyRequest : Type 0 where
  pub body : String
  pub protocol : Protocol
  pub request_id : String
  pub started : ℕ
  pub headers : HeaderMap
  pub checked_at : ℕ

-- The parts of `AppState`, of its snapshot and of the environment that the handler uses: `api_key` is
-- GATEWAY_API_KEY, `database` the table of the virtual keys where there is a database.
pub record AppState (V : Type 0) : Type 0 where
  pub resolver : RouteResolver
  pub stream_config : StreamConfig
  pub api_key : Option String
  pub database : Option (KeyDatabase V)

-- What serves the request.
pub data Served : Type 0 where
  finished : Response → Served
  ordered : Completion → Served
  weighted : Reply → Served

-- A check rejects the request with a status, a code and a message, or passes a value on.
pub data Checked {ℓ} (A : Type ℓ) : Type ℓ where
  rejected : (status : ℕ) (code message : String) → Checked A
  passed : A → Checked A

infixl 5 ◌>>=◌
abbrev pub ◌>>=◌ {ℓ κ} : {A : Type ℓ} {B : Type κ} → Checked A → (A → Checked B) → Checked B
rejected status code message >>= f = rejected status code message
passed a >>= f = f a

unfoldable pub route_error_status : String → ℕ
route_error_status code =
    if code == "route_not_found"
    then 404
    else if code == "account_disabled" || code == "account_cooling_down"
    then 503
    else 422

abbrev pub of_payload {ℓ} : {V : Type ℓ} → Option V → Checked V
of_payload none = rejected 400 "invalid_json" "request body must be valid JSON"
of_payload (some value) = passed value

abbrev pub of_identity : Option AuthIdentity → Checked AuthIdentity
of_identity none = rejected 401 "unauthorized" "invalid or revoked virtual key"
of_identity (some identity) = passed identity

abbrev pub of_model : Option String → Checked String
of_model none = rejected 400 "missing_required_parameter" "missing required field: model"
of_model (some model) =
    if model == ""
    then rejected 400 "missing_required_parameter" "missing required field: model"
    else passed model

abbrev pub of_route : Resolved ResolvedRoute → Checked ResolvedRoute
of_route (ok route) = passed route
of_route (err error) = rejected (route_error_status error.code) error.code error.message

-- The permit, where there is a database.
abbrev pub reserve : Bool → SettlementManager → Option AdmissionError × SettlementManager
reserve false m = (none, m)
reserve true m = try_reserve m

abbrev pub admission_code : AdmissionError → String
admission_code saturated = "settlement_capacity_exhausted"
admission_code is_closing = "gateway_shutting_down"

-- What passes the checks.
pub record Accepted : Type 0 where
  pub identity : AuthIdentity
  pub model : String
  pub route : ResolvedRoute

module _ {V : Type 0} (json : Json V) where
  unfoldable pub requested_model : V → Option String
  requested_model payload = and_then (json.get "model" payload) json.as_str

  -- `is_streamed`.
  unfoldable pub requests_stream : V → Bool
  requests_stream payload = unwrap_or false (and_then (json.get "stream" payload) json.as_bool)

  module _ {D : Type 0} (sha : Sha256 D) {W : Type 0} (env : Environment W) (state : AppState V)
      (request : ProxyRequest) where
    -- The identity of a request for the model, and the table after the check.
    unfoldable pub authorize : Option String → Option AuthIdentity × Option (KeyDatabase V)
    unfolding authorized_with_db
    authorize model =
        authorized_with_db json sha state.api_key request.checked_at state.database request.headers
          model

    -- The checks before the reservation, in their order.
    unfoldable pub check : Checked Accepted
    unfolding requested_model route_error_status resolve_detailed authorize
    check = do
      payload ← of_payload (json.from_str request.body)
      identity ← of_identity (authorize (requested_model payload)).0
      model ← of_model (requested_model payload)
      route ← of_route (resolve_detailed env.test state.resolver request.protocol model)
      passed (record { identity = identity; model = model; route = route })

    -- The total timeout of the route replaces that of the process.
    unfoldable pub limits : ResolvedRoute → StreamConfig
    limits route = elim route.request_timeout_ms [
      | none ↦ state.stream_config
      | some millis ↦ record state.stream_config { total_timeout = millis * nanos_per_milli }
    ]

    unfoldable pub attempt_context : Accepted → AttemptContext
    unfolding limits
    attempt_context a = record {
      body = request.body;
      model = a.model;
      protocol = request.protocol;
      request_id = request.request_id;
      stream_config = limits a.route;
      started = request.started;
    }

    abbrev pub reject : ℕ → String → String → Served
    reject status code message =
        finished (data_plane_error request.protocol status code message request.request_id)

    abbrev ordered_reply : Completion × Live W → Served × Live W
    ordered_reply (completion, live) = (ordered completion, live)

    abbrev weighted_reply : Reply × Live W → Served × Live W
    weighted_reply (reply, live) = (weighted reply, live)

    unfoldable pub serve : Accepted → Live W → Served × Live W
    unfolding attempt_context proxy_ordered proxy_weighted
    serve a live =
        if a.route.strategy == "ordered_fallback"
        then ordered_reply
            (proxy_ordered env (attempt_context a) state.resolver.config a.route live)
        else weighted_reply
            (proxy_weighted env (attempt_context a) state.resolver.config a.route live)

    abbrev pub with_manager :
        SettlementManager → Served × Live W → Served × Live W × SettlementManager
    with_manager m (served, live) = (served, live, m)

    unfoldable pub admit :
        Accepted
        → Option AdmissionError × SettlementManager
        → Live W
        → Served × Live W × SettlementManager
    unfolding serve
    admit a (some reason, m) live =
        (reject 503 (admission_code reason) "stream accounting capacity is unavailable", live, m)
    admit a (none, m) live = with_manager m (serve a live)

    unfoldable pub after_check :
        Checked Accepted → SettlementManager → Live W → Served × Live W × SettlementManager
    unfolding admit try_reserve
    after_check (rejected status code message) m live = (reject status code message, live, m)
    after_check (passed a) m live = admit a (reserve (is_some state.database) m) live

    unfoldable pub proxy : SettlementManager → Live W → Served × Live W × SettlementManager
    unfolding check after_check
    proxy m live = after_check check m live

    unfoldable pub keys_of : Option V → Option (KeyDatabase V)
    unfolding authorize requested_model
    keys_of none = state.database
    keys_of (some payload) = (authorize (requested_model payload)).1

    -- The table of the virtual keys after the request: the check of the key writes its last use.
    unfoldable pub keys_after : Option (KeyDatabase V)
    unfolding keys_of
    keys_after = keys_of (json.from_str request.body)
