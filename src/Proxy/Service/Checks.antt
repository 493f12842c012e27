-- ===== src/Proxy/Service/Checks.antt =====
-- What the checks of `proxy` of src/proxy/service.rs guarantee.
use my_ai_gateway.Prelude.{
  ℕ, ◌+◌, ◌-◌, Bool, true, false, ◌≡◌, refl, Option, none, some, is_some, String, ◌==◌, if-elim,
  ltb→lt, ◌<◌, ltb, arith, subst, sym,
}
use my_ai_gateway.Domain.Routing.{ResolvedRoute, Resolved, ok, err}
use my_ai_gateway.Domain.Routing.Runtime.{resolve_detailed}
use my_ai_gateway.Proxy.Environment.{Environment, Live}
use my_ai_gateway.Proxy.Json.{Json}
use my_ai_gateway.Auth.{Sha256}
use my_ai_gateway.Auth.Identity.{AuthIdentity}
use my_ai_gateway.Proxy.Settlement.{
  SettlementManager, AdmissionError, Reachable, saturated, is_closing, try_reserve,
}
use my_ai_gateway.Proxy.Settlement.Reserve.{try_reserve-Reachable}
use my_ai_gateway.Proxy.Service.{
  ProxyRequest, AppState, Served, Checked, rejected, passed, ◌>>=◌, of_payload, of_identity,
  of_model, of_route, reserve, admission_code, Accepted, requested_model, check, reject, serve,
  with_manager, authorize, admit, after_check, proxy,
}

of_payload-passed :
    {V : Type 0} (o : Option V) (v : V) → Path (Checked V) (of_payload o) (passed v) → o ≡ some v
of_payload-passed none v h = absurd (cc)
of_payload-passed (some w) v h = ground arith

of_identity-passed :
    (o : Option AuthIdentity) (v : AuthIdentity)
    → Path (Checked AuthIdentity) (of_identity o) (passed v)
    → o ≡ some v
of_identity-passed none v h = absurd (cc)
of_identity-passed (some w) v h = ground arith

of_model-passed :
    (o : Option String) (v : String)
    → Path (Checked String) (of_model o) (passed v)
    → (o ≡ some v) × ((v == "") ≡ false)
of_model-passed none v h = absurd (cc)
of_model-passed (some w) v h = ground (arith, h)

of_route-passed :
    (r : Resolved ResolvedRoute) (v : ResolvedRoute)
    → Path (Checked ResolvedRoute) (of_route r) (passed v)
    → Path (Resolved ResolvedRoute) r (ok v)
of_route-passed (err e) v h = absurd (cc)
of_route-passed (ok w) v h = ground arith

-- With a database a permit was available and is held; without one nothing is.
pub data Holds (m : SettlementManager) : Bool → SettlementManager → Type 0 where
  without_db : Holds m false m
  one_permit :
      m.closing ≡ false
      → 0 < m.permits
      → Holds m true (record m { permits = m.permits - 1; admitted = m.admitted + 1 })

-- How a reservation ends.
data Reserves (m : SettlementManager) (with_db : Bool)
    : Option AdmissionError × SettlementManager → Type 0 where
  denied : (reason : AdmissionError) → Reserves m with_db (some reason, m)
  granted : {m' : SettlementManager} → Holds m with_db m' → Reserves m with_db (none, m')

reserve-Reserves : (m : SettlementManager) (with_db : Bool) → Reserves m with_db (reserve with_db m)
unfolding try_reserve
reserve-Reserves m false = granted without_db
reserve-Reserves m true =
    if-elim (Reserves m true) m.closing (λ _. denied is_closing)
      (λ running.
        if-elim (Reserves m true) (ltb 0 m.permits)
          (λ room. granted (one_permit running (ltb→lt 0 m.permits room))) (λ _. denied saturated))

module _ {V : Type 0} (json : Json V) {D : Type 0} (sha : Sha256 D) {W : Type 0}
    (env : Environment W) (state : AppState V) (request : ProxyRequest) where
  -- The body is JSON that names a model, the request is authorized for it, and it has a route.
  pub record IsAccepted (a : Accepted) : Type 0 where
    payload : V
    is_json : json.from_str request.body ≡ some payload
    is_authorized :
        (authorize json sha env state request (requested_model json payload)).0 ≡ some a.identity
    names_model : requested_model json payload ≡ some a.model
    not_empty : (a.model == "") ≡ false
    has_route :
        Path
          (Resolved ResolvedRoute)
          (resolve_detailed env.test state.resolver request.protocol a.model)
          (ok a.route)

  -- The ends of a request that begins with the manager and the state.
  pub data Ends (m : SettlementManager) (live : Live W)
      : Served × Live W × SettlementManager → Type 0 where
    refused :
        (status : ℕ) (code message : String)
        → Ends m live (reject json sha env state request status code message, live, m)
    served :
        (a : Accepted) (m' : SettlementManager)
        → IsAccepted a
        → Holds m (is_some state.database) m'
        → Ends m live
            (with_manager json sha env state request m' (serve json sha env state request a live))

  -- A check that passes is one of an accepted request.
  data Passes : Checked Accepted → Type 0 where
    fails : (status : ℕ) (code message : String) → Passes (rejected status code message)
    passes : (a : Accepted) → IsAccepted a → Passes (passed a)

  bind :
      {A : Type 0} (c : Checked A) (f : A → Checked Accepted)
      → ((a : A) → Path (Checked A) c (passed a) → Passes (f a))
      → Passes (c >>= f)
  bind (rejected status code message) f k = fails status code message
  bind (passed a) f k = k a refl

  check-Passes : Passes (check json sha env state request)
  unfolding check requested_model resolve_detailed authorize
  check-Passes = bind (of_payload (json.from_str request.body)) _ λ payload read.
      bind (of_identity (authorize json sha env state request (requested_model json payload)).0) _
        λ identity known. bind (of_model (requested_model json payload)) _ λ model named.
          bind (of_route (resolve_detailed env.test state.resolver request.protocol model)) _
            λ route found.
              passes (record { identity = identity; model = model; route = route })
                (record {
                  payload = payload;
                  is_json = of_payload-passed (json.from_str request.body) payload read;
                  is_authorized =
                      of_identity-passed
                        (authorize json sha env state request (requested_model json payload)).0
                        identity known;
                  names_model = (of_model-passed (requested_model json payload) model named).0;
                  not_empty = (of_model-passed (requested_model json payload) model named).1;
                  has_route = of_route-passed _ route found;
                })

  admit-Ends :
      (a : Accepted) (m : SettlementManager) (live : Live W)
      {r : Option AdmissionError × SettlementManager}
      → IsAccepted a
      → Reserves m (is_some state.database) r
      → Ends m live (admit json sha env state request a r live)
  unfolding admit
  admit-Ends a m live h (denied reason) =
      refused 503 (admission_code reason) "stream accounting capacity is unavailable"
  admit-Ends a m live h (granted {m' = m'} held) = served a m' h held

  after_check-Ends :
      (c : Checked Accepted) (m : SettlementManager) (live : Live W)
      → Passes c
      → Ends m live (after_check json sha env state request c m live)
  unfolding after_check
  after_check-Ends c m live (fails status code message) = refused status code message
  after_check-Ends c m live (passes a h) =
      admit-Ends a m live h (reserve-Reserves m (is_some state.database))

  -- A request ends in one of two ways. Either it is rejected with a status, a code and a message, and neither
  -- the settlement permits nor the health registry nor the world has changed, so no upstream was
  -- called. Or a policy serves it, and then its body is JSON that names a model that is not empty, it is
  -- authorized for that model, the route is the one that routing resolves, and, where there is a
  -- database, the manager was not closing and one permit is held for it.
  pub proxy-Ends :
      (m : SettlementManager) (live : Live W)
      → Ends m live (proxy json sha env state request m live)
  unfolding proxy
  proxy-Ends m live = after_check-Ends (check json sha env state request) m live check-Passes

  admit-manager :
      (a : Accepted) (r : Option AdmissionError × SettlementManager) (live : Live W)
      → (admit json sha env state request a r live).2 ≡ r.1
  unfolding admit
  admit-manager a (none, m) live = refl
  admit-manager a (some reason, m) live = refl

  reserve-Reachable :
      {capacity writes : ℕ} (m : SettlementManager) (with_db : Bool)
      → Reachable capacity writes m
      → Reachable capacity writes (reserve with_db m).1
  reserve-Reachable m false r = r
  reserve-Reachable m true r = try_reserve-Reachable m r

  after_check-Reachable :
      {capacity writes : ℕ} (c : Checked Accepted) (m : SettlementManager) (live : Live W)
      → Reachable capacity writes m
      → Reachable capacity writes (after_check json sha env state request c m live).2
  unfolding after_check
  after_check-Reachable (rejected status code message) m live r = r
  after_check-Reachable {capacity = capacity} {writes = writes} (passed a) m live r =
      subst (Reachable capacity writes)
        (sym (admit-manager a (reserve (is_some state.database) m) live))
        (reserve-Reachable m (is_some state.database) r)

  -- A request, however it ends, leaves the settlement manager in a state that the manager's own actions lead
  -- to from its creation, if it finds the manager in such a state.
  pub proxy-Reachable :
      {capacity writes : ℕ} (m : SettlementManager) (live : Live W)
      → Reachable capacity writes m
      → Reachable capacity writes (proxy json sha env state request m live).2
  unfolding proxy
  proxy-Reachable m live r = after_check-Reachable (check json sha env state request) m live r
