-- ===== src/Proxy/Service/Keys.antt =====
-- A request by a withdrawn virtual key, of src/proxy/service.rs and src/auth.rs.
use my_ai_gateway.Prelude.{
  ℕ, ◌≤◌, false, ◌≡◌, refl, Option, none, some, String, sym, ap, subst, Option-cases, inl, inr,
}
use my_ai_gateway.Proxy.Environment.{Environment, Live}
use my_ai_gateway.Proxy.Json.{Json}
use my_ai_gateway.Auth.{Sha256, HeaderMap, supplied_key, hash_key}
use my_ai_gateway.Auth.VirtualKeys.{KeyDatabase}
use my_ai_gateway.Auth.VirtualKeys.Lapsed.{HasLapsed, Refused, no_key, no_answer, HasLapsed-Refused}
use my_ai_gateway.Auth.Authenticate.{KeyIdentity}
use my_ai_gateway.Prelude.Sql.{SqlResult}
use my_ai_gateway.Auth.Identity.{
  AuthIdentity, identity_of, matches_static, by_database, authorized_with_db,
}
use my_ai_gateway.Proxy.Settlement.{SettlementManager}
use my_ai_gateway.Proxy.Service.{
  ProxyRequest, AppState, Served, requested_model, authorize, check, reject, after_check, proxy,
  keys_of, keys_after,
}

module _ {V : Type 0} (json : Json V) {D : Type 0} (sha : Sha256 D) where
  lapsed_identity :
      (db : KeyDatabase V) {r : SqlResult (Option KeyIdentity) × KeyDatabase V}
      → Refused db r
      → ◌≡◌ {A = Option AuthIdentity × Option (KeyDatabase V)}
          (identity_of r.0, some r.1)
          (none, some db)
  lapsed_identity db no_key = refl
  lapsed_identity db no_answer = refl

  by_lapsed :
      {since : ℕ} (now : ℕ) (db : KeyDatabase V) (raw : String) (model : Option String)
      → since ≤ now
      → HasLapsed (hash_key sha raw) since db.keys
      → by_database json sha now db (some raw) model ≡ (none, some db)
  unfolding by_database
  by_lapsed now db raw model le h =
      lapsed_identity db (HasLapsed-Refused json sha now db raw model le h)

  authorized-lapsed :
      (api_key : Option String) {since : ℕ} (now : ℕ) (db : KeyDatabase V) (headers : HeaderMap)
      (raw : String) (model : Option String)
      → supplied_key headers ≡ some raw
      → matches_static sha api_key (some raw) ≡ false
      → since ≤ now
      → HasLapsed (hash_key sha raw) since db.keys
      → authorized_with_db json sha api_key now (some db) headers model ≡ (none, some db)
  unfolding authorized_with_db
  authorized-lapsed api_key now db headers raw model given other le h =
      rw (given, other) (by_lapsed now db raw model le h)

  module _ {W : Type 0} (env : Environment W) (state : AppState V) (request : ProxyRequest) where
    -- A rejection of a body that is not JSON, or of the key. Nothing has changed.
    pub data Denied (m : SettlementManager) (live : Live W)
        : Served × Live W × SettlementManager → Type 0 where
      not_json :
          json.from_str request.body ≡ none
          → Denied m live (
            reject json sha env state request 400 "invalid_json" "request body must be valid JSON",
            live,
            m,
          )
      no_identity : Denied m live (
        reject json sha env state request 401 "unauthorized" "invalid or revoked virtual key",
        live,
        m,
      )

    -- A request by a virtual key that has lapsed at or before the instant of its check, and that is not
    -- the key of the environment, is rejected with status 401, or with 400 if its body is not JSON. The
    -- settlement manager, the health registry and the world have not changed, so no upstream was called,
    -- and the table of the keys has not changed.
    pub proxy-Denied :
        (since : ℕ) (db : KeyDatabase V) (raw : String) (m : SettlementManager) (live : Live W)
        → state.database ≡ some db
        → supplied_key request.headers ≡ some raw
        → matches_static sha state.api_key (some raw) ≡ false
        → HasLapsed (hash_key sha raw) since db.keys
        → since ≤ request.checked_at
        → Denied m live (proxy json sha env state request m live)
          × (keys_after json sha env state request ≡ some db)
    unfolding proxy check keys_after keys_of after_check authorize
    proxy-Denied since db raw m live at given other h le =
        elim (Option-cases (json.from_str request.body)) [
          | inl e ↦ (rw e (not_json e), rw e at)
          | inr (payload, e) ↦ (
            rw (e, denied (requested_model json payload)) no_identity,
            rw e (
                ap (λ (r : Option AuthIdentity × Option (KeyDatabase V)). r.1)
                  (denied (requested_model json payload))),
          )
        ]
      where
        denied :
            (model : Option String) → authorize json sha env state request model ≡ (none, some db)
        denied model =
            subst
              (λ o.
                authorized_with_db json sha state.api_key request.checked_at o request.headers model
                ≡ (none, some db))
              (sym at)
              (authorized-lapsed state.api_key request.checked_at db request.headers raw model given
                other le h)
