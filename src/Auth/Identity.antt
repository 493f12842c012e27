-- ===== src/Auth/Identity.antt =====
-- `AuthIdentity` and `authorized_with_db` of src/auth.rs.
pub mod Sources
use my_ai_gateway.Prelude.{
  ℕ, Bool, false, Option, none, some, String, ◌==◌, if◌then◌else◌, is_some, is_some_and,
}
use my_ai_gateway.Prelude.Sql.{SqlResult, ok, err}
use my_ai_gateway.Proxy.Json.{Json}
use my_ai_gateway.Auth.{Sha256, HeaderMap, supplied_key, key_digest, key_matches_digest}
use my_ai_gateway.Auth.VirtualKeys.{KeyDatabase}
use my_ai_gateway.Auth.Authenticate.{KeyIdentity, authenticate_virtual_key_with_identity}

pub data AuthIdentity : Type 0 where
  static_api_key : AuthIdentity
  virtual_key : (id : ℕ) (name prefix : String) → AuthIdentity

unfoldable pub virtual_key_id : AuthIdentity → Option ℕ
virtual_key_id static_api_key = none
virtual_key_id (virtual_key id name prefix) = some id

unfoldable pub default_client_source : AuthIdentity → String
default_client_source static_api_key = "static_api_key"
default_client_source (virtual_key id name prefix) = if name == "" then prefix else name

-- `.ok().flatten()` and the identity.
abbrev pub identity_of : SqlResult (Option KeyIdentity) → Option AuthIdentity
identity_of (err e) = none
identity_of (ok none) = none
identity_of (ok (some (id, name, prefix))) = some (virtual_key id name prefix)

module _ {D : Type 0} (sha : Sha256 D) where
  -- Whether the key is that of the environment.
  unfoldable pub matches_static : Option String → Option String → Bool
  unfolding key_matches_digest key_digest
  matches_static none supplied = false
  matches_static (some expected) supplied =
      is_some_and (λ key. key_matches_digest sha (key_digest sha expected) key) supplied

module _ {V : Type 0} (json : Json V) {D : Type 0} (sha : Sha256 D) where
  unfoldable pub by_database :
      ℕ
      → KeyDatabase V
      → Option String
      → Option String
      → Option AuthIdentity × Option (KeyDatabase V)
  unfolding authenticate_virtual_key_with_identity
  by_database now db none model = (none, some db)
  by_database now db (some key) model =
      let (result, after) = authenticate_virtual_key_with_identity json sha now db key model in
      (identity_of result, some after)

  -- `api_key` is the environment's GATEWAY_API_KEY.
  unfoldable pub authorized_with_db :
      Option String
      → ℕ
      → Option (KeyDatabase V)
      → HeaderMap
      → Option String
      → Option AuthIdentity × Option (KeyDatabase V)
  unfolding matches_static by_database supplied_key
  authorized_with_db api_key now database headers model =
      if matches_static sha api_key (supplied_key headers)
      then (some static_api_key, database)
      else elim database [
        | none ↦ (if is_some api_key then none else some static_api_key, none)
        | some db ↦ by_database now db (supplied_key headers) model
      ]
