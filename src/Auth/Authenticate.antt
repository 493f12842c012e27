-- ===== src/Auth/Authenticate.antt =====
-- Authentication by a virtual key, of src/infra/db/virtual_keys.rs.
pub mod Rows
pub mod Admission
use my_ai_gateway.Prelude.{
  ℕ, Bool, not, ◌&&◌, ◌||◌, Option, none, some, String, find, retain, length, eqb, if◌then◌else◌,
}
use my_ai_gateway.Prelude.Sql.{SqlResult, ok, err, unavailable}
use my_ai_gateway.Proxy.Json.{Json}
use my_ai_gateway.Auth.{Sha256, hash_key}
use my_ai_gateway.Auth.Scopes.{allowed_models_allow, scope_allow, virtual_key_invoke_scope}
use my_ai_gateway.Auth.VirtualKeys.{VirtualKey, KeyDatabase, set_where, has_id, has_hash, usable}

-- What authentication returns: the id, the name and the prefix of the key.
abbrev pub KeyIdentity : Type 0
KeyIdentity = ℕ × String × String

module _ {V : Type 0} where
  unfoldable pub used_row : ℕ → VirtualKey V → VirtualKey V
  used_row now r = record r { last_used_at = some now }

  abbrev pub usable_id : ℕ → ℕ → VirtualKey V → Bool
  usable_id now id r = has_id id r && usable now r

  unfoldable pub grant : ℕ → KeyDatabase V → VirtualKey V → Option KeyIdentity × KeyDatabase V
  unfolding used_row usable
  grant now db row = (
    if eqb (length (retain (usable_id now row.id) db.keys)) 1
        then some (row.id, row.name, row.key_prefix)
        else none,
    set_where (usable_id now row.id) (used_row now) db,
  )

  module _ (json : Json V) where
    module _ {D : Type 0} (sha : Sha256 D) where
      -- `authenticate_virtual_key_with_identity_scope`.
      unfoldable pub authenticate_scope :
          ℕ
          → KeyDatabase V
          → String
          → Option String
          → String
          → SqlResult (Option KeyIdentity) × KeyDatabase V
      unfolding hash_key usable allowed_models_allow scope_allow grant
      authenticate_scope now db raw model required_scope =
          if not db.reachable
          then (err unavailable, db)
          else elim (find (λ r. has_hash (hash_key sha raw) r && usable now r) db.keys) [
            | none ↦ (ok none, db)
            | some row ↦
                if not (allowed_models_allow json row.allowed_models model)
                  || not (scope_allow json row.scopes required_scope)
                then (ok none, db)
                else (let (identity, used) = grant now db row in (ok identity, used))
          ]

      -- An error is recorded as an event, and returned.
      unfoldable pub authenticate_virtual_key_with_identity :
          ℕ
          → KeyDatabase V
          → String
          → Option String
          → SqlResult (Option KeyIdentity) × KeyDatabase V
      unfolding authenticate_scope virtual_key_invoke_scope
      authenticate_virtual_key_with_identity now db raw model =
          authenticate_scope now db raw model virtual_key_invoke_scope
