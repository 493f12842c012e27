-- ===== src/Auth/VirtualKeys.antt =====
-- The table of virtual keys, and the transactions on it, of src/infra/db/virtual_keys.rs. `FOR UPDATE`
-- makes each transaction one step. Instants are nanoseconds.
pub mod Table
pub mod Lapsed
pub mod Insert
pub mod Lookup
use my_ai_gateway.Prelude.{
  ℕ, ◌+◌, Bool, true, false, not, ◌&&◌, ◌||◌, Option, none, some, String, ◌==◌, List, [], ◌∷◌, map,
  find, any, retain, length, ltb, leb, eqb, if◌then◌else◌, is_some, is_some_and, or_else, unwrap_or,
}
use mathlib.Core.Option
use my_ai_gateway.Prelude.Sql.{
  SqlError, SqlResult, ok, err, row_not_found, unavailable, constraint_violation,
}
use my_ai_gateway.Proxy.Json.{Json}
use my_ai_gateway.Auth.{Sha256, hash_key}
use my_ai_gateway.Auth.Scopes.{
  scopes_json, allowed_models_allow, scope_allow, virtual_key_invoke_scope,
}

-- A row. `key_recoverable` of the source's record is that there is a ciphertext.
pub record VirtualKey (V : Type 0) : Type 0 where
  pub id : ℕ
  pub name : String
  pub key_prefix : String
  pub key_hash : String
  pub key_ciphertext : Option String
  pub allowed_models : V
  pub scopes : V
  pub key_group : Option String
  pub enabled : Bool
  pub created_at : ℕ
  pub updated_at : ℕ
  pub last_used_at : Option ℕ
  pub expires_at : Option ℕ
  pub revoked_at : Option ℕ
  pub replaced_by_id : Option ℕ
  pub overlap_until : Option ℕ
  pub origin : String

-- `reachable` is whether queries are answered, `next_id` the sequence of the ids.
pub record KeyDatabase (V : Type 0) : Type 0 where
  pub reachable : Bool
  pub keys : List (VirtualKey V)
  pub next_id : ℕ

pub record VirtualKeyMaterial : Type 0 where
  pub raw : String
  pub prefix : String
  pub hash : String

unfoldable pub known_origin : String → Bool
known_origin origin = origin == "created" || origin == "static_migration" || origin == "rotated"

module _ {V : Type 0} where
  -- `UPDATE … WHERE`.
  abbrev pub update_where :
      (VirtualKey V → Bool)
      → (VirtualKey V → VirtualKey V)
      → List (VirtualKey V)
      → List (VirtualKey V)
  update_where p f = map (λ r. if p r then f r else r)

  abbrev pub set_where :
      (VirtualKey V → Bool) → (VirtualKey V → VirtualKey V) → KeyDatabase V → KeyDatabase V
  set_where p f db = record db { keys = update_where p f db.keys }

  abbrev pub has_id : ℕ → VirtualKey V → Bool
  has_id id r = eqb r.id id

  abbrev pub has_hash : String → VirtualKey V → Bool
  has_hash hash r = r.key_hash == hash

  -- The condition of the queries that authenticate, at an instant.
  unfoldable pub usable : ℕ → VirtualKey V → Bool
  usable now r =
      r.enabled
      && not (is_some r.revoked_at)
      && (not (is_some r.expires_at) || is_some_and (λ t. ltb now t) r.expires_at)
      && (not (is_some r.replaced_by_id) || is_some_and (λ t. ltb now t) r.overlap_until)

  unfoldable pub get_virtual_key : KeyDatabase V → ℕ → SqlResult (Option (VirtualKey V))
  get_virtual_key db id = if db.reachable then ok (find (has_id id) db.keys) else err unavailable

  -- `INSERT … RETURNING id`. The hash is unique, the origin one of three, and a failed statement has
  -- taken an id too.
  unfoldable pub insert_virtual_key :
      (ℕ → VirtualKey V) → KeyDatabase V → SqlResult ℕ × KeyDatabase V
  unfolding known_origin
  insert_virtual_key new db =
      let row : VirtualKey V = new db.next_id in
      if any (has_hash row.key_hash) db.keys || not (known_origin row.origin)
      then (err constraint_violation, record db { next_id = db.next_id + 1 })
      else (ok db.next_id, record db { keys = row ∷ db.keys; next_id = db.next_id + 1 })

  -- `revoked_at` of a row that was not revoked is set, the condition says that it was not.
  unfoldable pub revoked_row : ℕ → VirtualKey V → VirtualKey V
  revoked_row now r = record r {
    enabled = false;
    revoked_at = or_else r.revoked_at (some now);
    updated_at = now;
  }

  unfoldable pub revocable : ℕ → VirtualKey V → Bool
  revocable id r = has_id id r && r.enabled && not (is_some r.revoked_at)

  unfoldable pub revoke_virtual_key : ℕ → KeyDatabase V → ℕ → SqlResult Bool × KeyDatabase V
  unfolding revoked_row revocable
  revoke_virtual_key now db id =
      if db.reachable
      then (
        ok (ltb 0 (length (retain (revocable id) db.keys))),
        set_where (revocable id) (revoked_row now) db,
      )
      else (err unavailable, db)

  -- A row that is inserted: the columns that the statement does not name have their defaults.
  unfoldable pub new_row :
      ℕ
      → String
      → V
      → V
      → Option ℕ
      → Option String
      → String
      → VirtualKeyMaterial
      → Option String
      → ℕ
      → VirtualKey V
  new_row now name allowed_models scopes expires_at key_group origin material key_ciphertext id =
      record {
        id = id;
        name = name;
        key_prefix = material.prefix;
        key_hash = material.hash;
        key_ciphertext = key_ciphertext;
        allowed_models = allowed_models;
        scopes = scopes;
        key_group = key_group;
        enabled = true;
        created_at = now;
        updated_at = now;
        last_used_at = none;
        expires_at = expires_at;
        revoked_at = none;
        replaced_by_id = none;
        overlap_until = none;
        origin = origin;
      }

  module _ (json : Json V) where
    abbrev pub with_raw : String → SqlResult ℕ → SqlResult (ℕ × String)
    with_raw raw (ok id) = ok (id, raw)
    with_raw raw (err e) = err e

    unfoldable pub create_virtual_key_with_material :
        ℕ
        → KeyDatabase V
        → String
        → List String
        → List String
        → Option ℕ
        → Option String
        → String
        → VirtualKeyMaterial
        → Option String
        → SqlResult (ℕ × String) × KeyDatabase V
    unfolding scopes_json new_row insert_virtual_key
    create_virtual_key_with_material now db name allowed_models scopes expires_at key_group origin
          material key_ciphertext =
        if db.reachable
        then (let (id, inserted) =
              insert_virtual_key
                (new_row now name (json.array (map json.string allowed_models))
                  (scopes_json json scopes) expires_at key_group origin material key_ciphertext)
                db in
            (with_raw material.raw id, inserted))
        else (err unavailable, db)
