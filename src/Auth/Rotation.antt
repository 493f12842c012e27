-- ===== src/Auth/Rotation.antt =====
-- The rotation of a virtual key, of src/infra/db/virtual_keys.rs.
pub mod Outcome
pub mod Contract
use my_ai_gateway.Prelude.{
  ℕ, ◌+◌, false, not, ◌||◌, Option, none, some, String, List, map, find, ltb, leb, eqb,
  if◌then◌else◌, is_some, is_some_and, or_else, unwrap_or,
}
use mathlib.Core.Option
use my_ai_gateway.Prelude.Sql.{SqlError, SqlResult, ok, err, unavailable}
use my_ai_gateway.Proxy.Json.{Json}
use my_ai_gateway.Auth.Scopes.{scopes_json}
use my_ai_gateway.Auth.VirtualKeys.{
  VirtualKey, KeyDatabase, VirtualKeyMaterial, set_where, has_id, insert_virtual_key, new_row,
}

pub record VirtualKeyRotationOptions : Type 0 where
  pub overlap : ℕ
  pub expires_at : Option ℕ
  pub name : Option String
  pub allowed_models : Option (List String)
  pub scopes : Option (List String)
  pub key_group : Option (Option String)

pub record VirtualKeyRotation : Type 0 where
  pub old_id : ℕ
  pub new_id : ℕ
  pub key_prefix : String
  pub key : String
  pub overlap_until : Option ℕ

pub data VirtualKeyError : Type 0 where
  sql : SqlError → VirtualKeyError
  not_found : VirtualKeyError
  conflict validation : String → VirtualKeyError

pub data Rotated : Type 0 where
  rotated : VirtualKeyRotation → Rotated
  failed : VirtualKeyError → Rotated

-- An overlap of at most a day.
unfoldable pub max_overlap : ℕ
max_overlap = 86_400_000_000_000

-- An overlap of at most a day is one that `chrono` can express.
unfoldable pub overlap_end : ℕ → ℕ → Option ℕ
overlap_end utc overlap = if eqb overlap 0 then none else some (utc + overlap)

module _ {V : Type 0} where
  -- The end of a rotation for the old row: without an overlap it is disabled and revoked.
  unfoldable pub replaced_row : ℕ → ℕ → Option ℕ → VirtualKey V → VirtualKey V
  replaced_row now new_id overlap_until r = record r {
    replaced_by_id = some new_id;
    overlap_until = overlap_until;
    enabled = if is_some overlap_until then r.enabled else false;
    revoked_at = if is_some overlap_until then r.revoked_at else or_else r.revoked_at (some now);
    updated_at = now;
  }

  -- The checks of the old row, at the instant of the process.
  unfoldable pub rotation_conflict : ℕ → VirtualKey V → Option String
  rotation_conflict utc old =
      if not old.enabled || is_some old.revoked_at
      then some "virtual key is disabled or revoked"
      else if is_some_and (λ t. leb t utc) old.expires_at
      then some "virtual key is expired"
      else if is_some old.replaced_by_id
      then some "virtual key has already been rotated"
      else none

  -- The transaction is rolled back where the insertion fails, the sequence is not.
  unfoldable pub commit_rotation :
      ℕ
      → KeyDatabase V
      → ℕ
      → VirtualKeyMaterial
      → Option ℕ
      → SqlResult ℕ × KeyDatabase V
      → Rotated × KeyDatabase V
  unfolding replaced_row
  commit_rotation now db id material overlap_until (err e, inserted) =
      (failed (sql e), record db { next_id = inserted.next_id })
  commit_rotation now db id material overlap_until (ok new_id, inserted) = (
    rotated (record {
      old_id = id;
      new_id = new_id;
      key_prefix = material.prefix;
      key = material.raw;
      overlap_until = overlap_until;
    }),
    set_where (has_id id) (replaced_row now new_id overlap_until) inserted,
  )

  module _ (json : Json V) where
    unfoldable pub rotated_key :
        ℕ
        → VirtualKeyRotationOptions
        → VirtualKeyMaterial
        → Option String
        → VirtualKey V
        → ℕ
        → VirtualKey V
    unfolding scopes_json new_row
    rotated_key now options material key_ciphertext old =
        new_row now (unwrap_or old.name options.name)
          (unwrap_or old.allowed_models
            (Option.map (λ models. json.array (map json.string models)) options.allowed_models))
          (unwrap_or old.scopes (Option.map (scopes_json json) options.scopes))
          (or_else options.expires_at old.expires_at)
          (or_else (unwrap_or none options.key_group) old.key_group) "rotated" material
          key_ciphertext

    unfoldable pub rotate_found :
        (utc_check utc_overlap now : ℕ)
        → KeyDatabase V
        → ℕ
        → VirtualKeyRotationOptions
        → VirtualKeyMaterial
        → Option String
        → VirtualKey V
        → Rotated × KeyDatabase V
    unfolding rotation_conflict commit_rotation insert_virtual_key rotated_key overlap_end
    rotate_found utc_check utc_overlap now db id options material key_ciphertext old =
        elim (rotation_conflict utc_check old) [
          | some message ↦ (failed (conflict message), db)
          | none ↦
              commit_rotation now db id material (overlap_end utc_overlap options.overlap)
                (insert_virtual_key (rotated_key now options material key_ciphertext old) db)
        ]

    -- `utc_check` and `utc_overlap` are the instants that the process reads, to the microsecond that the
    -- columns hold; `now` is the database's.
    unfoldable pub rotate_virtual_key_with_material :
        (utc_check utc_overlap now : ℕ)
        → KeyDatabase V
        → ℕ
        → VirtualKeyRotationOptions
        → VirtualKeyMaterial
        → Option String
        → Rotated × KeyDatabase V
    unfolding rotate_found max_overlap
    rotate_virtual_key_with_material utc_check utc_overlap now db id options material
          key_ciphertext =
        if ltb max_overlap options.overlap
        then (failed (validation "overlap window must be at most 86400 seconds"), db)
        else if not db.reachable
        then (failed (sql unavailable), db)
        else elim (find (has_id id) db.keys) [
          | none ↦ (failed not_found, db)
          | some old ↦
              rotate_found utc_check utc_overlap now db id options material key_ciphertext old
        ]
