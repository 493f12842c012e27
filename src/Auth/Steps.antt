-- ===== src/Auth/Steps.antt =====
-- The operations on the table of src/infra/db/virtual_keys.rs in any order, and the keys that none of
-- them brings back.
pub mod Invariant
pub mod Withdrawn
use my_ai_gateway.Prelude.{
  find-passes, find-any, ℕ, ◌+◌, ◌≤◌, Bool, true, false, not, ◌&&◌, ◌||◌, ◌≡◌, refl, Option, none,
  some, String, List, ◌∷◌, find, any, All, if◌then◌else◌, Bool-cases, Option-cases, inl, inr, arith,
  if-elim, subst, sym, map, ltb, is_some, unwrap_or, eqb, is_some_and,
}
use my_ai_gateway.Prelude.Sql.{SqlResult, ok, err, SqlError, constraint_violation}
use my_ai_gateway.Proxy.Json.{Json}
use my_ai_gateway.Auth.{Sha256, hash_key}
use my_ai_gateway.Auth.Scopes.{
  scopes_json, allowed_models_allow, scope_allow, virtual_key_invoke_scope,
}
use my_ai_gateway.Auth.VirtualKeys.{
  VirtualKey, KeyDatabase, VirtualKeyMaterial, has_id, has_hash, usable, insert_virtual_key,
  new_row, known_origin, revoked_row, revocable, revoke_virtual_key,
  create_virtual_key_with_material, set_where,
}
use my_ai_gateway.Auth.Rotation.{
  VirtualKeyError, sql, not_found, conflict, max_overlap, VirtualKeyRotationOptions,
  VirtualKeyRotation, Rotated, rotated, failed, rotation_conflict, commit_rotation, rotate_found,
  rotated_key, rotate_virtual_key_with_material, overlap_end, replaced_row,
}
use my_ai_gateway.Auth.Authenticate.{
  KeyIdentity, used_row, usable_id, authenticate_virtual_key_with_identity, authenticate_scope,
  grant,
}
use my_ai_gateway.Auth.VirtualKeys.Table.{IsWellFormed, same_id, same_hash}
use my_ai_gateway.Auth.VirtualKeys.Lapsed.{
  HasLapsed, Refused, HasLapsed-Refused, HasLapsed-used, HasLapsed-revoked, HasLapsed-inserted,
  HasLapsed-replaced, revoked-HasLapsed,
}
use my_ai_gateway.Auth.VirtualKeys.Insert.{Inserted, refused, added, insert_virtual_key-Inserted}
use my_ai_gateway.Auth.Rotation.Outcome.{Ends, fails, collides, succeeds, rotate-Ends}

module _ {V : Type 0} (json : Json V) {D : Type 0} (sha : Sha256 D) where
  -- One operation, successful or not, at any instants.
  pub data Step (db : KeyDatabase V) : KeyDatabase V → Type 0 where
    creates :
        (now : ℕ) (name : String) (models scopes : List String) (expires_at : Option ℕ)
        (key_group : Option String) (origin : String) (material : VirtualKeyMaterial)
        (key_ciphertext : Option String)
        → Step db
            (create_virtual_key_with_material json now db name models scopes expires_at key_group
              origin material key_ciphertext).1
    revokes : (now id : ℕ) → Step db (revoke_virtual_key now db id).1
    rotates :
        (utc_check utc_overlap now id : ℕ) (options : VirtualKeyRotationOptions)
        (material : VirtualKeyMaterial) (key_ciphertext : Option String)
        → Step db
            (rotate_virtual_key_with_material json utc_check utc_overlap now db id options material
              key_ciphertext).1
    authenticates :
        (now : ℕ) (raw : String) (model : Option String)
        → Step db (authenticate_virtual_key_with_identity json sha now db raw model).1

  pub data Steps (db : KeyDatabase V) : KeyDatabase V → Type 0 where
    still : Steps db db
    next : {mid later : KeyDatabase V} → Steps db mid → Step mid later → Steps db later

module _ {V : Type 0} where
  -- What an operation can do to the table.
  pub data Change (db : KeyDatabase V) : KeyDatabase V → Type 0 where
    unchanged : Change db db
    id_taken : Change db (record db { next_id = db.next_id + 1 })
    used : (now id : ℕ) → Change db (set_where (usable_id now id) (used_row now) db)
    revoked : (now id : ℕ) → Change db (set_where (revocable id) (revoked_row now) db)
    inserted :
        (new : VirtualKey V)
        → new.id ≡ db.next_id
        → any (has_hash new.key_hash) db.keys ≡ false
        → Change db (record db { keys = new ∷ db.keys; next_id = db.next_id + 1 })
    replaced :
        (utc now id new_id : ℕ) (overlap_until : Option ℕ) (old new : VirtualKey V)
        → new.id ≡ db.next_id
        → any (has_hash new.key_hash) db.keys ≡ false
        → find (has_id id) db.keys ≡ some old
        → rotation_conflict utc old ≡ none
        → Change db (
            set_where
              (has_id id)
              (replaced_row now new_id overlap_until)
              (record db { keys = new ∷ db.keys; next_id = db.next_id + 1 }))

  revoke-Change :
      (now : ℕ) (db : KeyDatabase V) (id : ℕ) → Change db (revoke_virtual_key now db id).1
  unfolding revoke_virtual_key
  revoke-Change now db id =
      if-elim (λ (r : SqlResult Bool × KeyDatabase V). Change db r.1) db.reachable
        (λ _. revoked now id) (λ _. unchanged)

  module _ (json : Json V) where
    create-Change :
        (now : ℕ) (db : KeyDatabase V) (name : String) (models scopes : List String)
        (expires_at : Option ℕ) (key_group : Option String) (origin : String)
        (material : VirtualKeyMaterial) (key_ciphertext : Option String)
        → Change db
            (create_virtual_key_with_material json now db name models scopes expires_at key_group
              origin material key_ciphertext).1
    unfolding create_virtual_key_with_material new_row
    create-Change now db name models scopes expires_at key_group origin material key_ciphertext =
        let new : ℕ → VirtualKey V =
          new_row now name (json.array (map json.string models)) (scopes_json json scopes)
            expires_at key_group origin material key_ciphertext in
        if-elim (λ (r : SqlResult (ℕ × String) × KeyDatabase V). Change db r.1) db.reachable
          (λ _. of_insertion (insert_virtual_key new db) (insert_virtual_key-Inserted new db))
          (λ _. unchanged)
      where
        of_insertion :
            (r : SqlResult ℕ × KeyDatabase V)
            → Inserted
                (new_row now name
                  (json.array (map json.string models))
                  (scopes_json json scopes)
                  expires_at
                  key_group
                  origin
                  material
                  key_ciphertext)
                db
                r
            → Change db r.1
        of_insertion r refused = id_taken
        of_insertion r (added fresh) =
            inserted
              (new_row now name (json.array (map json.string models)) (scopes_json json scopes)
                expires_at key_group origin material key_ciphertext db.next_id)
              refl fresh

    rotate-Change :
        (utc_check utc_overlap now : ℕ) (db : KeyDatabase V) (id : ℕ)
        (options : VirtualKeyRotationOptions) (material : VirtualKeyMaterial)
        (key_ciphertext : Option String) {r : Rotated × KeyDatabase V}
        → Ends json utc_check utc_overlap now db id options material key_ciphertext r
        → Change db r.1
    unfolding rotated_key new_row
    rotate-Change utc_check utc_overlap now db id options material key_ciphertext (fails e) =
        unchanged
    rotate-Change utc_check utc_overlap now db id options material key_ciphertext (collides e) =
        id_taken
    rotate-Change utc_check utc_overlap now db id options material key_ciphertext
          (succeeds old found free fresh) =
        replaced utc_check now id db.next_id (overlap_end utc_overlap options.overlap) old
          (rotated_key json now options material key_ciphertext old db.next_id) refl fresh found
          free

    module _ {D : Type 0} (sha : Sha256 D) where
      authenticate-Change :
          (now : ℕ) (db : KeyDatabase V) (raw : String) (model : Option String)
          → Change db (authenticate_virtual_key_with_identity json sha now db raw model).1
      unfolding authenticate_virtual_key_with_identity authenticate_scope grant
      authenticate-Change now db raw model =
          if-elim (λ (r : SqlResult (Option KeyIdentity) × KeyDatabase V). Change db r.1)
            (not db.reachable) (λ _. unchanged)
            (λ _.
              elim (Option-cases
                (find (λ r. has_hash (hash_key sha raw) r && usable now r) db.keys)) [
                  | inl e ↦ rw e unchanged
                  | inr (row, e) ↦ rw e (
                      if-elim
                        (λ (r : SqlResult (Option KeyIdentity) × KeyDatabase V). Change db r.1)
                        (not (allowed_models_allow json row.allowed_models model)
                          || not (scope_allow json row.scopes virtual_key_invoke_scope))
                        (λ _. unchanged) (λ _. used now row.id))
                ])

      pub Step-Change : {db later : KeyDatabase V} → Step json sha db later → Change db later
      Step-Change {db = db}
            (creates now name models scopes expires_at key_group origin material key_ciphertext) =
          create-Change now db name models scopes expires_at key_group origin material
            key_ciphertext
      Step-Change {db = db} (revokes now id) = revoke-Change now db id
      Step-Change {db = db} (rotates utc_check utc_overlap now id options material key_ciphertext) =
          rotate-Change utc_check utc_overlap now db id options material key_ciphertext
            (rotate-Ends json utc_check utc_overlap now db id options material key_ciphertext)
      Step-Change {db = db} (authenticates now raw model) = authenticate-Change now db raw model
