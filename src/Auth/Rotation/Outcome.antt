-- ===== src/Auth/Rotation/Outcome.antt =====
-- How `rotate_virtual_key_with_material` of src/infra/db/virtual_keys.rs ends.
use my_ai_gateway.Prelude.{
  ℕ, ◌+◌, false, not, ◌≡◌, Option, none, some, String, ◌∷◌, find, any, Option-cases, inl, inr,
  if-elim, ltb,
}
use my_ai_gateway.Prelude.Sql.{SqlResult, constraint_violation}
use my_ai_gateway.Proxy.Json.{Json}
use my_ai_gateway.Auth.VirtualKeys.{
  VirtualKey, KeyDatabase, VirtualKeyMaterial, has_id, has_hash, new_row, set_where,
}
use my_ai_gateway.Auth.Rotation.{
  VirtualKeyError, sql, not_found, conflict, max_overlap, VirtualKeyRotationOptions, Rotated,
  rotated, failed, rotation_conflict, commit_rotation, rotate_found, rotated_key,
  rotate_virtual_key_with_material, overlap_end, replaced_row,
}
use my_ai_gateway.Auth.VirtualKeys.Insert.{Inserted, refused, added, insert_virtual_key-Inserted}

module _ {V : Type 0} (json : Json V) where
  -- How a rotation ends. One that succeeds has found a row that nothing speaks against.
  pub data Ends (utc_check utc_overlap now : ℕ) (db : KeyDatabase V) (id : ℕ)
      (options : VirtualKeyRotationOptions) (material : VirtualKeyMaterial)
      (key_ciphertext : Option String) : Rotated × KeyDatabase V → Type 0 where
    fails :
        (e : VirtualKeyError)
        → Ends utc_check utc_overlap now db id options material key_ciphertext (failed e, db)
    collides :
        (e : VirtualKeyError)
        → Ends utc_check utc_overlap now db id options material key_ciphertext
            (failed e, record db { next_id = db.next_id + 1 })
    succeeds :
        (old : VirtualKey V)
        → find (has_id id) db.keys ≡ some old
        → rotation_conflict utc_check old ≡ none
        → any (has_hash material.hash) db.keys ≡ false
        → Ends utc_check utc_overlap now db id options material key_ciphertext (
          rotated (record {
            old_id = id;
            new_id = db.next_id;
            key_prefix = material.prefix;
            key = material.raw;
            overlap_until = overlap_end utc_overlap options.overlap;
          }),
          set_where
              (has_id id)
              (replaced_row now db.next_id (overlap_end utc_overlap options.overlap))
              (record db {
                keys =
                    rotated_key json now options material key_ciphertext old db.next_id ∷ db.keys;
                next_id = db.next_id + 1;
              }),
        )

  module _ (utc_check utc_overlap now : ℕ) (db : KeyDatabase V) (id : ℕ)
      (options : VirtualKeyRotationOptions) (material : VirtualKeyMaterial)
      (key_ciphertext : Option String) where
    commit-Ends :
        (old : VirtualKey V)
        → find (has_id id) db.keys ≡ some old
        → rotation_conflict utc_check old ≡ none
        → (r : SqlResult ℕ × KeyDatabase V)
        → Inserted (rotated_key json now options material key_ciphertext old) db r
        → Ends utc_check utc_overlap now db id options material key_ciphertext
            (commit_rotation now db id material (overlap_end utc_overlap options.overlap) r)
    unfolding commit_rotation rotated_key new_row
    commit-Ends old found free r refused = collides (sql constraint_violation)
    commit-Ends old found free r (added fresh) = succeeds old found free fresh

    found-Ends :
        (old : VirtualKey V)
        → find (has_id id) db.keys ≡ some old
        → Ends utc_check utc_overlap now db id options material key_ciphertext
            (rotate_found json utc_check utc_overlap now db id options material key_ciphertext old)
    unfolding rotate_found
    found-Ends old e = elim (Option-cases (rotation_conflict utc_check old)) [
      | inl free ↦
          rw (free, rotate_found)
            (commit-Ends old e free _ (
              insert_virtual_key-Inserted (rotated_key json now options material key_ciphertext old)
                db))
      | inr (message, bad) ↦ rw (bad, rotate_found) (fails (conflict message))
    ]

    pub rotate-Ends : Ends utc_check utc_overlap now db id options material key_ciphertext (
        rotate_virtual_key_with_material json utc_check utc_overlap now db id options material
          key_ciphertext)
    unfolding rotate_virtual_key_with_material
    rotate-Ends =
        if-elim (Ends utc_check utc_overlap now db id options material key_ciphertext)
          (ltb max_overlap options.overlap) (λ _. fails _)
          (λ _.
            if-elim (Ends utc_check utc_overlap now db id options material key_ciphertext)
              (not db.reachable) (λ _. fails _)
              (λ _. elim (Option-cases (find (has_id id) db.keys)) [
                | inl e ↦ rw e (fails not_found)
                | inr (old, e) ↦ rw e (found-Ends old e)
              ]))
