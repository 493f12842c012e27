-- ===== src/Auth/Rotation/Contract.antt =====
-- What `rotate_virtual_key_with_material` of src/infra/db/virtual_keys.rs promises.
pub mod Kept
use my_ai_gateway.Prelude.{
  ℕ, ◌+◌, ◌≤◌, ◌<◌, Bool, true, false, not, ◌≡◌, refl, ◌∙◌, Option, none, some, String, List, ◌∷◌,
  find, any, Option-cases, Bool-cases, inl, inr, if-elim, ltb, eqb, arith, subst, is_some,
  if◌then◌else◌, or_else, unwrap_or,
}
use mathlib.Core.Option
use my_ai_gateway.Prelude.Sql.{SqlResult, ok, err, constraint_violation, unavailable}
use my_ai_gateway.Proxy.Json.{Json}
use my_ai_gateway.Auth.VirtualKeys.{
  VirtualKey, KeyDatabase, VirtualKeyMaterial, has_id, has_hash, new_row, set_where,
  insert_virtual_key, known_origin, update_where,
}
use my_ai_gateway.Auth.VirtualKeys.Table.{IsWellFormed}
use my_ai_gateway.Auth.VirtualKeys.Lookup.{find-update_same, find-update_other, found_below}
use my_ai_gateway.Auth.Rotation.{
  VirtualKeyError, sql, not_found, conflict, validation, max_overlap, VirtualKeyRotationOptions,
  Rotated, rotated, failed, rotation_conflict, commit_rotation, rotate_found, rotated_key,
  rotate_virtual_key_with_material, overlap_end, replaced_row,
}

-- The overlap of the options is at most a day.
abbrev pub day : ℕ
day = 86_400_000_000_000

module _ {V : Type 0} where
  -- The key may be rotated: it is enabled, and not revoked, expired or rotated.
  pub record IsRotatable (utc : ℕ) (old : VirtualKey V) : Type 0 where
    pub enabled : old.enabled ≡ true
    pub not_revoked : old.revoked_at ≡ none
    pub not_expired : (t : ℕ) → old.expires_at ≡ some t → utc < t
    pub not_replaced : old.replaced_by_id ≡ none

  pub rotatable :
      (utc : ℕ) (old : VirtualKey V) → rotation_conflict utc old ≡ none → IsRotatable utc old
  unfolding rotation_conflict
  rotatable utc old h = record {
    enabled = ground (arith, h);
    not_revoked = ground (arith, h);
    not_expired = λ t e. ground (arith, h, e);
    not_replaced = ground (arith, h);
  }

  pub in_conflict :
      (utc : ℕ) (old : VirtualKey V) (message : String)
      → rotation_conflict utc old ≡ some message
      → ¬ IsRotatable utc old
  unfolding rotation_conflict
  in_conflict utc old message h r =
      let on : old.enabled ≡ true = r.enabled in
      let fresh : old.revoked_at ≡ none = r.not_revoked in
      let first : old.replaced_by_id ≡ none = r.not_replaced in
      elim (Option-cases old.expires_at) [
        | inl never ↦ ground (arith, h, on, fresh, first, never)
        | inr (t, e) ↦
            let later : utc < t = r.not_expired t e in ground (arith, h, on, fresh, first, e, later)
      ]

  -- The row of the new key, with the id that was next. It can be used at once, and without new models or
  -- scopes it has those of the old key.
  pub record IsNew (options : VirtualKeyRotationOptions) (material : VirtualKeyMaterial) (id : ℕ)
      (old new : VirtualKey V) : Type 0 where
    pub has_next_id : new.id ≡ id
    pub has_new_hash : new.key_hash ≡ material.hash
    pub enabled : new.enabled ≡ true
    pub not_revoked : new.revoked_at ≡ none
    pub not_replaced : new.replaced_by_id ≡ none
    pub models_kept : options.allowed_models ≡ none → new.allowed_models ≡ old.allowed_models
    pub scopes_kept : options.scopes ≡ none → new.scopes ≡ old.scopes
    pub expiry_kept : options.expires_at ≡ none → new.expires_at ≡ old.expires_at

  -- The row of the old key afterwards. It names the new row. Without an overlap it is disabled and revoked,
  -- with one it stays as it was up to the end of the overlap.
  pub record IsReplaced (utc_overlap now overlap id : ℕ) (old after : VirtualKey V) : Type 0 where
    pub same_id : after.id ≡ old.id
    pub same_hash : after.key_hash ≡ old.key_hash
    pub names_new : after.replaced_by_id ≡ some id
    pub withdrawn : overlap ≡ 0 → (after.enabled ≡ false) × (after.revoked_at ≡ some now)
    pub overlaps :
        0 < overlap
        → (after.enabled ≡ true)
          × (after.revoked_at ≡ none)
          × (after.overlap_until ≡ some (utc_overlap + overlap))

  pub replaced_row-IsReplaced :
      (utc utc_overlap now overlap id : ℕ) (old : VirtualKey V)
      → IsRotatable utc old
      → IsReplaced utc_overlap now overlap id old
          (replaced_row now id (overlap_end utc_overlap overlap) old)
  unfolding replaced_row overlap_end
  replaced_row-IsReplaced utc utc_overlap now overlap id old r =
      let on : old.enabled ≡ true = r.enabled in
      let fresh : old.revoked_at ≡ none = r.not_revoked in
      record {
        same_id = refl;
        same_hash = refl;
        names_new = refl;
        withdrawn = λ z. (ground (arith, z), ground (arith, z, fresh));
        overlaps = λ p. (ground (arith, p, on), ground (arith, p, fresh), ground (arith, p));
      }

  pub keeps_id :
      (now id : ℕ) (o : Option ℕ) (r : VirtualKey V) → (replaced_row now id o r).id ≡ r.id
  unfolding replaced_row
  keeps_id now id o r = refl

module _ {V : Type 0} (json : Json V) (utc_check utc_overlap now : ℕ) (db : KeyDatabase V) (id : ℕ)
    (options : VirtualKeyRotationOptions) (material : VirtualKeyMaterial)
    (key_ciphertext : Option String) where
  -- The table that a rotation of `old` leaves.
  pub record IsRotated (old : VirtualKey V) (after : KeyDatabase V) : Type 0 where
    pub new : VirtualKey V
    pub replaced : VirtualKey V
    pub new_found : find (has_id db.next_id) after.keys ≡ some new
    pub new_row : IsNew options material db.next_id old new
    pub old_found : find (has_id id) after.keys ≡ some replaced
    pub old_row : IsReplaced utc_overlap now options.overlap db.next_id old replaced
    pub others :
        (other : ℕ)
        → eqb other id ≡ false
        → eqb other db.next_id ≡ false
        → find (has_id other) after.keys ≡ find (has_id other) db.keys

  -- The ends of a rotation.
  pub data Contract : Rotated × KeyDatabase V → Type 0 where
    too_long :
        day < options.overlap
        → Contract (failed (validation "overlap window must be at most 86400 seconds"), db)
    no_answer :
        options.overlap ≤ day → db.reachable ≡ false → Contract (failed (sql unavailable), db)
    unknown :
        options.overlap ≤ day
        → db.reachable ≡ true
        → find (has_id id) db.keys ≡ none
        → Contract (failed not_found, db)
    refused :
        (old : VirtualKey V) (message : String)
        → options.overlap ≤ day
        → db.reachable ≡ true
        → find (has_id id) db.keys ≡ some old
        → ¬ IsRotatable utc_check old
        → Contract (failed (conflict message), db)
    collides :
        (old : VirtualKey V)
        → options.overlap ≤ day
        → db.reachable ≡ true
        → find (has_id id) db.keys ≡ some old
        → IsRotatable utc_check old
        → any (has_hash material.hash) db.keys ≡ true
        → Contract (failed (sql constraint_violation), record db { next_id = db.next_id + 1 })
    succeeds :
        (old : VirtualKey V) (overlap_until : Option ℕ) (after : KeyDatabase V)
        → options.overlap ≤ day
        → db.reachable ≡ true
        → find (has_id id) db.keys ≡ some old
        → IsRotatable utc_check old
        → any (has_hash material.hash) db.keys ≡ false
        → (options.overlap ≡ 0 → overlap_until ≡ none)
        → (0 < options.overlap → overlap_until ≡ some (utc_overlap + options.overlap))
        → IsRotated old after
        → Contract (
          rotated (record {
            old_id = id;
            new_id = db.next_id;
            key_prefix = material.prefix;
            key = material.raw;
            overlap_until = overlap_until;
          }),
          after,
        )
