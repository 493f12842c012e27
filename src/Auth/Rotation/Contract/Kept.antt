-- ===== src/Auth/Rotation/Contract/Kept.antt =====
-- `rotate_virtual_key_with_material` of src/infra/db/virtual_keys.rs keeps its contract.
use my_ai_gateway.Prelude.{
  ℕ, ◌+◌, ◌≤◌, ◌<◌, true, false, not, ◌≡◌, refl, ◌∙◌, Option, none, some, String, ◌∷◌, find, any,
  Option-cases, Bool-cases, inl, inr, if-elim, ltb, eqb, arith,
}
use my_ai_gateway.Prelude.Sql.{ok, err, constraint_violation}
use my_ai_gateway.Proxy.Json.{Json}
use my_ai_gateway.Auth.VirtualKeys.{
  VirtualKey, KeyDatabase, VirtualKeyMaterial, has_id, has_hash, new_row, set_where,
  insert_virtual_key, known_origin,
}
use my_ai_gateway.Auth.VirtualKeys.Table.{IsWellFormed}
use my_ai_gateway.Auth.VirtualKeys.Lookup.{find-update_same, find-update_other, found_below}
use my_ai_gateway.Auth.Rotation.{
  max_overlap, VirtualKeyRotationOptions, Rotated, rotation_conflict, commit_rotation, rotate_found,
  rotated_key, rotate_virtual_key_with_material, overlap_end, replaced_row,
}
use my_ai_gateway.Auth.Rotation.Contract.{
  day, IsRotatable, rotatable, in_conflict, IsNew, replaced_row-IsReplaced, keeps_id, IsRotated,
  Contract, too_long, no_answer, unknown, refused, collides, succeeds,
}

module _ {V : Type 0} (json : Json V) (utc_check utc_overlap now : ℕ) (db : KeyDatabase V) (id : ℕ)
    (options : VirtualKeyRotationOptions) (material : VirtualKeyMaterial)
    (key_ciphertext : Option String) where
  abbrev Rotates : VirtualKey V → KeyDatabase V → Type 0
  Rotates = IsRotated json utc_check utc_overlap now db id options material key_ciphertext

  abbrev Keeps : Rotated × KeyDatabase V → Type 0
  Keeps = Contract json utc_check utc_overlap now db id options material key_ciphertext

  new-IsNew :
      (old : VirtualKey V)
      → IsNew options material db.next_id old
          (rotated_key json now options material key_ciphertext old db.next_id)
  unfolding rotated_key new_row
  new-IsNew old = record {
    has_next_id = refl;
    has_new_hash = refl;
    enabled = refl;
    not_revoked = refl;
    not_replaced = refl;
    models_kept = λ e. rw e refl;
    scopes_kept = λ e. rw e refl;
    expiry_kept = λ e. rw e refl;
  }

  set_rows-IsRotated :
      (old : VirtualKey V)
      → IsWellFormed db
      → find (has_id id) db.keys ≡ some old
      → IsRotatable utc_check old
      → Rotates old (
          set_where
            (has_id id)
            (replaced_row now db.next_id (overlap_end utc_overlap options.overlap))
            (record db {
              keys = rotated_key json now options material key_ciphertext old db.next_id ∷ db.keys;
              next_id = db.next_id + 1;
            }))
  unfolding rotated_key new_row
  set_rows-IsRotated old w e free =
      let fresh : VirtualKey V =
        rotated_key json now options material key_ciphertext old db.next_id in
      let below : id < db.next_id = found_below db id old w e in
      let apart : eqb db.next_id id ≡ false = ground (arith, below) in
      let set = replaced_row now db.next_id (overlap_end utc_overlap options.overlap) in
      let here : eqb db.next_id db.next_id ≡ true = ground arith in
      let found : find (has_id id) (fresh ∷ db.keys) ≡ some old = rw apart e in
      record {
        new = fresh;
        replaced = set old;
        new_found =
            find-update_other id set
              (keeps_id now db.next_id (overlap_end utc_overlap options.overlap)) db.next_id
              (fresh ∷ db.keys) apart
            ∙ rw here refl;
        new_row = new-IsNew old;
        old_found =
            find-update_same id set
              (keeps_id now db.next_id (overlap_end utc_overlap options.overlap)) (fresh ∷ db.keys)
              old found;
        old_row =
            replaced_row-IsReplaced utc_check utc_overlap now options.overlap db.next_id old free;
        others = λ other a b.
            let past : eqb db.next_id other ≡ false = ground (arith, b) in
            find-update_other id set
              (keeps_id now db.next_id (overlap_end utc_overlap options.overlap)) other
              (fresh ∷ db.keys) a
            ∙ rw past refl;
      }

  insert-taken :
      (old : VirtualKey V)
      → any (has_hash material.hash) db.keys ≡ true
      → insert_virtual_key (rotated_key json now options material key_ciphertext old) db
        ≡ (err constraint_violation, record db { next_id = db.next_id + 1 })
  unfolding insert_virtual_key rotated_key new_row
  insert-taken old h = rw h refl

  insert-fresh :
      (old : VirtualKey V)
      → any (has_hash material.hash) db.keys ≡ false
      → insert_virtual_key (rotated_key json now options material key_ciphertext old) db ≡ (
        ok db.next_id,
        record db {
          keys = rotated_key json now options material key_ciphertext old db.next_id ∷ db.keys;
          next_id = db.next_id + 1;
        },
      )
  unfolding insert_virtual_key rotated_key new_row known_origin
  insert-fresh old h = rw h refl

  no_overlap : options.overlap ≡ 0 → overlap_end utc_overlap options.overlap ≡ none
  unfolding overlap_end
  no_overlap z = ground (arith, z)

  with_overlap :
      0 < options.overlap
      → overlap_end utc_overlap options.overlap ≡ some (utc_overlap + options.overlap)
  unfolding overlap_end
  with_overlap p = ground (arith, p)

  found-Contract :
      (old : VirtualKey V)
      → options.overlap ≤ day
      → db.reachable ≡ true
      → IsWellFormed db
      → find (has_id id) db.keys ≡ some old
      → Keeps
          (rotate_found json utc_check utc_overlap now db id options material key_ciphertext old)
  unfolding rotate_found commit_rotation
  found-Contract old short up w e = elim (Option-cases (rotation_conflict utc_check old)) [
    | inr (message, bad) ↦
        rw (bad, rotate_found)
          (refused old message short up e (in_conflict utc_check old message bad))
    | inl none_bad ↦
        let free : IsRotatable utc_check old = rotatable utc_check old none_bad in
        elim (Bool-cases (any (has_hash material.hash) db.keys)) [
          | inl taken ↦
              rw (none_bad, rotate_found)
                (rw (insert-taken old taken) (collides old short up e free taken))
          | inr fresh ↦
              rw (none_bad, rotate_found)
                (rw (insert-fresh old fresh) (
                  succeeds old _ _ short up e free fresh no_overlap with_overlap
                    (set_rows-IsRotated old w e free)))
        ]
  ]

  -- How a rotation ends, in a well-formed table. It fails and leaves the table as it was, if the overlap is
  -- longer than a day, the table does not answer, no row has the id, or the key is disabled, revoked,
  -- expired or already rotated, in this order. It fails and loses an id of the sequence, if the hash of the
  -- new key is in the table. Otherwise it succeeds: a search for the next id finds an enabled row with the
  -- new hash and, unless others are asked for, with the models, the scopes and the expiry of the old key;
  -- a search for the old id finds the old row, which names the new one, and is disabled and revoked
  -- without an overlap, and enabled up to the end of the overlap with one; a search for any other id finds
  -- what it did before.
  pub rotate-Contract :
      IsWellFormed db
      → Keeps (
          rotate_virtual_key_with_material json utc_check utc_overlap now db id options material
            key_ciphertext)
  unfolding rotate_virtual_key_with_material max_overlap
  rotate-Contract w =
      if-elim Keeps (ltb day options.overlap) (λ long. too_long (ground (arith, long)))
        (λ short.
          let le : options.overlap ≤ day = ground (arith, short) in
          if-elim Keeps (not db.reachable) (λ down. no_answer le (ground (arith, down)))
            (λ live.
              let up : db.reachable ≡ true = ground (arith, live) in
              elim (Option-cases (find (has_id id) db.keys)) [
                | inl e ↦ rw e (unknown le up e)
                | inr (old, e) ↦ rw e (found-Contract old le up w e)
              ]))
