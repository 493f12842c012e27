-- ===== src/Auth/Steps/Withdrawn.antt =====
-- A virtual key of src/infra/db/virtual_keys.rs that was revoked or replaced is refused from then on.
use my_ai_gateway.Prelude.{
  find-passes, find-any, ℕ, ◌≤◌, Bool, true, false, ◌≡◌, refl, Option, none, some, String, List,
  ◌∷◌, find, any, All, All-find, ◌==◌, eq_iff, [], Bool-cases, arith, if-elim, subst, is_some_and,
  unwrap_or, ltb, eqb, inl, inr,
}
use my_ai_gateway.Prelude.Sql.{SqlResult}
use my_ai_gateway.Proxy.Json.{Json}
use my_ai_gateway.Auth.{Sha256, hash_key}
use my_ai_gateway.Auth.VirtualKeys.{
  VirtualKey, KeyDatabase, VirtualKeyMaterial, has_id, has_hash, revoke_virtual_key, new_row,
  update_where,
}
use my_ai_gateway.Auth.Rotation.{
  VirtualKeyRotationOptions, VirtualKeyRotation, Rotated, rotated, failed, rotated_key,
  rotate_virtual_key_with_material, overlap_end, replaced_row,
}
use my_ai_gateway.Auth.Authenticate.{authenticate_virtual_key_with_identity}
use my_ai_gateway.Auth.VirtualKeys.Table.{
  IsWellFormed, Distinct, Apart, All-become, any-update, same_hash,
}
use my_ai_gateway.Auth.VirtualKeys.Lapsed.{
  Lapsed, replaced, new_differs, HasLapsed, Refused, HasLapsed-Refused, revoked-HasLapsed,
}
use my_ai_gateway.Auth.Rotation.Outcome.{Ends, fails, collides, succeeds, rotate-Ends}
use my_ai_gateway.Auth.Steps.{Steps, still, next, revokes, rotates}
use my_ai_gateway.Auth.Steps.Invariant.{Steps-IsWellFormed, Steps-HasLapsed}

over : (o : Option ℕ) → is_some_and (λ t. ltb (unwrap_or 0 o) t) o ≡ false
over none = refl
over (some t) = ground arith

module _ {V : Type 0} where
  -- In a table of unique hashes, the row that an id finds is the one that its hash finds.
  id→hash :
      (id : ℕ) (rows : List (VirtualKey V)) (r : VirtualKey V)
      → Distinct rows
      → find (has_id id) rows ≡ some r
      → find (has_hash r.key_hash) rows ≡ some r
  id→hash id [] r d e = absurd (cc)
  id→hash id (s ∷ rows) r d e = elim (Bool-cases (has_id id s)) [
    | inl hit ↦
        let q : s ≡ r = ground arith in
        let own : (s.key_hash == r.key_hash) ≡ true =
          (eq_iff s.key_hash r.key_hash).1 (rw q refl) in
        rw own (rw q refl)
    | inr miss ↦
        let found : find (has_id id) rows ≡ some r = rw miss at e in
        let apart : (eqb r.id s.id ≡ false) × ((r.key_hash == s.key_hash) ≡ false) =
          All-find (Apart s) (has_id id) rows r d.0 found in
        let other : (s.key_hash == r.key_hash) ≡ false =
          ground (arith, apart.1, eq_iff s.key_hash r.key_hash, eq_iff r.key_hash s.key_hash) in
        rw other (id→hash id rows r d.1 found)
  ]

  only_row :
      (id : ℕ) (db : KeyDatabase V) (r : VirtualKey V)
      → IsWellFormed db
      → find (has_id id) db.keys ≡ some r
      → All (λ s. has_hash r.key_hash s ≡ true → s ≡ r) db.keys
  only_row id db r w e =
      same_hash r.key_hash db.keys r w.distinct (id→hash id db.keys r w.distinct e)

  there :
      (id : ℕ) (db : KeyDatabase V) (r : VirtualKey V)
      → IsWellFormed db
      → find (has_id id) db.keys ≡ some r
      → any (has_hash r.key_hash) db.keys ≡ true
  there id db r w e = find-any (has_hash r.key_hash) db.keys r (id→hash id db.keys r w.distinct e)

  revoke-HasLapsed :
      (now id : ℕ) (db : KeyDatabase V) (r : VirtualKey V)
      → IsWellFormed db
      → db.reachable ≡ true
      → find (has_id id) db.keys ≡ some r
      → HasLapsed r.key_hash 0 (revoke_virtual_key now db id).1.keys
  unfolding revoke_virtual_key
  revoke-HasLapsed now id db r w up e =
      if-elim (λ (s : SqlResult Bool × KeyDatabase V). HasLapsed r.key_hash 0 s.1.keys) db.reachable
        (λ _. revoked-HasLapsed now id r db.keys (only_row id db r w e) e (there id db r w e))
        (λ down. absurd (cc))

  -- What a rotation leaves of the old key.
  abbrev Leaves : String → Rotated × KeyDatabase V → Type 0
  Leaves hash (failed e, after) = Unit {0}
  Leaves hash (rotated out, after) = HasLapsed hash (unwrap_or 0 out.overlap_until) after.keys

  -- The old row of a rotation, in the table that it leaves.
  replaced-HasLapsed :
      (now id new_id : ℕ) (o : Option ℕ) (db : KeyDatabase V) (old new : VirtualKey V)
      → IsWellFormed db
      → find (has_id id) db.keys ≡ some old
      → any (has_hash new.key_hash) db.keys ≡ false
      → HasLapsed old.key_hash
          (unwrap_or 0 o)
          (update_where (has_id id) (replaced_row now new_id o) (new ∷ db.keys))
  unfolding replaced_row
  replaced-HasLapsed now id new_id o db old new w e fresh = record {
    present =
        rw
          (
            any-update old.key_hash (has_id id) (replaced_row now new_id o) (new ∷ db.keys)
                (λ r. refl),
            there id db old w e,
          )
          (ground arith);
    lapsed =
        All-become (λ s. has_hash old.key_hash s ≡ true → s ≡ old)
          (λ s. has_hash old.key_hash s ≡ true → Lapsed (unwrap_or 0 o) s) (has_id id)
          (replaced_row now new_id o) (new ∷ db.keys) (λ s hit one g. replaced refl (over o))
          (λ s miss one g.
            let hit : has_id id s ≡ true = rw (one g) (find-passes (has_id id) db.keys old e) in
            absurd (cc))
          (
            (λ g.
                new_differs old.key_hash new.key_hash db.keys (there id db old w e) fresh g
                  (new ≡ old)),
            only_row id db old w e,
          );
  }

  module _ (json : Json V) {D : Type 0} (sha : Sha256 D) where
    -- After the revocation of a key in a well-formed table that is reachable, and after any further
    -- operations on the table in any order and at any instants, authentication by that key returns no
    -- identity, or an error where the table is not reachable, and leaves the table unchanged.
    pub revoke-Refused :
        (now id : ℕ) (db : KeyDatabase V) (r : VirtualKey V) (raw : String) (later : KeyDatabase V)
        (at : ℕ) (model : Option String)
        → IsWellFormed db
        → db.reachable ≡ true
        → find (has_id id) db.keys ≡ some r
        → r.key_hash ≡ hash_key sha raw
        → Steps json sha (revoke_virtual_key now db id).1 later
        → Refused later (authenticate_virtual_key_with_identity json sha at later raw model)
    revoke-Refused now id db r raw later at model w up e q s =
        HasLapsed-Refused json sha {since = 0} at later raw model (omega arith) (
          subst (λ h. HasLapsed h 0 later.keys) q
            (Steps-HasLapsed json sha r.key_hash 0 s
              (Steps-IsWellFormed json sha (next still (revokes now id)) w)
              (revoke-HasLapsed now id db r w up e)))

    Ends-Leaves :
        (utc_check utc_overlap now id : ℕ) (db : KeyDatabase V)
        (options : VirtualKeyRotationOptions) (material : VirtualKeyMaterial)
        (key_ciphertext : Option String) (old : VirtualKey V) {r : Rotated × KeyDatabase V}
        → IsWellFormed db
        → find (has_id id) db.keys ≡ some old
        → Ends json utc_check utc_overlap now db id options material key_ciphertext r
        → Leaves old.key_hash r
    unfolding rotated_key new_row
    Ends-Leaves utc_check utc_overlap now id db options material key_ciphertext old w e (fails _) =
        tt
    Ends-Leaves utc_check utc_overlap now id db options material key_ciphertext old w e
          (collides _) =
        tt
    Ends-Leaves utc_check utc_overlap now id db options material key_ciphertext old w e
          (succeeds row found free fresh) =
        replaced-HasLapsed now id db.next_id (overlap_end utc_overlap options.overlap) db old
          (rotated_key json now options material key_ciphertext row db.next_id) w e fresh

    -- After a rotation that succeeded, of a key in a well-formed table, and after any further operations on
    -- the table in any order and at any instants, authentication by the old key at the end of the overlap
    -- or later, and at any instant where there is no overlap, returns no identity, or an error where the
    -- table is not reachable, and leaves the table unchanged.
    pub rotate-Refused :
        (utc_check utc_overlap now id : ℕ) (db : KeyDatabase V)
        (options : VirtualKeyRotationOptions) (material : VirtualKeyMaterial)
        (key_ciphertext : Option String) (old : VirtualKey V) (raw : String)
        (out : VirtualKeyRotation) (after later : KeyDatabase V) (at : ℕ) (model : Option String)
        → IsWellFormed db
        → find (has_id id) db.keys ≡ some old
        → old.key_hash ≡ hash_key sha raw
        → rotate_virtual_key_with_material json utc_check utc_overlap now db id options material
            key_ciphertext
          ≡ (rotated out, after)
        → Steps json sha after later
        → unwrap_or 0 out.overlap_until ≤ at
        → Refused later (authenticate_virtual_key_with_identity json sha at later raw model)
    rotate-Refused utc_check utc_overlap now id db options material key_ciphertext old raw out after
          later at model w e q done s le =
        let lapsed : HasLapsed old.key_hash (unwrap_or 0 out.overlap_until) after.keys =
          subst (Leaves old.key_hash) done (
            Ends-Leaves utc_check utc_overlap now id db options material key_ciphertext old w e
              (rotate-Ends json utc_check utc_overlap now db id options material key_ciphertext)) in
        let well : IsWellFormed after =
          subst (λ (r : Rotated × KeyDatabase V). IsWellFormed r.1) done
            (Steps-IsWellFormed json sha
              (next still (rotates utc_check utc_overlap now id options material key_ciphertext))
              w) in
        HasLapsed-Refused json sha at later raw model le (
          subst (λ h. HasLapsed h (unwrap_or 0 out.overlap_until) later.keys) q
            (Steps-HasLapsed json sha old.key_hash (unwrap_or 0 out.overlap_until) s well lapsed))
