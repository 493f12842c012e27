-- ===== src/Auth/Authenticate/Admission.antt =====
-- Whom authentication by a virtual key lets in, of src/infra/db/virtual_keys.rs.
use my_ai_gateway.Prelude.{
  find-passes, ℕ, true, false, not, ◌&&◌, ◌||◌, ◌≡◌, Option, none, some, String, eq_iff, find,
  retain, length, if◌then◌else◌, Option-cases, inl, inr, arith, if-elim, subst, sym,
}
use my_ai_gateway.Prelude.Sql.{SqlResult, ok, err, unavailable}
use my_ai_gateway.Proxy.Json.{Json}
use my_ai_gateway.Auth.{Sha256, hash_key}
use my_ai_gateway.Auth.Scopes.{allowed_models_allow, scope_allow, virtual_key_invoke_scope}
use my_ai_gateway.Auth.VirtualKeys.{VirtualKey, KeyDatabase, has_hash, usable, set_where}
use my_ai_gateway.Auth.Authenticate.{
  KeyIdentity, used_row, usable_id, grant, authenticate_scope,
  authenticate_virtual_key_with_identity,
}
use my_ai_gateway.Auth.VirtualKeys.Table.{IsWellFormed}
use my_ai_gateway.Auth.Authenticate.Rows.{
  IsUsable, usable-IsUsable, IsUsable-usable, first_usable, none-usable, count_one,
}

module _ {V : Type 0} (json : Json V) where
  -- The key permits the model and the scope of the data plane.
  pub record Permits (model : Option String) (r : VirtualKey V) : Type 0 where
    pub allows_model : allowed_models_allow json r.allowed_models model ≡ true
    pub has_scope : scope_allow json r.scopes virtual_key_invoke_scope ≡ true

module _ {V : Type 0} (json : Json V) {D : Type 0} (sha : Sha256 D) where
  -- The ends of an authentication.
  pub data Admission (now : ℕ) (db : KeyDatabase V) (raw : String) (model : Option String)
      : SqlResult (Option KeyIdentity) × KeyDatabase V → Type 0 where
    no_answer : db.reachable ≡ false → Admission now db raw model (err unavailable, db)
    refused :
        db.reachable ≡ true
        → ((r : VirtualKey V)
            → find (has_hash (hash_key sha raw)) db.keys ≡ some r
            → IsUsable now r
            → ¬ Permits json model r)
        → Admission now db raw model (ok none, db)
    granted :
        (r : VirtualKey V)
        → db.reachable ≡ true
        → find (has_hash (hash_key sha raw)) db.keys ≡ some r
        → IsUsable now r
        → Permits json model r
        → Admission now db raw model (
          ok (some (r.id, r.name, r.key_prefix)),
          set_where (usable_id now r.id) (used_row now) db,
        )

  module _ (now : ℕ) (db : KeyDatabase V) (raw : String) (model : Option String) where
    nothing_found :
        db.reachable ≡ true
        → find (λ r. has_hash (hash_key sha raw) r && usable now r) db.keys ≡ none
        → Admission now db raw model (ok none, db)
    nothing_found up e = refused up (λ r found u p.
        let off : usable now r ≡ false = none-usable now (hash_key sha raw) db.keys r e found in
        let on : usable now r ≡ true = IsUsable-usable now r u in absurd (cc))

    granted_row :
        (row : VirtualKey V)
        → IsWellFormed db
        → db.reachable ≡ true
        → find (λ r. has_hash (hash_key sha raw) r && usable now r) db.keys ≡ some row
        → Permits json model row
        → Admission now db raw model (ok (grant now db row).0, (grant now db row).1)
    unfolding grant
    granted_row row w up e p =
        let found : find (has_hash (hash_key sha raw)) db.keys ≡ some row =
          first_usable now (hash_key sha raw) db.keys row w.distinct e in
        let passes : (has_hash (hash_key sha raw) row && usable now row) ≡ true =
          find-passes (λ r. has_hash (hash_key sha raw) r && usable now r) db.keys row e in
        let u : usable now row ≡ true = ground (arith, passes) in
        let h : row.key_hash ≡ hash_key sha raw =
          (eq_iff row.key_hash (hash_key sha raw)).0 (ground (arith, passes)) in
        let one : length (retain (usable_id now row.id) db.keys) ≡ 1 =
          count_one now db.keys row w.distinct
            (subst (λ x. find (has_hash x) db.keys ≡ some row) (sym h) found) u in
        rw one (granted row up found (usable-IsUsable now row u) p)

    found_row :
        (row : VirtualKey V)
        → IsWellFormed db
        → db.reachable ≡ true
        → find (λ r. has_hash (hash_key sha raw) r && usable now r) db.keys ≡ some row
        → Admission now db raw model (
            if not (allowed_models_allow json row.allowed_models model)
              || not (scope_allow json row.scopes virtual_key_invoke_scope)
            then (ok none, db)
            else (let (identity, used) = grant now db row in (ok identity, used)))
    found_row row w up e =
        if-elim (Admission now db raw model)
          (not (allowed_models_allow json row.allowed_models model)
            || not (scope_allow json row.scopes virtual_key_invoke_scope))
          (λ bad. refused up (λ r found u p.
            let first : find (has_hash (hash_key sha raw)) db.keys ≡ some row =
              first_usable now (hash_key sha raw) db.keys row w.distinct e in
            let q : r ≡ row = ground arith in
            let m : allowed_models_allow json row.allowed_models model ≡ true =
              subst (λ s. allowed_models_allow json s.allowed_models model ≡ true) q
                p.allows_model in
            let s : scope_allow json row.scopes virtual_key_invoke_scope ≡ true =
              subst (λ s. scope_allow json s.scopes virtual_key_invoke_scope ≡ true) q
                p.has_scope in
            absurd (ground (arith, m, s, bad))))
          (λ good.
            granted_row row w up e
              (record { allows_model = ground (arith, good); has_scope = ground (arith, good) }))

    -- Authentication by a virtual key, in a well-formed table. If the table is not reachable, it is an
    -- error. Otherwise it returns the identity of the row of the key's hash and sets only the last use of
    -- the rows of its id, exactly if there is such a row that is enabled, not revoked, not expired, within
    -- its overlap if it was replaced, and that permits the model and the scope. Else nobody is let in and
    -- nothing is written.
    pub authenticate-Admission :
        IsWellFormed db
        → Admission now db raw model
            (authenticate_virtual_key_with_identity json sha now db raw model)
    unfolding authenticate_virtual_key_with_identity authenticate_scope
    authenticate-Admission w =
        if-elim (Admission now db raw model) (not db.reachable)
          (λ down. no_answer (ground (arith, down)))
          (λ up.
            let live : db.reachable ≡ true = ground (arith, up) in
            elim (Option-cases
              (find (λ r. has_hash (hash_key sha raw) r && usable now r) db.keys)) [
                | inl e ↦ rw e (nothing_found live e)
                | inr (row, e) ↦ rw e (found_row row w live e)
              ])
