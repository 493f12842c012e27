-- ===== src/Auth/VirtualKeys/Lookup.antt =====
-- Searches of the table of src/infra/db/virtual_keys.rs by id, after an update.
use my_ai_gateway.Prelude.{
  ℕ, ◌<◌, true, false, ◌≡◌, refl, some, List, [], ◌∷◌, find, eqb, All-find, find-passes, Bool-cases,
  inl, inr, arith, subst,
}
use my_ai_gateway.Auth.VirtualKeys.{VirtualKey, KeyDatabase, update_where, has_id}
use my_ai_gateway.Auth.VirtualKeys.Table.{IsWellFormed}

module _ {V : Type 0} (id : ℕ) (f : VirtualKey V → VirtualKey V)
    (ids : (r : VirtualKey V) → (f r).id ≡ r.id) where
  -- The row of the id is the updated one.
  pub find-update_same :
      (rows : List (VirtualKey V)) (old : VirtualKey V)
      → find (has_id id) rows ≡ some old
      → find (has_id id) (update_where (has_id id) f rows) ≡ some (f old)
  find-update_same [] old e = absurd (cc)
  find-update_same (r ∷ rows) old e = elim (Bool-cases (eqb r.id id)) [
    | inl hit ↦
        let same : r ≡ old = ground arith in
        let kept : eqb (f r).id id ≡ true = ground (arith, ids r, hit) in
        rw (hit, kept) (subst (λ x. some (f r) ≡ some (f x)) same refl)
    | inr miss ↦ rw (miss, miss) (find-update_same rows old (rw miss at e))
  ]

  -- The rows of other ids are as they were.
  pub find-update_other :
      (other : ℕ) (rows : List (VirtualKey V))
      → eqb other id ≡ false
      → find (has_id other) (update_where (has_id id) f rows) ≡ find (has_id other) rows
  find-update_other other [] e = refl
  find-update_other other (r ∷ rows) e = elim (Bool-cases (eqb r.id id)) [
    | inl hit ↦
        let apart : eqb r.id other ≡ false = ground (arith, hit, e) in
        rw (hit, ids r, apart) (find-update_other other rows e)
    | inr miss ↦ elim (Bool-cases (eqb r.id other)) [
      | inl found ↦ rw (miss, found) refl
      | inr apart ↦ rw (miss, apart) (find-update_other other rows e)
    ]
  ]

-- An id that is found in a well-formed table is behind the sequence.
pub found_below :
    {V : Type 0} (db : KeyDatabase V) (id : ℕ) (old : VirtualKey V)
    → IsWellFormed db
    → find (has_id id) db.keys ≡ some old
    → id < db.next_id
found_below db id old w e =
    let hit : eqb old.id id ≡ true = find-passes (has_id id) db.keys old e in
    let below : old.id < db.next_id =
      All-find (λ r. r.id < db.next_id) (has_id id) db.keys old w.below e in
    ground (arith, hit, below)
