-- ===== src/Auth/VirtualKeys/Insert.antt =====
-- How `insert_virtual_key` of src/infra/db/virtual_keys.rs ends.
use my_ai_gateway.Prelude.{ℕ, ◌+◌, Bool, false, not, ◌||◌, ◌≡◌, ◌∷◌, any, arith, if-elim}
use my_ai_gateway.Prelude.Sql.{SqlResult, ok, err, constraint_violation}
use my_ai_gateway.Auth.VirtualKeys.{
  VirtualKey, KeyDatabase, has_hash, insert_virtual_key, known_origin,
}

or_false : (a b : Bool) → (a || b) ≡ false → a ≡ false
or_false a b h = ground arith

module _ {V : Type 0} where
  -- How an insertion ends.
  pub data Inserted (new : ℕ → VirtualKey V) (db : KeyDatabase V)
      : SqlResult ℕ × KeyDatabase V → Type 0 where
    refused : Inserted new db (err constraint_violation, record db { next_id = db.next_id + 1 })
    added :
        any (has_hash (new db.next_id).key_hash) db.keys ≡ false
        → Inserted new db
            (ok db.next_id, record db { keys = new db.next_id ∷ db.keys; next_id = db.next_id + 1 })

  pub insert_virtual_key-Inserted :
      (new : ℕ → VirtualKey V) (db : KeyDatabase V) → Inserted new db (insert_virtual_key new db)
  unfolding insert_virtual_key
  insert_virtual_key-Inserted new db =
      let row : VirtualKey V = new db.next_id in
      if-elim (Inserted new db)
        (any (has_hash row.key_hash) db.keys || not (known_origin row.origin)) (λ _. refused)
        (λ e.
          added (or_false (any (has_hash row.key_hash) db.keys) (not (known_origin row.origin)) e))
