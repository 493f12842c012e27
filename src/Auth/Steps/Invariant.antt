-- ===== src/Auth/Steps/Invariant.antt =====
-- Every operation keeps the ids and the hashes of src/infra/db/virtual_keys.rs unique, and no operation
-- brings back a key that has lapsed.
use my_ai_gateway.Prelude.{
  All-map, ℕ, ◌+◌, ◌<◌, Bool, false, ◌==◌, ◌≡◌, refl, some, String, List, [], ◌∷◌, find, any, All,
  Bool-cases, inl, inr, arith,
}
use my_ai_gateway.Proxy.Json.{Json}
use my_ai_gateway.Auth.{Sha256}
use my_ai_gateway.Auth.VirtualKeys.{
  VirtualKey, KeyDatabase, has_id, has_hash, set_where, revocable, revoked_row,
}
use my_ai_gateway.Auth.Rotation.{replaced_row}
use my_ai_gateway.Auth.Authenticate.{used_row, usable_id}
use my_ai_gateway.Auth.VirtualKeys.Table.{IsWellFormed, Distinct-update, Apart, All-update, same_id}
use my_ai_gateway.Auth.VirtualKeys.Lapsed.{
  HasLapsed, HasLapsed-used, HasLapsed-revoked, HasLapsed-inserted, HasLapsed-replaced,
}
use my_ai_gateway.Auth.Steps.{
  Steps, still, next, Change, unchanged, id_taken, used, revoked, inserted, replaced, Step-Change,
}

module _ {V : Type 0} where
  update-IsWellFormed :
      (p : VirtualKey V → Bool) (f : VirtualKey V → VirtualKey V) (db : KeyDatabase V)
      → ((r : VirtualKey V) → (f r).id ≡ r.id)
      → ((r : VirtualKey V) → (f r).key_hash ≡ r.key_hash)
      → IsWellFormed db
      → IsWellFormed (set_where p f db)
  update-IsWellFormed p f db ids hashes h = record {
    distinct = Distinct-update p f db.keys ids hashes h.distinct;
    below = All-update (λ r. r.id < db.next_id) p f db.keys (λ r e l. rw (ids r) l) h.below;
  }

  fresh_hash :
      (hash : String) (rows : List (VirtualKey V))
      → any (has_hash hash) rows ≡ false
      → All (λ r. (r.key_hash == hash) ≡ false) rows
  fresh_hash hash [] h = tt
  fresh_hash hash (r ∷ rows) h = elim (Bool-cases (has_hash hash r)) [
    | inl e ↦ absurd (ground (arith, e, h))
    | inr e ↦ (e, fresh_hash hash rows (rw e at h))
  ]

  insert-IsWellFormed :
      (new : VirtualKey V) (db : KeyDatabase V)
      → new.id ≡ db.next_id
      → any (has_hash new.key_hash) db.keys ≡ false
      → IsWellFormed db
      → IsWellFormed (record db { keys = new ∷ db.keys; next_id = db.next_id + 1 })
  insert-IsWellFormed new db e fresh h = record {
    distinct = (apart db.keys h.below (fresh_hash new.key_hash db.keys fresh), h.distinct);
    below = (omega (arith, e), All-map db.keys (λ r l. omega (arith, l)) h.below);
  }
    where
      apart :
          (rows : List (VirtualKey V))
          → All (λ r. r.id < db.next_id) rows
          → All (λ r. (r.key_hash == new.key_hash) ≡ false) rows
          → All (Apart new) rows
      apart [] b f = tt
      apart (r ∷ rows) b f = ((ground (arith, e, b.0), f.0), apart rows b.1 f.1)

  Change-IsWellFormed :
      {db later : KeyDatabase V} → Change db later → IsWellFormed db → IsWellFormed later
  unfolding used_row revoked_row replaced_row
  Change-IsWellFormed unchanged h = h
  Change-IsWellFormed {db = db} id_taken h = record {
    distinct = h.distinct;
    below = All-map db.keys (λ r l. omega (arith, l)) h.below;
  }
  Change-IsWellFormed {db = db} (used now id) h =
      update-IsWellFormed (usable_id now id) (used_row now) db (λ r. refl) (λ r. refl) h
  Change-IsWellFormed {db = db} (revoked now id) h =
      update-IsWellFormed (revocable id) (revoked_row now) db (λ r. refl) (λ r. refl) h
  Change-IsWellFormed {db = db} (inserted new e fresh) h = insert-IsWellFormed new db e fresh h
  Change-IsWellFormed {db = db}
        (replaced utc now id new_id overlap_until old new e fresh found free) h =
      update-IsWellFormed (has_id id) (replaced_row now new_id overlap_until)
        (record db { keys = new ∷ db.keys; next_id = db.next_id + 1 }) (λ r. refl) (λ r. refl)
        (insert-IsWellFormed new db e fresh h)

  -- A row that is in the table has an id below the sequence's next.
  id_below :
      (id bound : ℕ) (rows : List (VirtualKey V)) (old : VirtualKey V)
      → All (λ r. r.id < bound) rows
      → find (has_id id) rows ≡ some old
      → id < bound
  id_below id bound [] old h e = absurd (cc)
  id_below id bound (r ∷ rows) old h e = elim (Bool-cases (has_id id r)) [
    | inl hit ↦ ground (arith, h.0, hit)
    | inr miss ↦ id_below id bound rows old h.1 (rw miss at e)
  ]

  pub Change-HasLapsed :
      (hash : String) (since : ℕ) {db later : KeyDatabase V}
      → Change db later
      → IsWellFormed db
      → HasLapsed hash since db.keys
      → HasLapsed hash since later.keys
  Change-HasLapsed hash since unchanged w h = h
  Change-HasLapsed hash since id_taken w h = h
  Change-HasLapsed hash since {db = db} (used now id) w h =
      HasLapsed-used hash since now id db.keys h
  Change-HasLapsed hash since {db = db} (revoked now id) w h =
      HasLapsed-revoked hash since now id db.keys h
  Change-HasLapsed hash since {db = db} (inserted new e fresh) w h =
      HasLapsed-inserted hash since new db.keys fresh h
  Change-HasLapsed hash since {db = db}
        (replaced utc now id new_id overlap_until old new e fresh found free) w h =
      let b : id < db.next_id = id_below id db.next_id db.keys old w.below found in
      HasLapsed-replaced hash since utc now id new_id overlap_until old (new ∷ db.keys)
        ((λ g. absurd (ground (arith, e, b, g))), same_id id db.keys old w.distinct found) free
        (HasLapsed-inserted hash since new db.keys fresh h)

  module _ (json : Json V) {D : Type 0} (sha : Sha256 D) where
    -- Creations, revocations, rotations and authentications, in any order, successful or not, keep the ids
    -- and the hashes of the table of virtual keys unique and its ids below the next of the sequence.
    pub Steps-IsWellFormed :
        {db later : KeyDatabase V} → Steps json sha db later → IsWellFormed db → IsWellFormed later
    Steps-IsWellFormed still w = w
    Steps-IsWellFormed (next s step) w =
        Change-IsWellFormed (Step-Change json sha step) (Steps-IsWellFormed s w)

    pub Steps-HasLapsed :
        (hash : String) (since : ℕ) {db later : KeyDatabase V}
        → Steps json sha db later
        → IsWellFormed db
        → HasLapsed hash since db.keys
        → HasLapsed hash since later.keys
    Steps-HasLapsed hash since still w h = h
    Steps-HasLapsed hash since (next s step) w h =
        Change-HasLapsed hash since (Step-Change json sha step) (Steps-IsWellFormed s w)
          (Steps-HasLapsed hash since s w h)
