-- ===== src/Auth/VirtualKeys/Table.antt =====
-- Updates of the table of src/infra/db/virtual_keys.rs, and the uniqueness of its ids and hashes.
use my_ai_gateway.Prelude.{
  All-map, ℕ, ◌<◌, Bool, true, false, ◌≡◌, refl, some, String, ◌==◌, eq_iff, List, [], ◌∷◌, find,
  any, eqb, All, if◌then◌else◌, Bool-cases, inl, inr, arith, if-elim,
}
use my_ai_gateway.Auth.VirtualKeys.{VirtualKey, KeyDatabase, update_where, has_id, has_hash}

pub eqb→≡ : (a b : ℕ) → eqb a b ≡ true → a ≡ b
eqb→≡ a b h = ground arith

module _ {V : Type 0} where
  pub All-update :
      (P : VirtualKey V → Type 0) (p : VirtualKey V → Bool) (f : VirtualKey V → VirtualKey V)
      (rows : List (VirtualKey V))
      → ((r : VirtualKey V) → p r ≡ true → P r → P (f r))
      → All P rows
      → All P (update_where p f rows)
  All-update P p f [] h all = tt
  All-update P p f (r ∷ rows) h all =
      (if-elim P (p r) (λ e. h r e all.0) (λ _. all.0), All-update P p f rows h all.1)

  -- An update that turns the one property of the rows into the other.
  pub All-become :
      (P Q : VirtualKey V → Type 0) (p : VirtualKey V → Bool) (f : VirtualKey V → VirtualKey V)
      (rows : List (VirtualKey V))
      → ((r : VirtualKey V) → p r ≡ true → P r → Q (f r))
      → ((r : VirtualKey V) → p r ≡ false → P r → Q r)
      → All P rows
      → All Q (update_where p f rows)
  All-become P Q p f [] h k all = tt
  All-become P Q p f (r ∷ rows) h k all =
      (if-elim Q (p r) (λ e. h r e all.0) (λ e. k r e all.0), All-become P Q p f rows h k all.1)

  -- A hash that is in the table is there after an update that leaves hashes alone.
  pub any-update :
      (hash : String) (p : VirtualKey V → Bool) (f : VirtualKey V → VirtualKey V)
      (rows : List (VirtualKey V))
      → ((r : VirtualKey V) → (f r).key_hash ≡ r.key_hash)
      → any (has_hash hash) (update_where p f rows) ≡ any (has_hash hash) rows
  any-update hash p f [] keep = refl
  any-update hash p f (r ∷ rows) keep = elim (Bool-cases (p r)) [
    | inl e ↦ rw (e, keep r, any-update hash p f rows keep) refl
    | inr e ↦ rw (e, any-update hash p f rows keep) refl
  ]

  -- Rows differ in id and in hash.
  abbrev pub Apart : VirtualKey V → VirtualKey V → Type 0
  Apart r s = (eqb s.id r.id ≡ false) × ((s.key_hash == r.key_hash) ≡ false)

  abbrev pub Distinct : List (VirtualKey V) → Type 0
  Distinct [] = Unit
  Distinct (r ∷ rows) = All (Apart r) rows × Distinct rows

  -- The ids and hashes are unique, and the sequence is ahead of the ids.
  pub record IsWellFormed (db : KeyDatabase V) : Type 0 where
    pub distinct : Distinct db.keys
    pub below : All (λ r. r.id < db.next_id) db.keys

  pub Distinct-update :
      (p : VirtualKey V → Bool) (f : VirtualKey V → VirtualKey V) (rows : List (VirtualKey V))
      → ((r : VirtualKey V) → (f r).id ≡ r.id)
      → ((r : VirtualKey V) → (f r).key_hash ≡ r.key_hash)
      → Distinct rows
      → Distinct (update_where p f rows)
  Distinct-update p f [] ids hashes h = tt
  Distinct-update p f (r ∷ rows) ids hashes h = (
    All-update (Apart (if p r then f r else r)) p f rows
        (λ s e a. (rw (ids s) a.0, rw (hashes s) a.1))
        (if-elim (λ r'. All (Apart r') rows) (p r)
          (λ _. All-map rows (λ s a. (rw (ids r) a.0, rw (hashes r) a.1)) h.0) (λ _. h.0)),
    Distinct-update p f rows ids hashes h.1,
  )

  -- In a table of unique ids, a row of an id is the one that a search for the id finds.
  pub same_id :
      (id : ℕ) (rows : List (VirtualKey V)) (old : VirtualKey V)
      → Distinct rows
      → find (has_id id) rows ≡ some old
      → All (λ r. has_id id r ≡ true → r ≡ old) rows
  same_id id [] old h e = tt
  same_id id (r ∷ rows) old h e = elim (Bool-cases (has_id id r)) [
    | inl hit ↦
        let q : r ≡ old = ground arith in
        let n : r.id ≡ id = eqb→≡ r.id id hit in
        (λ _. q, All-map rows (λ s a g. absurd (ground (arith, a.0, g, n))) h.0)
    | inr miss ↦ (λ g. absurd (cc), same_id id rows old h.1 (rw miss at e))
  ]

  -- So for hashes.
  pub same_hash :
      (hash : String) (rows : List (VirtualKey V)) (old : VirtualKey V)
      → Distinct rows
      → find (has_hash hash) rows ≡ some old
      → All (λ r. has_hash hash r ≡ true → r ≡ old) rows
  same_hash hash [] old h e = tt
  same_hash hash (r ∷ rows) old h e = elim (Bool-cases (has_hash hash r)) [
    | inl hit ↦
        let q : r ≡ old = ground arith in
        let n : r.key_hash ≡ hash = (eq_iff r.key_hash hash).0 hit in
        (
          λ _. q,
          All-map rows
              (λ s a g.
                let g' : (s.key_hash == r.key_hash) ≡ true = rw n g in
                absurd (ground (arith, a.1, g')))
              h.0,
        )
    | inr miss ↦ (λ g. absurd (cc), same_hash hash rows old h.1 (rw miss at e))
  ]
