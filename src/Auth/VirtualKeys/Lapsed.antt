-- ===== src/Auth/VirtualKeys/Lapsed.antt =====
-- Keys of src/infra/db/virtual_keys.rs that are of no use from an instant on.
use my_ai_gateway.Prelude.{
  All-both, find-passes, ℕ, ◌≤◌, Bool, true, false, not, ◌&&◌, ◌≡◌, refl, Option, none, some,
  String, ◌==◌, eq_iff, List, [], ◌∷◌, find, any, ltb, All, Bool-cases, inl, inr, arith, if-elim,
  is_some, is_some_and,
}
use my_ai_gateway.Prelude.Sql.{SqlResult, ok, err, unavailable}
use my_ai_gateway.Proxy.Json.{Json}
use my_ai_gateway.Auth.{Sha256, hash_key}
use my_ai_gateway.Auth.VirtualKeys.{
  VirtualKey, KeyDatabase, has_id, has_hash, usable, revocable, revoked_row, update_where,
}
use my_ai_gateway.Auth.Authenticate.{
  KeyIdentity, used_row, usable_id, authenticate_virtual_key_with_identity, authenticate_scope,
}
use my_ai_gateway.Auth.Rotation.{rotation_conflict, replaced_row}
use my_ai_gateway.Auth.VirtualKeys.Table.{All-become, All-update, any-update}

-- The reasons why a key is of no use at the instant and later.
pub data Lapsed {V : Type 0} (since : ℕ) (r : VirtualKey V) : Type 0 where
  disabled : r.enabled ≡ false → Lapsed since r
  revoked : is_some r.revoked_at ≡ true → Lapsed since r
  expired : (t : ℕ) → r.expires_at ≡ some t → t ≤ since → Lapsed since r
  replaced :
      is_some r.replaced_by_id ≡ true
      → is_some_and (λ t. ltb since t) r.overlap_until ≡ false
      → Lapsed since r

later_overlap :
    (o : Option ℕ) (since now : ℕ)
    → since ≤ now
    → is_some_and (λ t. ltb since t) o ≡ false
    → is_some_and (λ t. ltb now t) o ≡ false
later_overlap none since now le h = refl
later_overlap (some t) since now le h = ground arith

module _ {V : Type 0} where
  pub Lapsed-unusable :
      {since : ℕ} {r : VirtualKey V} (now : ℕ) → since ≤ now → Lapsed since r → usable now r ≡ false
  unfolding usable
  Lapsed-unusable now le (disabled e) = rw e refl
  Lapsed-unusable {r = r} now le (revoked e) = ground (arith, e)
  Lapsed-unusable {r = r} now le (expired t e le') = rw e (ground arith)
  Lapsed-unusable {since = since} {r = r} now le (replaced e o) =
      let p : is_some_and (λ t. ltb now t) r.overlap_until ≡ false =
        later_overlap r.overlap_until since now le o in
      ground (arith, p, e)

  -- The table has the hash, and its key is of no use from the instant on.
  pub record HasLapsed (hash : String) (since : ℕ) (rows : List (VirtualKey V)) : Type 0 where
    pub present : any (has_hash hash) rows ≡ true
    pub lapsed : All (λ r. has_hash hash r ≡ true → Lapsed since r) rows

  HasLapsed-update :
      (hash : String) (since : ℕ) (p : VirtualKey V → Bool) (f : VirtualKey V → VirtualKey V)
      (rows : List (VirtualKey V))
      → ((r : VirtualKey V) → (f r).key_hash ≡ r.key_hash)
      → ((r : VirtualKey V) → p r ≡ true → Lapsed since r → Lapsed since (f r))
      → HasLapsed hash since rows
      → HasLapsed hash since (update_where p f rows)
  HasLapsed-update hash since p f rows hashes keeps h = record {
    present = rw (any-update hash p f rows hashes) h.present;
    lapsed =
        All-update (λ r. has_hash hash r ≡ true → Lapsed since r) p f rows
          (λ r e l g. keeps r e (l (rw (hashes r) at g))) h.lapsed;
  }

  unusable_hash :
      (hash : String) (since now : ℕ) (rows : List (VirtualKey V))
      → since ≤ now
      → All (λ r. has_hash hash r ≡ true → Lapsed since r) rows
      → find (λ r. has_hash hash r && usable now r) rows ≡ none
  unfolding usable
  unusable_hash hash since now [] le h = refl
  unusable_hash hash since now (r ∷ rows) le h =
      let ih = unusable_hash hash since now rows le h.1 in
      elim (Bool-cases (has_hash hash r)) [
        | inl e ↦ let u : usable now r ≡ false = Lapsed-unusable now le (h.0 e) in rw (e, u) ih
        | inr e ↦ rw e ih
      ]

  -- Nobody is authenticated, and nothing is written.
  pub data Refused (db : KeyDatabase V)
      : SqlResult (Option KeyIdentity) × KeyDatabase V → Type 0 where
    no_key : Refused db (ok none, db)
    no_answer : Refused db (err unavailable, db)

  pub HasLapsed-Refused :
      (json : Json V) {D : Type 0} (sha : Sha256 D) {since : ℕ} (now : ℕ) (db : KeyDatabase V)
      (raw : String) (model : Option String)
      → since ≤ now
      → HasLapsed (hash_key sha raw) since db.keys
      → Refused db (authenticate_virtual_key_with_identity json sha now db raw model)
  unfolding authenticate_virtual_key_with_identity authenticate_scope
  HasLapsed-Refused json sha {since = since} now db raw model le h =
      let q : find (λ r. has_hash (hash_key sha raw) r && usable now r) db.keys ≡ none =
        unusable_hash (hash_key sha raw) since now db.keys le h.lapsed in
      if-elim (Refused db) (not db.reachable) (λ _. no_answer) (λ _. rw q no_key)

  -- The operations on the rows keep a lapsed key lapsed.
  pub HasLapsed-used :
      (hash : String) (since now id : ℕ) (rows : List (VirtualKey V))
      → HasLapsed hash since rows
      → HasLapsed hash since (update_where (usable_id now id) (used_row now) rows)
  unfolding used_row
  HasLapsed-used hash since now id rows h =
      HasLapsed-update hash since (usable_id now id) (used_row now) rows (λ r. refl) used h
    where
      used :
          (r : VirtualKey V)
          → usable_id now id r ≡ true
          → Lapsed since r
          → Lapsed since (used_row now r)
      used r e (disabled g) = disabled g
      used r e (revoked g) = revoked g
      used r e (expired t g le) = expired t g le
      used r e (replaced g o) = replaced g o

  pub HasLapsed-revoked :
      (hash : String) (since now id : ℕ) (rows : List (VirtualKey V))
      → HasLapsed hash since rows
      → HasLapsed hash since (update_where (revocable id) (revoked_row now) rows)
  unfolding revoked_row
  HasLapsed-revoked hash since now id rows h =
      HasLapsed-update hash since (revocable id) (revoked_row now) rows (λ r. refl)
        (λ r e l. disabled refl) h

  pub new_differs :
      (hash other : String) (rows : List (VirtualKey V))
      → any (has_hash hash) rows ≡ true
      → any (has_hash other) rows ≡ false
      → (other == hash) ≡ true
      → (A : Type 0) → A
  new_differs hash other rows p q e A =
      let n : other ≡ hash = (eq_iff other hash).0 e in
      let q' : any (has_hash hash) rows ≡ false = rw n at q in absurd (cc)

  pub HasLapsed-inserted :
      (hash : String) (since : ℕ) (new : VirtualKey V) (rows : List (VirtualKey V))
      → any (has_hash new.key_hash) rows ≡ false
      → HasLapsed hash since rows
      → HasLapsed hash since (new ∷ rows)
  HasLapsed-inserted hash since new rows fresh h = record {
    present = rw h.present (ground arith);
    lapsed =
        ((λ e. new_differs hash new.key_hash rows h.present fresh e (Lapsed since new)), h.lapsed);
  }

  -- A row that is rotated has no replacement yet and is enabled, so if it has lapsed it has expired.
  pub replaced_stays :
      {since : ℕ} (utc now new_id : ℕ) (overlap_until : Option ℕ) (r : VirtualKey V)
      → rotation_conflict utc r ≡ none
      → Lapsed since r
      → Lapsed since (replaced_row now new_id overlap_until r)
  unfolding rotation_conflict replaced_row
  replaced_stays utc now new_id overlap_until r h (disabled g) = absurd (ground (arith, h, g))
  replaced_stays utc now new_id overlap_until r h (revoked g) = absurd (ground (arith, h, g))
  replaced_stays utc now new_id overlap_until r h (expired t g le) = expired t g le
  replaced_stays utc now new_id overlap_until r h (replaced g o) = absurd (ground (arith, h, g))

  pub HasLapsed-replaced :
      (hash : String) (since utc now id new_id : ℕ) (overlap_until : Option ℕ) (old : VirtualKey V)
      (rows : List (VirtualKey V))
      → All (λ r. has_id id r ≡ true → r ≡ old) rows
      → rotation_conflict utc old ≡ none
      → HasLapsed hash since rows
      → HasLapsed hash since (update_where (has_id id) (replaced_row now new_id overlap_until) rows)
  unfolding replaced_row
  HasLapsed-replaced hash since utc now id new_id overlap_until old rows only none_yet h = record {
    present =
        rw (any-update hash (has_id id) (replaced_row now new_id overlap_until) rows (λ r. refl))
          h.present;
    lapsed =
        All-become (λ r. (has_id id r ≡ true → r ≡ old) × (has_hash hash r ≡ true → Lapsed since r))
          (λ r. has_hash hash r ≡ true → Lapsed since r) (has_id id)
          (replaced_row now new_id overlap_until) rows
          (λ r e both g.
            replaced_stays utc now new_id overlap_until r (rw (both.0 e) none_yet) (both.1 g))
          (λ r e both. both.1)
          (All-both (λ r. has_id id r ≡ true → r ≡ old)
            (λ r. has_hash hash r ≡ true → Lapsed since r) rows only h.lapsed);
  }

  unrevocable :
      (id : ℕ) (s : VirtualKey V) → has_id id s ≡ true → revocable id s ≡ false → Lapsed 0 s
  unfolding revocable
  unrevocable id s hit e = elim (Bool-cases s.enabled) [
    | inl on ↦ revoked (ground (arith, hit, e, on))
    | inr off ↦ disabled off
  ]

  -- A revocation, of a row that the id names: whether or not it changes the row, the key has lapsed.
  pub revoked-HasLapsed :
      (now id : ℕ) (r : VirtualKey V) (rows : List (VirtualKey V))
      → All (λ s. has_hash r.key_hash s ≡ true → s ≡ r) rows
      → find (has_id id) rows ≡ some r
      → any (has_hash r.key_hash) rows ≡ true
      → HasLapsed r.key_hash 0 (update_where (revocable id) (revoked_row now) rows)
  unfolding revoked_row revocable
  revoked-HasLapsed now id r rows only found there = record {
    present = rw (any-update r.key_hash (revocable id) (revoked_row now) rows (λ s. refl)) there;
    lapsed =
        All-become (λ s. has_hash r.key_hash s ≡ true → s ≡ r)
          (λ s. has_hash r.key_hash s ≡ true → Lapsed 0 s) (revocable id) (revoked_row now) rows
          (λ s e one g. disabled refl)
          (λ s e one g.
            let hit : has_id id s ≡ true = rw (one g) (find-passes (has_id id) rows r found) in
            unrevocable id s hit e)
          only;
  }
