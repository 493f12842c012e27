-- ===== src/Auth/Authenticate/Rows.antt =====
-- The rows that the queries of src/infra/db/virtual_keys.rs select for a key.
use my_ai_gateway.Prelude.{
  find-passes, ℕ, ◌<◌, Bool, true, false, not, ◌&&◌, ◌||◌, ◌≡◌, refl, Option, none, some, String,
  ◌==◌, eq_iff, List, [], ◌∷◌, find, retain, length, eqb, ltb, All, All-find, Bool-cases, inl, inr,
  arith, subst, sym, is_some, is_some_and,
}
use my_ai_gateway.Auth.VirtualKeys.{VirtualKey, has_hash, usable}
use my_ai_gateway.Auth.Authenticate.{usable_id}
use my_ai_gateway.Auth.VirtualKeys.Table.{Distinct, Apart}

-- A key can be used at an instant: it is enabled and not revoked, it has not expired, and if it was
-- replaced, the overlap has not ended.
pub record IsUsable {V : Type 0} (now : ℕ) (r : VirtualKey V) : Type 0 where
  pub enabled : r.enabled ≡ true
  pub not_revoked : r.revoked_at ≡ none
  pub not_expired : (t : ℕ) → r.expires_at ≡ some t → now < t
  pub in_overlap :
      (n : ℕ) → r.replaced_by_id ≡ some n → (t : ℕ) × (r.overlap_until ≡ some t) × (now < t)

module _ (now : ℕ) where
  -- An instant that is absent or still to come.
  abbrev ahead : Option ℕ → Option ℕ → Bool
  ahead o u = not (is_some o) || is_some_and (λ t. ltb now t) u

  ahead-expiry : (o : Option ℕ) (t : ℕ) → ahead o o ≡ true → o ≡ some t → now < t
  ahead-expiry none t h e = absurd (cc)
  ahead-expiry (some u) t h e = ground arith

  expiry-ahead : (o : Option ℕ) → ((t : ℕ) → o ≡ some t → now < t) → ahead o o ≡ true
  expiry-ahead none h = refl
  expiry-ahead (some t) h = ground (arith, h t refl)

  ahead-overlap :
      (o u : Option ℕ) (n : ℕ) → ahead o u ≡ true → o ≡ some n → (t : ℕ) × (u ≡ some t) × (now < t)
  ahead-overlap none u n h e = absurd (cc)
  ahead-overlap (some m) none n h e = absurd (cc)
  ahead-overlap (some m) (some t) n h e = (t, refl, ground arith)

  overlap-ahead :
      (o u : Option ℕ)
      → ((n : ℕ) → o ≡ some n → (t : ℕ) × (u ≡ some t) × (now < t))
      → ahead o u ≡ true
  overlap-ahead none u h = refl
  overlap-ahead (some n) u h = let p = h n refl in rw p.1 (ground (arith, p.2))

  is_none : {A : Type 0} (o : Option A) → not (is_some o) ≡ true → o ≡ none
  is_none none h = refl
  is_none (some a) h = absurd (cc)

  module _ {V : Type 0} where
    pub usable-IsUsable : (r : VirtualKey V) → usable now r ≡ true → IsUsable now r
    unfolding usable
    usable-IsUsable r h = record {
      enabled = ground (arith, h);
      not_revoked = is_none r.revoked_at (ground (arith, h));
      not_expired = λ t e. ahead-expiry r.expires_at t (ground (arith, h)) e;
      in_overlap = λ n e. ahead-overlap r.replaced_by_id r.overlap_until n (ground (arith, h)) e;
    }

    pub IsUsable-usable : (r : VirtualKey V) → IsUsable now r → usable now r ≡ true
    unfolding usable
    IsUsable-usable r h =
        let e : ahead r.expires_at r.expires_at ≡ true = expiry-ahead r.expires_at h.not_expired in
        let o : ahead r.replaced_by_id r.overlap_until ≡ true =
          overlap-ahead r.replaced_by_id r.overlap_until h.in_overlap in
        ground (arith, e, o, h.enabled, h.not_revoked)

    abbrev usable_hash : String → VirtualKey V → Bool
    usable_hash hash r = has_hash hash r && usable now r

    -- The search for a usable row of a hash, in a table of unique hashes.
    pub first_usable :
        (hash : String) (rows : List (VirtualKey V)) (row : VirtualKey V)
        → Distinct rows
        → find (usable_hash hash) rows ≡ some row
        → find (has_hash hash) rows ≡ some row
    first_usable hash [] row d e = absurd (cc)
    first_usable hash (r ∷ rows) row d e = elim (Bool-cases (has_hash hash r)) [
      | inl hit ↦ elim (Bool-cases (usable now r)) [
        | inl u ↦ rw hit (rw (hit, u) at e)
        | inr u ↦
            let found : find (usable_hash hash) rows ≡ some row = rw (hit, u) at e in
            let p : usable_hash hash row ≡ true = find-passes (usable_hash hash) rows row found in
            let a : (row.key_hash == r.key_hash) ≡ false =
              (All-find (Apart r) (usable_hash hash) rows row d.0 found).1 in
            let q : row.key_hash ≡ hash = (eq_iff row.key_hash hash).0 (ground (arith, p)) in
            let q' : r.key_hash ≡ hash = (eq_iff r.key_hash hash).0 hit in
            absurd (ground (arith, a, (eq_iff row.key_hash r.key_hash).1 (cc)))
      ]
      | inr miss ↦
          let found : find (usable_hash hash) rows ≡ some row = rw miss at e in
          rw miss (first_usable hash rows row d.1 found)
    ]

    pub none-usable :
        (hash : String) (rows : List (VirtualKey V)) (row : VirtualKey V)
        → find (usable_hash hash) rows ≡ none
        → find (has_hash hash) rows ≡ some row
        → usable now row ≡ false
    none-usable hash [] row e f = absurd (cc)
    none-usable hash (r ∷ rows) row e f = elim (Bool-cases (has_hash hash r)) [
      | inl hit ↦
          let q : r ≡ row = ground arith in
          elim (Bool-cases (usable now r)) [
            | inl u ↦ absurd (ground (arith, hit, u, e))
            | inr u ↦ subst (λ s. usable now s ≡ false) q u
          ]
      | inr miss ↦ none-usable hash rows row (rw miss at e) (rw miss at f)
    ]

    none_other :
        (r : VirtualKey V) (rows : List (VirtualKey V))
        → All (Apart r) rows
        → length (retain (usable_id now r.id) rows) ≡ 0
    none_other r [] h = refl
    none_other r (s ∷ rows) h = rw h.0.0 (none_other r rows h.1)

    -- The update reaches one row.
    pub count_one :
        (rows : List (VirtualKey V)) (row : VirtualKey V)
        → Distinct rows
        → find (has_hash row.key_hash) rows ≡ some row
        → usable now row ≡ true
        → length (retain (usable_id now row.id) rows) ≡ 1
    count_one [] row d e u = absurd (cc)
    count_one (r ∷ rows) row d e u = elim (Bool-cases (has_hash row.key_hash r)) [
      | inl hit ↦
          let q : r ≡ row = ground arith in
          let own : eqb row.id row.id ≡ true = ground arith in
          let rest : length (retain (usable_id now row.id) rows) ≡ 0 =
            subst (λ s. length (retain (usable_id now s.id) rows) ≡ 0) q (none_other r rows d.0) in
          subst (λ s. length (retain (usable_id now row.id) (s ∷ rows)) ≡ 1) (sym q)
            (ground (arith, own, u, rest))
      | inr miss ↦
          let found : find (has_hash row.key_hash) rows ≡ some row = rw miss at e in
          let a : eqb row.id r.id ≡ false =
            (All-find (Apart r) (has_hash row.key_hash) rows row d.0 found).0 in
          let b : eqb r.id row.id ≡ false = ground (arith, a) in
          rw b (count_one rows row d.1 found u)
    ]
