-- ===== src/Auth/Identity/Sources.antt =====
-- Where the identity of a request comes from, of src/auth.rs.
use my_ai_gateway.Prelude.{
  ℕ, true, ◌≡◌, refl, Option, none, some, is_some, String, find, if◌then◌else◌, if-elim, subst,
  arith, false,
}
use my_ai_gateway.Proxy.Json.{Json}
use my_ai_gateway.Prelude.Sql.{SqlResult}
use my_ai_gateway.Auth.{Sha256, HeaderMap, supplied_key, hash_key, key_digest, key_matches_digest}
use my_ai_gateway.Auth.VirtualKeys.{VirtualKey, KeyDatabase, has_hash, set_where}
use my_ai_gateway.Auth.VirtualKeys.Table.{IsWellFormed}
use my_ai_gateway.Auth.Authenticate.{KeyIdentity, used_row, usable_id}
use my_ai_gateway.Auth.Authenticate.Rows.{IsUsable}
use my_ai_gateway.Auth.Authenticate.Admission.{
  Permits, Admission, no_answer, refused, granted, authenticate-Admission,
}
use my_ai_gateway.Auth.Identity.{
  AuthIdentity, static_api_key, virtual_key, identity_of, matches_static, by_database,
  authorized_with_db,
}

-- Where there is a database, its table of keys is well-formed.
abbrev pub WellFormed : {V : Type 0} → Option (KeyDatabase V) → Type 0
WellFormed none = Unit {0}
WellFormed (some db) = IsWellFormed db

module _ {V : Type 0} (json : Json V) {D : Type 0} (sha : Sha256 D) where
  -- The request's key has the digest of the environment's key.
  pub record HasStaticKey (api_key : Option String) (headers : HeaderMap) : Type 0 where
    pub expected : String
    pub key : String
    pub configured : api_key ≡ some expected
    pub supplied : supplied_key headers ≡ some key
    pub same_digest : sha.ct_eq (sha.digest expected) (sha.digest key) ≡ true

  -- A row of the table lets the request in: the table answers, the row has the hash of the request's key,
  -- it is usable, and it permits the model and the scope.
  pub record LetsIn (now : ℕ) (headers : HeaderMap) (model : Option String) (db : KeyDatabase V)
      (r : VirtualKey V) : Type 0 where
    pub answers : db.reachable ≡ true
    pub key : String
    pub supplied : supplied_key headers ≡ some key
    pub found : find (has_hash (hash_key sha key)) db.keys ≡ some r
    pub is_usable : IsUsable now r
    pub permits : Permits json model r

  -- The sources of an identity, and the table that the check leaves.
  pub data Identified (api_key : Option String) (now : ℕ) (headers : HeaderMap)
      (model : Option String)
      : Option (KeyDatabase V) → Option AuthIdentity × Option (KeyDatabase V) → Type 0 where
    environment :
        (database : Option (KeyDatabase V))
        → HasStaticKey api_key headers
        → Identified api_key now headers model database (some static_api_key, database)
    without_keys :
        api_key ≡ none → Identified api_key now headers model none (some static_api_key, none)
    by_row :
        (db : KeyDatabase V) (r : VirtualKey V)
        → ¬ HasStaticKey api_key headers
        → LetsIn now headers model db r
        → Identified api_key now headers model (some db) (
          some (virtual_key r.id r.name r.key_prefix),
          some (set_where (usable_id now r.id) (used_row now) db),
        )
    other_key :
        ¬ HasStaticKey api_key headers
        → (expected : String) → api_key ≡ some expected
        → Identified api_key now headers model none (none, none)
    no_row :
        (db : KeyDatabase V)
        → ¬ HasStaticKey api_key headers
        → ((r : VirtualKey V) → ¬ LetsIn now headers model db r)
        → Identified api_key now headers model (some db) (none, some db)

  module _ (api_key : Option String) (now : ℕ) (headers : HeaderMap) (model : Option String) where
    of_key :
        (db : KeyDatabase V) (key : String) {r : SqlResult (Option KeyIdentity) × KeyDatabase V}
        → ¬ HasStaticKey api_key headers
        → supplied_key headers ≡ some key
        → Admission json sha now db key model r
        → Identified api_key now headers model (some db) (identity_of r.0, some r.1)
    of_key db key other e (no_answer down) =
        no_row db other (λ r l. let up : db.reachable ≡ true = l.answers in absurd (cc))
    of_key db key other e (refused up none_fits) = no_row db other (λ r l.
        let same : l.key ≡ key = ground (arith, l.supplied, e) in
        none_fits r (subst (λ k. find (has_hash (hash_key sha k)) db.keys ≡ some r) same l.found)
          l.is_usable l.permits)
    of_key db key other e (granted r up found u p) = by_row db r other (record {
      answers = up;
      key = key;
      supplied = e;
      found = found;
      is_usable = u;
      permits = p;
    })

    of_database :
        (db : KeyDatabase V) (supplied : Option String)
        → ¬ HasStaticKey api_key headers
        → supplied_key headers ≡ supplied
        → IsWellFormed db
        → Identified api_key now headers model
            (some db)
            (by_database json sha now db supplied model)
    unfolding by_database
    of_database db none other e w =
        no_row db other
          (λ r l. let given : supplied_key headers ≡ some l.key = l.supplied in absurd (cc))
    of_database db (some key) other e w =
        of_key db key other e (authenticate-Admission json sha now db key model w)

    matches-HasStaticKey :
        (expected supplied : Option String)
        → api_key ≡ expected
        → supplied_key headers ≡ supplied
        → matches_static sha expected supplied ≡ true
        → HasStaticKey api_key headers
    unfolding matches_static key_matches_digest key_digest
    matches-HasStaticKey none supplied e g h = absurd (cc)
    matches-HasStaticKey (some expected) none e g h = absurd (cc)
    matches-HasStaticKey (some expected) (some key) e g h = record {
      expected = expected;
      key = key;
      configured = e;
      supplied = g;
      same_digest = h;
    }

    other_digest :
        matches_static sha api_key (supplied_key headers) ≡ false → ¬ HasStaticKey api_key headers
    unfolding matches_static key_matches_digest key_digest
    other_digest h s =
        let bad : matches_static sha (some s.expected) (some s.key) ≡ false =
          subst (λ o. matches_static sha o (some s.key) ≡ false) s.configured
            (subst (λ o. matches_static sha api_key o ≡ false) s.supplied h) in
        let same : sha.ct_eq (sha.digest s.expected) (sha.digest s.key) ≡ true = s.same_digest in
        absurd (cc)

    without_database :
        (expected : Option String)
        → ¬ HasStaticKey api_key headers
        → api_key ≡ expected
        → Identified api_key now headers model none
            (if is_some expected then none else some static_api_key, none)
    without_database none other e = without_keys e
    without_database (some expected) other e = other_key other expected e

    -- Where the identity of a request comes from. It is that of the environment's key exactly if the
    -- request's key has its digest, whatever the database says, or if neither such a key nor a database is
    -- configured. Otherwise it is a virtual key exactly if the table, which is well-formed, answers and its
    -- row of the hash of the request's key is enabled, not revoked, not expired and within its overlap if
    -- it was replaced, and permits the model and the scope; then the last use is set. Else there is no
    -- identity, and nothing is written.
    pub authorized_with_db-Identified :
        (database : Option (KeyDatabase V))
        → WellFormed database
        → Identified api_key now headers model database
            (authorized_with_db json sha api_key now database headers model)
    unfolding authorized_with_db
    authorized_with_db-Identified none w =
        if-elim (Identified api_key now headers model none)
          (matches_static sha api_key (supplied_key headers))
          (λ h. environment none (matches-HasStaticKey api_key (supplied_key headers) refl refl h))
          (λ h. without_database api_key (other_digest h) refl)
    authorized_with_db-Identified (some db) w =
        if-elim (Identified api_key now headers model (some db))
          (matches_static sha api_key (supplied_key headers))
          (λ h.
            environment (some db) (matches-HasStaticKey api_key (supplied_key headers) refl refl h))
          (λ h. of_database db (supplied_key headers) (other_digest h) refl w)
