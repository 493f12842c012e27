-- ===== src/SourceUrl/Redirect.antt =====
-- The redirects that the client of src/source_url.rs follows.
use my_ai_gateway.Prelude.{
  ◌+◌, ◌≤◌, true, false, ◌≡◌, refl, sym, subst, List, [], ◌∷◌, ◌++◌, length, length-append, All,
  All-append, arith,
}
use my_ai_gateway.SourceUrl.Policy.{
  Url, Parsers, SourceUrlPolicy, Checked, ok, err, is_err, max_redirects, same_origin,
  validate_request_url, follows,
}

module _ {N : Type 0} (parsers : Parsers N) (policy : SourceUrlPolicy N) where
  -- The URLs that are requested one after the other, from `initial` on.
  pub data Chain (initial : Url) : List Url → Type 0 where
    begun : Chain initial (initial ∷ [])
    redirected :
        {previous : List Url} (url : Url)
        → Chain initial previous
        → follows parsers policy previous url ≡ true
        → Chain initial (previous ++ (url ∷ []))

  -- A URL on the origin of the first one, which the policy allows.
  pub record IsSafe (initial url : Url) : Type 0 where
    pub on_origin : same_origin initial url ≡ true
    pub is_valid : Path (Checked {0} Unit) (validate_request_url parsers policy url) (ok tt)

  -- At most six URLs, and every one after the first is safe.
  pub record IsSafeChain (initial : Url) (urls : List Url) : Type 0 where
    pub bounded : length urls ≤ max_redirects + 1
    rest : List Url
    pub begins : urls ≡ initial ∷ rest
    pub all_safe : All (IsSafe initial) rest

  valid_of : (c : Checked {0} Unit) → is_err c ≡ false → Path (Checked {0} Unit) c (ok tt)
  valid_of (ok u) h = refl
  valid_of (err e) h = absurd (cc)

  follows-safe :
      (initial : Url) (rest : List Url) (url : Url)
      → follows parsers policy (initial ∷ rest) url ≡ true
      → (length (initial ∷ rest) ≤ max_redirects)
        × (same_origin initial url ≡ true)
        × (is_err (validate_request_url parsers policy url) ≡ false)
  unfolding follows
  follows-safe initial rest url h = ground (arith, h)

  extended :
      (initial : Url) (rest : List Url) (url : Url)
      → follows parsers policy (initial ∷ rest) url ≡ true
      → All (IsSafe initial) rest
      → IsSafeChain initial (initial ∷ (rest ++ (url ∷ [])))
  extended initial rest url h safe =
      let (few, origin, valid) = follows-safe initial rest url h in
      record {
        bounded = omega (arith, few, length-append rest (url ∷ []));
        rest = rest ++ (url ∷ []);
        begins = refl;
        all_safe =
            All-append (IsSafe initial) rest (url ∷ []) safe
              (record { on_origin = origin; is_valid = valid_of _ valid }, tt);
      }

  -- However the upstream redirects: at most five redirects of a request are followed, and every URL that is
  -- requested after the first is on the origin of the first and allowed by the policy.
  pub Chain-safe : {initial : Url} {urls : List Url} → Chain initial urls → IsSafeChain initial urls
  Chain-safe begun = record { bounded = omega arith; rest = []; begins = refl; all_safe = tt }
  Chain-safe {initial = initial} (redirected {previous = previous} url chain h) =
      let before = Chain-safe chain in
      subst (λ us. IsSafeChain initial (us ++ (url ∷ []))) (sym before.begins)
        (extended initial before.rest url
          (subst (λ us. follows parsers policy us url ≡ true) before.begins h) before.all_safe)
