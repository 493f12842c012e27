-- ===== src/Proxy/Fallback/Eligible.antt =====
-- The accounts of the candidates that src/proxy/fallback.rs collects.
use my_ai_gateway.Prelude.{
  ℕ, zero, suc, ap, ◌∙◌, ◌≡◌, refl, sym, subst, inl, inr, Bool, true, false, not, ◌&&◌, Option,
  none, some, String, ◌==◌, List, [], ◌∷◌, All, All-retain, Bool-cases, is_empty, if◌then◌else◌,
  any,
}
use my_ai_gateway.Domain.Protocol.{Protocol}
use my_ai_gateway.Domain.Config.{GatewayConfig, AccountConfig, ProviderConfig, account, provider}
use my_ai_gateway.Domain.Routing.{ResolvedBinding, ResolvedRoute}
use my_ai_gateway.Health.Registry.{is_available}
use my_ai_gateway.Proxy.Environment.{Environment, Live, check_available}
use my_ai_gateway.Proxy.Fallback.{
  FallbackCandidate, is_native, push, map_provider, check_account, consider_binding,
  collect_bindings, prefer_native, consider_account, serves, collect_accounts,
  available_fallback_candidates, is_primary_line,
}

-- The world after so many readings of the clock.
abbrev pub after_readings : {W : Type 0} → Environment W → ℕ → W → W
after_readings env zero w = w
after_readings env (suc n) w = (env.utc_now (after_readings env n w)).1

module _ {W : Type 0} (env : Environment W) (config : GatewayConfig) (route : ResolvedRoute)
    (start : Live W) where
  -- The account is in the configuration, is enabled, and is available in the registry of the start at the
  -- instant that one of the readings of the clock from the start on gives.
  pub record IsEligible (c : FallbackCandidate) : Type 0 where
    pub id : String
    pub readings : ℕ
    pub known : account config id ≡ some c.account
    pub enabled : c.account.enabled ≡ true
    pub available :
        is_available env.chrono
          (env.utc_now (after_readings env readings start.world)).0
          start.health
          c.account.id
        ≡ true

  -- What the loops have done so far: they have read the clock, and left the registry alone.
  record Looked (live : Live W) : Type 0 where
    readings : ℕ
    world : live.world ≡ after_readings env readings start.world
    health : live.health ≡ start.health

  abbrev Maybe : Option FallbackCandidate → Type 0
  Maybe none = Unit
  Maybe (some c) = IsEligible c

  All-push :
      (o : Option FallbackCandidate) (cs : List FallbackCandidate)
      → Maybe o
      → All IsEligible cs
      → All IsEligible (push o cs)
  All-push none cs h k = k
  All-push (some c) cs h k = (h, k)

  -- `next` keeps the account.
  abbrev Keeps : AccountConfig → Option FallbackCandidate → Type 0
  Keeps a none = Unit
  Keeps a (some c) = c.account ≡ a

  eligible :
      (id : String) (n : ℕ) (a : AccountConfig) (o : Option FallbackCandidate)
      → account config id ≡ some a
      → a.enabled ≡ true
      → is_available env.chrono (env.utc_now (after_readings env n start.world)).0 start.health a.id
        ≡ true
      → Keeps a o
      → Maybe o
  eligible id n a none known enabled available same = tt
  eligible id n a (some c) known enabled available same = record {
    id = id;
    readings = n;
    known = cc;
    enabled = subst (λ x. AccountConfig.enabled x ≡ true) (sym same) enabled;
    available =
        subst
          (λ x.
            is_available env.chrono (env.utc_now (after_readings env n start.world)).0 start.health
              (AccountConfig.id x)
            ≡ true)
          (sym same) available;
  }

  -- An availability check is one at a reading of the clock.
  check_available-Looked :
      (live : Live W) (id : String) → Looked live → Looked (check_available env live id).1
  unfolding check_available
  check_available-Looked live id l = record {
    readings = suc l.readings;
    world = ap (λ w. (env.utc_now w).1) l.world;
    health = l.health;
  }

  check_available-start :
      (live : Live W) (id : String) (l : Looked live)
      → (check_available env live id).0
        ≡ is_available env.chrono
            (env.utc_now (after_readings env l.readings start.world)).0
            start.health
            id
  unfolding check_available
  check_available-start live id l =
      subst
        (λ w.
          is_available env.chrono (env.utc_now live.world).0 live.health id
          ≡ is_available env.chrono (env.utc_now w).0 start.health id)
        l.world (ap (λ h. is_available env.chrono (env.utc_now live.world).0 h id) l.health)

  -- What a look at a line yields.
  abbrev Found : Option FallbackCandidate × Live W → Type 0
  Found r = Maybe r.0 × Looked r.1

  check_account-Found :
      (live : Live W) (next : AccountConfig → Option FallbackCandidate) (id : String)
      (o : Option AccountConfig)
      → Looked live
      → account config id ≡ o
      → ((a : AccountConfig) → Keeps a (next a))
      → Found (check_account env config route live next o)
  unfolding check_account
  check_account-Found live next id none l known keeps = (tt, l)
  check_account-Found live next id (some a) l known keeps = elim (Bool-cases a.enabled) [
    | inr off ↦ simp (off) (tt, l)
    | inl on ↦ elim (Bool-cases (check_available env live a.id).0) [
      | inr never ↦ simp (on, never) (tt, check_available-Looked live a.id l)
      | inl yes_now ↦
          simp (on, yes_now)
            (
              eligible id l.readings a (next a) known on
                  (sym (check_available-start live a.id l) ∙ yes_now) (keeps a),
              check_available-Looked live a.id l,
            )
    ]
  ]

  map_provider-Keeps :
      (a : AccountConfig) (f : ProviderConfig → Option FallbackCandidate)
      (o : Option ProviderConfig)
      → ((p : ProviderConfig) → Keeps a (f p))
      → Keeps a (map_provider env config route f o)
  map_provider-Keeps a f none h = tt
  map_provider-Keeps a f (some p) h = h p

  if_serves :
      (a : AccountConfig) (t : Bool) (c : FallbackCandidate)
      → c.account ≡ a
      → Keeps a (if t then some c else none)
  if_serves a true c h = h
  if_serves a false c h = tt

  consider_binding-Found :
      (live : Live W) (b : ResolvedBinding)
      → Looked live
      → Found (consider_binding env config route live b)
  unfolding consider_binding
  consider_binding-Found live b l = elim (Bool-cases (is_primary_line env config route b)) [
    | inl primary ↦ simp (primary) (tt, l)
    | inr other ↦ simp (other) (
        check_account-Found live _ b.account_id _ l refl
          (λ a. map_provider-Keeps a _ (provider config b.source_id) (λ p. refl)))
  ]

  collect_bindings-IsEligible :
      (bs : List ResolvedBinding) (live : Live W)
      → Looked live
      → All IsEligible (collect_bindings env config route live bs).0
  unfolding collect_bindings
  collect_bindings-IsEligible [] live l = tt
  collect_bindings-IsEligible (b ∷ bs) live l =
      let found = consider_binding-Found live b l in
      All-push _ _ found.0 (collect_bindings-IsEligible bs _ found.1)

  prefer_native-IsEligible :
      (cs : List FallbackCandidate)
      → All IsEligible cs
      → All IsEligible (prefer_native env config route cs)
  unfolding prefer_native
  prefer_native-IsEligible cs h =
      elim (Bool-cases (not (route.strategy == "ordered_fallback") && any is_native cs)) [
        | inl t ↦ simp (t) (All-retain IsEligible is_native cs h)
        | inr f ↦ simp (f) h
      ]

  module _ (model : String) (protocol : Protocol) where
    consider_account-Found :
        (live : Live W) (id : String)
        → Looked live
        → Found (consider_account env config route model protocol live id)
    unfolding consider_account
    consider_account-Found live id l = elim (Bool-cases (id == route.primary_account_id)) [
      | inl primary ↦ simp (primary) (tt, l)
      | inr other ↦ simp (other) (
          check_account-Found live _ id _ l refl (λ a.
            map_provider-Keeps a _ (provider config a.provider_id)
              (λ p. if_serves a (serves env config route model protocol a p) _ refl)))
    ]

    collect_accounts-IsEligible :
        (ids : List String) (live : Live W)
        → Looked live
        → All IsEligible (collect_accounts env config route model protocol live ids).0
    unfolding collect_accounts
    collect_accounts-IsEligible [] live l = tt
    collect_accounts-IsEligible (id ∷ ids) live l =
        let found = consider_account-Found live id l in
        All-push _ _ found.0 (collect_accounts-IsEligible ids _ found.1)

    -- Every candidate that `available_fallback_candidates` returns has an account of the configuration
    -- that is enabled and that is available in the registry with which the collection starts, at an
    -- instant that the clock gives at one of the readings from then on.
    pub available_fallback_candidates-IsEligible :
        All IsEligible (available_fallback_candidates env config route model protocol start).0
    unfolding available_fallback_candidates
    available_fallback_candidates-IsEligible =
        let begun : Looked start = record { readings = 0; world = refl; health = refl } in
        elim (Bool-cases (is_empty route.fallback_bindings)) [
          | inl empty ↦
              simp (empty) (collect_accounts-IsEligible route.fallback_accounts start begun)
          | inr bound ↦ simp (bound) (
              prefer_native-IsEligible _
                (collect_bindings-IsEligible route.fallback_bindings start begun))
        ]
