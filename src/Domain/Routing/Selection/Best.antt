-- ===== src/Domain/Routing/Selection/Best.antt =====
-- The choice of `resolve_selected` of src/domain/routing.rs among the configured routes.
use my_ai_gateway.Prelude.{
  ℕ, ◌≡◌, ◌⊎◌, refl, subst, Bool, true, Option, none, some, String, List, [], ◌∷◌, All, get_elem?,
  if◌then◌else◌, ◌==◌, inl, inr, arith,
}
use my_ai_gateway.Domain.Protocol.{Protocol}
use my_ai_gateway.Domain.Config.{GatewayConfig, RouteConfig}
use my_ai_gateway.Domain.Routing.{
  ResolvedRoute, RouteResolutionError, Resolved, ok, err, model_match_rank,
}
use my_ai_gateway.Domain.Routing.Candidate.{resolve_candidate}
use my_ai_gateway.Domain.Routing.Selection.{
  Ranked, sort_by_key, rank_route, rank_routes, try_candidates, resolve_selected,
}
use my_ai_gateway.Domain.Routing.Selection.Order.{
  comes_before, IsBefore, of_comes_before, IsSorted, All-sort_by_key, All-of_sort_by_key,
  sort_by_key-IsSorted,
}
use my_ai_gateway.Domain.Routing.Selection.Listed.{
  IsListed, rank_route-index, rank_route-key, rank_routes-IsListed, rank_routes-IsIncreasing,
  rank_routes-complete,
}

Resolved-cases {ℓ} :
    {A : Type ℓ} (m : Resolved A)
    → ((a : A) × (m ≡ ok a)) ⊎ ((e : RouteResolutionError) × (m ≡ err e))
Resolved-cases (ok a) = inl (a, refl)
Resolved-cases (err e) = inr (e, refl)

-- Among candidates whose patterns match equally well, a native one is first.
native_first :
    {m n : Option (Bool × ℕ)} (c d : Ranked) (route other : RouteConfig)
    → IsBefore c d
    → (m ≡ some (c.exact, c.specificity))
      × (c.mode_rank ≡ (if route.mode == "native" then 0 else 1))
    → (n ≡ some (d.exact, d.specificity))
      × (d.mode_rank ≡ (if other.mode == "native" then 0 else 1))
    → m ≡ n
    → (other.mode == "native") ≡ true
    → (route.mode == "native") ≡ true
native_first c d route other before kc kd same native =
    let exact : c.exact ≡ d.exact = ground (arith, kc.0, kd.0, same) in
    let specific : c.specificity ≡ d.specificity = ground (arith, kc.0, kd.0, same) in
    ground (arith, before, exact, specific, kc.1, kd.1, native)

comes_before_refl : (c : Ranked) → comes_before c c ≡ true
comes_before_refl c = ground arith

module _ (test : Bool) (config : GatewayConfig) (protocol : Protocol) (model : String) where
  abbrev resolve : Ranked → Resolved ResolvedRoute
  resolve c = resolve_candidate test config c.route protocol model

  -- Every candidate of the list that resolves comes after `c`.
  abbrev IsFirst : Ranked → List Ranked → Type 0
  IsFirst c cs = All (λ d. (s : ResolvedRoute) → resolve d ≡ ok s → comes_before c d ≡ true) cs

  IsFirst-of_before :
      (c : Ranked) (cs : List Ranked) → All (λ d. comes_before c d ≡ true) cs → IsFirst c cs
  IsFirst-of_before c [] h = tt
  IsFirst-of_before c (d ∷ ds) h = ((λ s e. h.0), IsFirst-of_before c ds h.1)

  try_candidates-IsFirst {ℓ} :
      (Q : Ranked → Type ℓ) (cs : List Ranked) (last : Option RouteResolutionError) (i : ℕ)
      (r : ResolvedRoute)
      → IsSorted cs
      → All Q cs
      → try_candidates test config protocol model cs last ≡ ok (i, r)
      → (c : Ranked) × Q c × (c.index ≡ i) × (resolve c ≡ ok r) × IsFirst c cs
  unfolding try_candidates
  try_candidates-IsFirst Q [] last i r sorted all h = absurd (cc)
  try_candidates-IsFirst Q (c ∷ cs) last i r sorted all h = elim (Resolved-cases (resolve c)) [
    | inl (s, works) ↦
        let got : Path (Resolved (ℕ × ResolvedRoute)) (ok (c.index, s)) (ok (i, r)) =
          rw (works, try_candidates) at h in
        (c, all.0, cc, cc, ((λ s' e. comes_before_refl c), IsFirst-of_before c cs sorted.0))
    | inr (e, fails) ↦
        let (d, q, place, works, first) =
          try_candidates-IsFirst Q cs (some e) i r sorted.1 all.1
            (rw (fails, try_candidates) at h) in
        (d, q, place, works, ((λ s works_too. absurd (cc)), first))
  ]

  try_candidates-fail :
      (cs : List Ranked) (last : Option RouteResolutionError) (e : RouteResolutionError)
      → try_candidates test config protocol model cs last ≡ err e
      → All (λ c. (e' : RouteResolutionError) × (resolve c ≡ err e')) cs
  unfolding try_candidates
  try_candidates-fail [] last e h = tt
  try_candidates-fail (c ∷ cs) last e h = elim (Resolved-cases (resolve c)) [
    | inl (s, works) ↦ absurd (cc (rw (works, try_candidates) at h))
    | inr (e', fails) ↦
        ((e', fails), try_candidates-fail cs (some e') e (rw (fails, try_candidates) at h))
  ]

  abbrev candidates : List Ranked
  candidates = sort_by_key (rank_routes protocol model 0 config.routes)

  candidates-IsSorted : IsSorted candidates
  candidates-IsSorted =
      sort_by_key-IsSorted _ (rank_routes-IsIncreasing protocol model 0 config.routes)

  candidates-IsListed : All (IsListed protocol model 0 config.routes) candidates
  candidates-IsListed = All-sort_by_key _ _ (rank_routes-IsListed protocol model 0 config.routes)

  -- The route that `resolve_selected` returns is that of the configuration at the returned index: it
  -- accepts the protocol and matches the model, and it resolves to the returned route.
  pub resolve_selected-found :
      (i : ℕ) (r : ResolvedRoute)
      → resolve_selected test config protocol model ≡ ok (i, r)
      → (c : Ranked) × (get_elem? config.routes i ≡ some c.route)
        × (rank_route protocol model i c.route ≡ some c)
        × (resolve_candidate test config c.route protocol model ≡ ok r)
  unfolding resolve_selected
  resolve_selected-found i r h =
      let (c, (k, place, found, ranked), at, works, first) =
        try_candidates-IsFirst (IsListed protocol model 0 config.routes) candidates none i r
          candidates-IsSorted candidates-IsListed h in
      let k_is_i : k ≡ i = omega arith in (c, cc, cc, works)

  -- The route that `resolve_selected` returns, at index `i`, comes before every other route `other` of
  -- the configuration, at index `j`, that accepts the protocol, matches the model and resolves: by an
  -- exact pattern, else by the longer pattern, else by the native mode, else by the smaller index. If the
  -- patterns of both match equally well and the other route is native, then so is the returned one.
  pub resolve_selected-best :
      (i j : ℕ) (r s : ResolvedRoute) (route other : RouteConfig) (c d : Ranked)
      → resolve_selected test config protocol model ≡ ok (i, r)
      → get_elem? config.routes i ≡ some route
      → rank_route protocol model i route ≡ some c
      → get_elem? config.routes j ≡ some other
      → rank_route protocol model j other ≡ some d
      → resolve_candidate test config other protocol model ≡ ok s
      → IsBefore c d
        × (model_match_rank route.model model ≡ model_match_rank other.model model
            → (other.mode == "native") ≡ true
            → (route.mode == "native") ≡ true)
  unfolding resolve_selected
  resolve_selected-best i j r s route other c d h at_i ranks_i at_j ranks_j works =
      let (b, (k, place, found, ranked), at, works_b, first) =
        try_candidates-IsFirst (IsListed protocol model 0 config.routes) candidates none i r
          candidates-IsSorted candidates-IsListed h in
      let k_is_i : k ≡ i = omega arith in
      let b_is_c : b ≡ c = cc in
      let (same_index, same_route) = rank_route-index protocol model j other d ranks_j in
      let before =
        rank_routes-complete protocol model _ 0 j j config.routes other d
          (All-of_sort_by_key _ (rank_routes protocol model 0 config.routes) first) at_j
          (omega arith) ranks_j in
      let first_of_all : IsBefore c d =
        of_comes_before c d
          (subst (λ x. comes_before x d ≡ true) b_is_c (before s (rw same_route works))) in
      (
        first_of_all,
        native_first c d route other first_of_all (rank_route-key protocol model i route c ranks_i)
            (rank_route-key protocol model j other d ranks_j),
      )

  -- If `resolve_selected` fails, then every route that accepts the protocol and matches the model fails
  -- to resolve.
  pub resolve_selected-err :
      (e : RouteResolutionError) (j : ℕ) (route : RouteConfig) (c : Ranked)
      → resolve_selected test config protocol model ≡ err e
      → get_elem? config.routes j ≡ some route
      → rank_route protocol model j route ≡ some c
      → (e' : RouteResolutionError) × (resolve_candidate test config route protocol model ≡ err e')
  unfolding resolve_selected
  resolve_selected-err e j route c h at_j ranks_j =
      let (e', fails) =
        rank_routes-complete protocol model _ 0 j j config.routes route c
          (All-of_sort_by_key _ (rank_routes protocol model 0 config.routes)
            (try_candidates-fail candidates none e h))
          at_j (omega arith) ranks_j in
      let (same_index, same_route) = rank_route-index protocol model j route c ranks_j in (e', cc)
