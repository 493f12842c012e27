-- ===== src/Domain/Routing/Selection/Listed.antt =====
-- The candidates of `resolve_selected` of src/domain/routing.rs beside the configured routes.
use my_ai_gateway.Prelude.{
  ℕ, zero, suc, ◌+◌, ◌≤◌, ◌≡◌, some, String, List, [], ◌∷◌, All, get_elem?, if◌then◌else◌, ◌==◌,
  inl, inr, Option-cases, arith,
}
use my_ai_gateway.Domain.Protocol.{Protocol}
use my_ai_gateway.Domain.Config.{RouteConfig}
use my_ai_gateway.Domain.Routing.{model_match_rank}
use my_ai_gateway.Domain.Routing.Selection.{Ranked, rank_route, rank_routes}
use my_ai_gateway.Domain.Routing.Selection.Order.{IsIncreasing}

module _ (protocol : Protocol) (model : String) where
  -- A candidate of the list, with its place.
  abbrev pub IsListed : ℕ → List RouteConfig → Ranked → Type 0
  IsListed i routes c =
      (k : ℕ) × (c.index ≡ i + k)
      × (get_elem? routes k ≡ some c.route)
      × (rank_route protocol model c.index c.route ≡ some c)

  pub rank_route-index :
      (i : ℕ) (route : RouteConfig) (c : Ranked)
      → rank_route protocol model i route ≡ some c
      → (c.index ≡ i) × (c.route ≡ route)
  unfolding rank_route
  rank_route-index i route c h = ground arith

  -- What the key of a candidate says of its route.
  pub rank_route-key :
      (i : ℕ) (route : RouteConfig) (c : Ranked)
      → rank_route protocol model i route ≡ some c
      → (model_match_rank route.model model ≡ some (c.exact, c.specificity))
        × (c.mode_rank ≡ (if route.mode == "native" then 0 else 1))
  unfolding rank_route
  rank_route-key i route c h = ground arith

  All-weaken :
      (i : ℕ) (route : RouteConfig) (routes : List RouteConfig) (cs : List Ranked)
      → All (IsListed (suc i) routes) cs
      → All (IsListed i (route ∷ routes)) cs
  All-weaken i route routes [] h = tt
  All-weaken i route routes (c ∷ cs) ((k, place, found, ranked), rest) =
      ((suc k, omega arith, found, ranked), All-weaken i route routes cs rest)

  IsListed-head :
      (i : ℕ) (route : RouteConfig) (routes : List RouteConfig) (c : Ranked)
      → rank_route protocol model i route ≡ some c
      → IsListed i (route ∷ routes) c
  IsListed-head i route routes c here =
      let (same_index, same_route) = rank_route-index i route c here in (0, omega arith, cc, cc)

  pub rank_routes-IsListed :
      (i : ℕ) (routes : List RouteConfig)
      → All (IsListed i routes) (rank_routes protocol model i routes)
  unfolding rank_routes
  rank_routes-IsListed i [] = tt
  rank_routes-IsListed i (route ∷ routes) =
      let rest =
        All-weaken i route routes (rank_routes protocol model (suc i) routes)
          (rank_routes-IsListed (suc i) routes) in
      elim (Option-cases (rank_route protocol model i route)) [
        | inl none_here ↦ rw (none_here, rank_routes) rest
        | inr (c, here) ↦ rw (here, rank_routes) (IsListed-head i route routes c here, rest)
      ]

  above :
      (i : ℕ) (routes : List RouteConfig) (cs : List Ranked)
      → All (IsListed i routes) cs
      → All (λ c. i ≤ c.index) cs
  above i routes [] h = tt
  above i routes (c ∷ cs) ((k, place, found, ranked), rest) = (omega arith, above i routes cs rest)

  above_mono :
      (i j : ℕ) (cs : List Ranked) → i ≤ j → All (λ c. j ≤ c.index) cs → All (λ c. i ≤ c.index) cs
  above_mono i j [] l h = tt
  above_mono i j (c ∷ cs) l h = (omega arith, above_mono i j cs l h.1)

  pub rank_routes-IsIncreasing :
      (i : ℕ) (routes : List RouteConfig) → IsIncreasing (rank_routes protocol model i routes)
  unfolding rank_routes
  rank_routes-IsIncreasing i [] = tt
  rank_routes-IsIncreasing i (route ∷ routes) =
      let rest = rank_routes-IsIncreasing (suc i) routes in
      elim (Option-cases (rank_route protocol model i route)) [
        | inl none_here ↦ rw (none_here, rank_routes) rest
        | inr (c, here) ↦
            let (same_index, same_route) = rank_route-index i route c here in
            rw (here, rank_routes)
              (
                above_mono c.index (suc i) _ (omega arith)
                    (above (suc i) routes _ (rank_routes-IsListed (suc i) routes)),
                rest,
              )
      ]

  -- Every route that ranks is in the list.
  pub rank_routes-complete {ℓ} :
      (P : Ranked → Type ℓ) (i k j : ℕ) (routes : List RouteConfig) (route : RouteConfig)
      (c : Ranked)
      → All P (rank_routes protocol model i routes)
      → get_elem? routes k ≡ some route
      → j ≡ i + k
      → rank_route protocol model j route ≡ some c
      → P c
  unfolding rank_routes
  rank_routes-complete P i k j [] route c h found place ranked = absurd (cc)
  rank_routes-complete P i zero j (r ∷ routes) route c h found place ranked =
      let same_place : j ≡ i = omega arith in
      let ranked' : rank_route protocol model i r ≡ some c = cc in
      (rw (ranked', rank_routes) at h).0
  rank_routes-complete P i (suc k) j (r ∷ routes) route c h found place ranked =
      elim (Option-cases (rank_route protocol model i r)) [
        | inl none_here ↦
            rank_routes-complete P (suc i) k j routes route c (rw (none_here, rank_routes) at h)
              found (omega arith) ranked
        | inr (d, here) ↦
            rank_routes-complete P (suc i) k j routes route c (rw (here, rank_routes) at h).1 found
              (omega arith) ranked
      ]
