-- ===== src/Domain/Routing/Selection.antt =====
-- `RouteResolver::resolve_selected` of src/domain/routing.rs: the candidates of a request, their order
-- and the first that resolves.
pub mod Order
pub mod Best
pub mod Listed
use my_ai_gateway.Prelude.{
  ℕ, suc, Bool, true, false, not, Option, none, some, String, ◌==◌, List, [], ◌∷◌, ltb, leb, eqb,
  if◌then◌else◌,
}
use my_ai_gateway.Domain.Protocol.{Protocol, display, contains_protocol}
use my_ai_gateway.Domain.Config.{GatewayConfig, RouteConfig}
use my_ai_gateway.Domain.Routing.{
  ResolvedRoute, RouteResolutionError, Resolved, ok, err, resolution_error, model_match_rank,
}
use my_ai_gateway.Domain.Routing.Candidate.{resolve_candidate}

-- A tuple of `candidates`, with the route at the index.
pub record Ranked : Type 0 where
  pub index : ℕ
  pub route : RouteConfig
  pub specificity : ℕ
  pub exact : Bool
  pub mode_rank : ℕ

-- The closure of `filter_map`.
unfoldable pub rank_route : Protocol → String → ℕ → RouteConfig → Option Ranked
rank_route protocol model index route =
    if contains_protocol protocol route.protocols
    then elim (model_match_rank route.model model) [
      | none ↦ none
      | some (exact, specificity) ↦ some (record {
        index = index;
        route = route;
        specificity = specificity;
        exact = exact;
        mode_rank = if route.mode == "native" then 0 else 1;
      })
    ]
    else none

-- `enumerate().filter_map(…).collect()`, from an index on.
unfoldable pub rank_routes : Protocol → String → ℕ → List RouteConfig → List Ranked
unfolding rank_route
rank_routes protocol model index [] = []
rank_routes protocol model index (route ∷ routes) =
    let rest = rank_routes protocol model (suc index) routes in
    elim (rank_route protocol model index route) [ none ↦ rest | some c ↦ c ∷ rest ]

abbrev pub bit : Bool → ℕ
bit false = 0
bit true = 1

-- The order of the keys `(!exact, Reverse(specificity), mode_rank)`.
abbrev pub key_le : Ranked → Ranked → Bool
key_le x y =
    if ltb (bit (not x.exact)) (bit (not y.exact))
    then true
    else if ltb (bit (not y.exact)) (bit (not x.exact))
    then false
    else if ltb y.specificity x.specificity
    then true
    else if ltb x.specificity y.specificity
    then false
    else leb x.mode_rank y.mode_rank

-- `sort_by_key` of the standard library is a stable sort: as an insertion sort.
unfoldable pub insert_key : Ranked → List Ranked → List Ranked
insert_key x [] = x ∷ []
insert_key x (y ∷ ys) = if key_le x y then x ∷ y ∷ ys else y ∷ insert_key x ys

unfoldable pub sort_by_key : List Ranked → List Ranked
unfolding insert_key
sort_by_key [] = []
sort_by_key (x ∷ xs) = insert_key x (sort_by_key xs)

module _ (test : Bool) (config : GatewayConfig) (protocol : Protocol) (model : String) where
  -- `last_error.unwrap_or_else(…)`.
  abbrev pub last_or_not_found : Option RouteResolutionError → RouteResolutionError
  last_or_not_found (some e) = e
  last_or_not_found none =
      resolution_error "route_not_found"
        ("no route matches protocol " ∷ display protocol ∷ " and model '" ∷ model ∷ "'" ∷ []) none

  -- The loop over the sorted candidates.
  unfoldable pub try_candidates :
      List Ranked → Option RouteResolutionError → Resolved (ℕ × ResolvedRoute)
  try_candidates [] last_error = err (last_or_not_found last_error)
  try_candidates (c ∷ cs) last_error = elim (resolve_candidate test config c.route protocol model) [
    | ok route ↦ ok (c.index, route)
    | err e ↦ try_candidates cs (some e)
  ]

  unfoldable pub resolve_selected : Resolved (ℕ × ResolvedRoute)
  unfolding rank_routes sort_by_key try_candidates
  resolve_selected = try_candidates (sort_by_key (rank_routes protocol model 0 config.routes)) none
