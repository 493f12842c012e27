-- ===== src/Proxy/Fallback.antt =====
-- src/proxy/fallback.rs: the candidates of a request.
pub mod Eligible
pub mod Share
use my_ai_gateway.Prelude.{
  ℕ, suc, ◌+◌, ◌%◌, ◌^◌, max, Bool, true, false, not, ◌&&◌, ◌||◌, Option, none, some, String, ◌==◌,
  List, [], ◌∷◌, ltb, if◌then◌else◌, unwrap_or, or_else, any, retain, is_empty, get_elem?,
}
use my_ai_gateway.Domain.Protocol.{Protocol}
use my_ai_gateway.Domain.Config.{
  is_mode, GatewayConfig, ProviderConfig, AccountConfig, ProtocolMode, account, provider, get_text,
}
use my_ai_gateway.Domain.Capability.{protocol_capability}
use my_ai_gateway.Domain.Routing.{ResolvedBinding, ResolvedRoute}
use my_ai_gateway.Domain.Routing.Candidate.{}
use my_ai_gateway.Health.Types.{nanos_per_sec}
use my_ai_gateway.Proxy.Environment.{Environment, Live, check_available}

pub record FallbackCandidate : Type 0 where
  pub account : AccountConfig
  pub provider : ProviderConfig
  pub provider_id : String
  pub source_id : String
  pub upstream_model : String
  pub protocol_upstream : Protocol
  pub mode : String
  pub upstream_endpoint : Option String
  pub degraded_features : List String

abbrev pub is_native : FallbackCandidate → Bool
is_native c = c.mode == "native"

abbrev push {ℓ} : {A : Type ℓ} → Option A → List A → List A
push none xs = xs
push (some x) xs = x ∷ xs

module _ {W : Type 0} (env : Environment W) (config : GatewayConfig) (route : ResolvedRoute) where
  -- The first `continue` of the loop over the bindings.
  abbrev pub is_primary_line : ResolvedBinding → Bool
  is_primary_line b =
      b.account_id == route.primary_account_id
      && (not (route.strategy == "ordered_fallback")
          || b.upstream_model_id == route.upstream_model_id)

  abbrev of_binding : ResolvedBinding → AccountConfig → ProviderConfig → FallbackCandidate
  of_binding b a p = record {
    account = a;
    provider = p;
    provider_id = b.provider_id;
    source_id = b.source_id;
    upstream_model = b.upstream_model_id;
    protocol_upstream = b.protocol_upstream;
    mode = b.mode;
    upstream_endpoint = some b.upstream_endpoint;
    degraded_features = b.degraded_features;
  }

  abbrev pub map_provider :
      (ProviderConfig → Option FallbackCandidate) → Option ProviderConfig → Option FallbackCandidate
  map_provider f none = none
  map_provider f (some p) = f p

  -- An account that is enabled and available goes on to `next`.
  unfoldable pub check_account :
      Live W
      → (AccountConfig → Option FallbackCandidate)
      → Option AccountConfig
      → Option FallbackCandidate × Live W
  check_account live next none = (none, live)
  check_account live next (some a) =
      if not a.enabled
      then (none, live)
      else let (available, live') = check_available env live a.id in
        (if available then next a else none, live')

  -- The body of the loop over the bindings.
  unfoldable pub consider_binding : Live W → ResolvedBinding → Option FallbackCandidate × Live W
  consider_binding live b =
      if is_primary_line b
      then (none, live)
      else check_account live
          (λ a. map_provider (λ p. some (of_binding b a p)) (provider config b.source_id))
          (account config b.account_id)

  unfoldable pub collect_bindings : Live W → List ResolvedBinding → List FallbackCandidate × Live W
  collect_bindings live [] = ([], live)
  collect_bindings live (b ∷ bs) =
      let (candidate, live') = consider_binding live b in
      let (rest, live'') = collect_bindings live' bs in (push candidate rest, live'')

  -- Other strategies than the ordered one drop the adapters if there is a native candidate.
  unfoldable pub prefer_native : List FallbackCandidate → List FallbackCandidate
  prefer_native cs =
      if not (route.strategy == "ordered_fallback") && any is_native cs
      then retain is_native cs
      else cs

  module _ (model : String) (protocol : Protocol) where
    abbrev of_account : AccountConfig → ProviderConfig → FallbackCandidate
    of_account a p = record {
      account = a;
      provider = p;
      provider_id = p.id;
      source_id = p.id;
      upstream_model = unwrap_or model (get_text model a.model_map);
      protocol_upstream = route.protocol_upstream;
      mode = route.mode;
      upstream_endpoint = none;
      degraded_features = route.degraded_features;
    }

    -- An account of another source must serve the protocol natively.
    abbrev pub serves : AccountConfig → ProviderConfig → Bool
    serves a p =
        a.provider_id == route.source_id
        || is_mode (protocol_capability config p.id (some a.id) model protocol).mode
            ProtocolMode.native

    -- The body of the loop over the accounts.
    unfoldable pub consider_account : Live W → String → Option FallbackCandidate × Live W
    consider_account live id =
        if id == route.primary_account_id
        then (none, live)
        else check_account live
            (λ a.
              map_provider (λ p. if serves a p then some (of_account a p) else none)
                (provider config a.provider_id))
            (account config id)

    unfoldable pub collect_accounts : Live W → List String → List FallbackCandidate × Live W
    collect_accounts live [] = ([], live)
    collect_accounts live (id ∷ ids) =
        let (candidate, live') = consider_account live id in
        let (rest, live'') = collect_accounts live' ids in (push candidate rest, live'')

    unfoldable pub available_fallback_candidates : Live W → List FallbackCandidate × Live W
    available_fallback_candidates live =
        if is_empty route.fallback_bindings
        then collect_accounts live route.fallback_accounts
        else let (available, live') = collect_bindings live route.fallback_bindings in
          (prefer_native available, live')

abbrev pub weight_of : FallbackCandidate → ℕ
weight_of c = max c.account.weight 1

-- The `sum` of the weights, as a u32.
unfoldable pub total_weight : List FallbackCandidate → ℕ
total_weight [] = 0
total_weight (c ∷ cs) = (weight_of c + total_weight cs) % 2 ^ 32

-- The loop that moves the cursor, from an index on; 0 if it never passes the tick.
unfoldable pub pick_index : ℕ → ℕ → ℕ → List FallbackCandidate → ℕ
pick_index tick cursor i [] = 0
pick_index tick cursor i (c ∷ cs) =
    let next = (cursor + weight_of c) % 2 ^ 32 in
    let rest = pick_index tick next (suc i) cs in if ltb tick next then i else rest

abbrev pub tick_of : ℕ → List FallbackCandidate → ℕ
tick_of now cs = now % nanos_per_sec % max (total_weight cs) 1

module _ {W : Type 0} (env : Environment W) (config : GatewayConfig) (route : ResolvedRoute)
    (model : String) (protocol : Protocol) where
  unfoldable pub pick : Live W → List FallbackCandidate → Option FallbackCandidate × Live W
  unfolding total_weight pick_index
  pick live [] = (none, live)
  pick live (c ∷ cs) =
      let (now, w) = env.utc_now live.world in
      (
        get_elem? (c ∷ cs) (pick_index (tick_of now (c ∷ cs)) 0 0 (c ∷ cs)),
        record live { world = w },
      )

  unfoldable pub select_fallback_candidate : Live W → Option FallbackCandidate × Live W
  unfolding pick
  select_fallback_candidate live =
      let (available, live') = available_fallback_candidates env config route model protocol live in
      pick live' available

-- `FallbackCandidate::primary`.
unfoldable pub primary_candidate :
    ResolvedRoute → AccountConfig → ProviderConfig → String → FallbackCandidate
primary_candidate route a p model = record {
  account = a;
  provider = p;
  provider_id = route.provider_id;
  source_id = route.source_id;
  upstream_model = elim route.binding_id [
    | none ↦ unwrap_or route.upstream_model_id (get_text model a.model_map)
    | some _ ↦ route.upstream_model_id
  ];
  protocol_upstream = route.protocol_upstream;
  mode = route.mode;
  upstream_endpoint = some route.upstream_endpoint;
  degraded_features = route.degraded_features;
}
