-- ===== src/Proxy/Fallback/Share.antt =====
-- The weighted choice of src/proxy/fallback.rs between the candidates.
use my_ai_gateway.Prelude.{
  ℕ, zero, suc, ◌+◌, ◌^◌, ◌≤◌, ◌<◌, ◌≡◌, refl, ap, some, List, [], ◌∷◌, get_elem?, arith,
}
use my_ai_gateway.Proxy.Fallback.{FallbackCandidate, weight_of, total_weight, pick_index}

-- The sum of the weights of the first `i` candidates, and of all.
abbrev pub weight_before : ℕ → List FallbackCandidate → ℕ
weight_before i [] = 0
weight_before zero (c ∷ cs) = 0
weight_before (suc i) (c ∷ cs) = weight_of c + weight_before i cs

abbrev pub weight_sum : List FallbackCandidate → ℕ
weight_sum [] = 0
weight_sum (c ∷ cs) = weight_of c + weight_sum cs

-- If the weights sum to a u32, then the sum of the code is their sum.
pub total_weight-eq :
    (cs : List FallbackCandidate) → weight_sum cs < 2 ^ 32 → total_weight cs ≡ weight_sum cs
unfolding total_weight
total_weight-eq [] h = refl
total_weight-eq (c ∷ cs) h = grind (arith, total_weight-eq cs)

pick_from :
    (cs : List FallbackCandidate) (tick cursor k i : ℕ) (c : FallbackCandidate)
    → cursor + weight_sum cs < 2 ^ 32
    → get_elem? cs i ≡ some c
    → cursor + weight_before i cs ≤ tick
    → tick < cursor + weight_before i cs + weight_of c
    → pick_index tick cursor k cs ≡ k + i
unfolding pick_index
pick_from [] tick cursor k i c h at low high = absurd (cc)
pick_from (d ∷ cs) tick cursor k zero c h at low high =
    let same : d ≡ c = cc in
    let weights : weight_of d ≡ weight_of c = ap (λ x. weight_of x) same in ground arith
pick_from (d ∷ cs) tick cursor k (suc i) c h at low high =
    grind (arith, pick_from cs tick (cursor + weight_of d) (suc k) i c)

-- If the weights, each counted as at least 1, sum to a u32, then the candidate at `i` is picked at
-- every tick from the sum of the weights before it on, as many ticks as its own weight.
pub pick_index-share :
    (cs : List FallbackCandidate) (tick i : ℕ) (c : FallbackCandidate)
    → weight_sum cs < 2 ^ 32
    → get_elem? cs i ≡ some c
    → weight_before i cs ≤ tick
    → tick < weight_before i cs + weight_of c
    → pick_index tick 0 0 cs ≡ i
pick_index-share cs tick i c h at low high =
    let found = pick_from cs tick 0 0 i c (omega arith) at (omega arith) (omega arith) in
    omega (arith, found)
