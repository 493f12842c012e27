-- ===== src/Tests/Proxy.antt =====
-- The theorems on src/proxy at concrete inputs.
use my_ai_gateway.Prelude.{◌+◌, ◌≤◌, ◌≡◌, refl, List, [], ◌∷◌, All, length, arith}
use my_ai_gateway.Domain.Protocol.{openai_chat_completions}
use my_ai_gateway.Proxy.Fallback.{FallbackCandidate, pick_index, available_fallback_candidates}
use my_ai_gateway.Proxy.Fallback.Eligible.{IsEligible, available_fallback_candidates-IsEligible}
use my_ai_gateway.Proxy.Fallback.Share.{pick_index-share}
use my_ai_gateway.Proxy.Ordered.{proxy_ordered, gather_lines}
use my_ai_gateway.Proxy.Ordered.Bounds.{proxy_ordered-attempts_le}
use my_ai_gateway.Proxy.Ordered.Outcome.{Answered, proxy_ordered-outcome}
use my_ai_gateway.Proxy.Ordered.Order.{Sublist, attempted, accounts, proxy_ordered-in_order}
use my_ai_gateway.Proxy.Weighted.{proxy_weighted}
use my_ai_gateway.Proxy.Weighted.Outcome.{RepliesSoundly, proxy_weighted-outcome}
use my_ai_gateway.Tests.Data.{config, resolved_route, account_of, env, context, live, candidate_of}

proxy_ordered-outcome_example : Answered (proxy_ordered env context config resolved_route live).0
proxy_ordered-outcome_example = proxy_ordered-outcome env context config resolved_route live

proxy_ordered-attempts_le_example :
    length (proxy_ordered env context config resolved_route live).0.attempts ≤ 1 + 1
proxy_ordered-attempts_le_example =
    proxy_ordered-attempts_le env context config resolved_route live 1 refl

proxy_ordered-in_order_example :
    Sublist
      (attempted (proxy_ordered env context config resolved_route live).0.attempts)
      (accounts (gather_lines env context config resolved_route live).0.0)
proxy_ordered-in_order_example = proxy_ordered-in_order env context config resolved_route live

proxy_weighted-outcome_example :
    RepliesSoundly (proxy_weighted env context config resolved_route live).0
proxy_weighted-outcome_example = proxy_weighted-outcome env context config resolved_route live

available_fallback_candidates-IsEligible_example :
    All
      (IsEligible env config resolved_route live)
      (available_fallback_candidates env config resolved_route "m" openai_chat_completions live).0
available_fallback_candidates-IsEligible_example =
    available_fallback_candidates-IsEligible env config resolved_route live "m"
      openai_chat_completions

abbrev weighted : List FallbackCandidate
weighted = candidate_of (account_of "a" 3) ∷ candidate_of (account_of "b" 0) ∷ []

-- The second candidate, of weight 0, counts as one of weight 1.
pick_index-share_example : pick_index 3 0 0 weighted ≡ 1
pick_index-share_example =
    pick_index-share weighted 3 1 (candidate_of (account_of "b" 0)) (omega arith) refl (omega arith)
      (omega arith)
