-- ===== src/Proxy/Usage.antt =====
-- What src/proxy/usage.rs reads of the events of a stream. A `Map` is an association list of distinct
-- names, whose order nothing reads.
pub mod Report
pub mod Sources
use my_ai_gateway.Prelude.{
  ℕ, ◌+◌, min, Bool, ◌&&◌, ◌||◌, not, Option, none, some, String, ◌==◌, List, [], ◌∷◌, any, retain,
  is_some, or_else, and_then, if◌then◌else◌,
}
use my_ai_gateway.Prelude.Text.{trim}
use my_ai_gateway.Health.Types.{u64_max}
use my_ai_gateway.Proxy.Json.{Json}

-- `Option::filter(|text| !text.is_empty())` after `str::trim`.
abbrev pub trimmed : String → Option String
trimmed text = if trim text == "" then none else some (trim text)

-- `u64::saturating_add(1)`.
abbrev saturating_suc : ℕ → ℕ
saturating_suc n = min (n + 1) u64_max

pub record ResponseIdentity : Type 0 where
  pub model : Option String
  pub reasoning_effort : Option String

-- `ResponseIdentity::default`.
abbrev pub no_identity : ResponseIdentity
no_identity = record { model = none; reasoning_effort = none }

pub record SseUsageAccumulator (V : Type 0) : Type 0 where
  pub counters : List (String × V)
  pub data_event_count : ℕ  -- u64
  pub json_parse_failures : ℕ  -- u64
  pub json_without_usage : ℕ  -- u64

abbrev counter_names : List String
counter_names =
    "input_tokens" ∷ "prompt_tokens" ∷ "output_tokens" ∷ "completion_tokens" ∷ "total_tokens"
    ∷ "reasoning_tokens" ∷ "cached_tokens" ∷ "cache_read_input_tokens"
    ∷ "cache_creation_input_tokens" ∷ []

-- The members that make an earlier total stale.
abbrev totalled : List String
totalled = "input_tokens" ∷ "prompt_tokens" ∷ "output_tokens" ∷ "completion_tokens" ∷ []

abbrev detailed : List (String × String)
detailed =
    ("input_tokens_details", "cached_tokens")
    ∷ ("prompt_tokens_details", "cached_tokens")
    ∷ ("output_tokens_details", "reasoning_tokens")
    ∷ ("completion_tokens_details", "reasoning_tokens")
    ∷ []

module _ {V : Type 0} where
  -- `SseUsageAccumulator::default`.
  abbrev pub no_usage : SseUsageAccumulator V
  no_usage = record {
    counters = [];
    data_event_count = 0;
    json_parse_failures = 0;
    json_without_usage = 0;
  }

  unfoldable pub remove : String → List (String × V) → List (String × V)
  remove key members = retain (λ m. not (m.0 == key)) members

  unfoldable pub insert : String → V → List (String × V) → List (String × V)
  unfolding remove
  insert key value members = (key, value) ∷ remove key members

  module _ (json : Json V) where
    unfoldable pub path : List String → V → Option V
    path [] value = some value
    path (key ∷ keys) value = and_then (json.get key value) (path keys)

    unfoldable pub non_empty_string : Option V → Option String
    non_empty_string value = and_then (and_then value json.as_str) trimmed

    unfoldable pub response_identity_from_json : V → ResponseIdentity
    unfolding path non_empty_string
    response_identity_from_json value = record {
      model = or_else (non_empty_string (path ("model" ∷ []) value)) (
          or_else (non_empty_string (path ("response" ∷ "model" ∷ []) value))
            (non_empty_string (path ("message" ∷ "model" ∷ []) value)));
      reasoning_effort = or_else (non_empty_string (path ("reasoning_effort" ∷ []) value)) (
          or_else (non_empty_string (path ("reasoning" ∷ "effort" ∷ []) value))
            (non_empty_string (path ("response" ∷ "reasoning" ∷ "effort" ∷ []) value)));
    }

    -- `ResponseIdentity::observe`.
    unfoldable pub observe_identity : V → ResponseIdentity → ResponseIdentity
    unfolding response_identity_from_json
    observe_identity value seen =
        let identity = response_identity_from_json value in
        record {
          model = or_else seen.model identity.model;
          reasoning_effort = or_else seen.reasoning_effort identity.reasoning_effort;
        }

    unfoldable pub usage_value : V → Option V
    unfolding path
    usage_value value = or_else (json.get "usage" value) (
        or_else (path ("response" ∷ "usage" ∷ []) value)
          (or_else (path ("message" ∷ "usage" ∷ []) value) (path ("delta" ∷ "usage" ∷ []) value)))

    abbrev reports : V → String → Bool
    reports usage key = is_some (and_then (json.get key usage) json.as_i64)

    unfoldable drop_stale_total : V → List (String × V) → List (String × V)
    unfolding remove
    drop_stale_total usage current =
        if not (reports usage "total_tokens") && any (reports usage) totalled
        then remove "total_tokens" current
        else current

    unfoldable merge_counters : V → List String → List (String × V) → List (String × V)
    unfolding insert
    merge_counters usage [] current = current
    merge_counters usage (key ∷ keys) current =
        merge_counters usage keys (elim (and_then (json.get key usage) json.as_i64) [
          | none ↦ current
          | some value ↦ insert key (json.integer value) current
        ])

    unfoldable merge_details : V → List (String × String) → List (String × V) → List (String × V)
    unfolding insert path
    merge_details usage [] current = current
    merge_details usage ((details, key) ∷ rest) current =
        merge_details usage rest (elim (and_then (path (details ∷ key ∷ []) usage) json.as_i64) [
          | none ↦ current
          | some value ↦ insert details (json.object ((key, json.integer value) ∷ [])) current
        ])

    unfoldable pub merge_sse_usage : V → List (String × V) → List (String × V)
    unfolding drop_stale_total merge_counters merge_details
    merge_sse_usage usage current =
        merge_details usage detailed
          (merge_counters usage counter_names (drop_stale_total usage current))

    unfoldable count_event : Option V → SseUsageAccumulator V → SseUsageAccumulator V
    unfolding usage_value merge_sse_usage
    count_event none seen = record seen {
      json_parse_failures = saturating_suc seen.json_parse_failures;
    }
    count_event (some value) seen = elim (usage_value value) [
      | some usage ↦ record seen { counters = merge_sse_usage usage seen.counters }
      | none ↦ record seen { json_without_usage = saturating_suc seen.json_without_usage }
    ]

    -- `SseUsageAccumulator::observe`.
    unfoldable pub observe_usage : String → Option V → SseUsageAccumulator V → SseUsageAccumulator V
    unfolding count_event
    observe_usage text parsed seen =
        if text == "" || text == "[DONE]"
        then seen
        else count_event parsed
            (record seen { data_event_count = saturating_suc seen.data_event_count })
