-- ===== src/Proxy/Usage/Report.antt =====
-- The normalised report of src/proxy/usage.rs. The tokenizer of tiktoken is a parameter: the number of
-- tokens of a text.
use my_ai_gateway.Prelude.{
  ℕ, suc, ◌+◌, ◌-◌, Bool, false, not, ◌&&◌, ◌||◌, Option, none, some, String, ◌==◌, List, [], ◌∷◌,
  leb, is_some, or_else, and_then, unwrap_or, if◌then◌else◌, is_empty,
}
use mathlib.Core.Option
use my_ai_gateway.Prelude.Bytes.{from_utf8_lossy}
use my_ai_gateway.Proxy.Json.{Json, ℤ, pos, negsuc}
use my_ai_gateway.Proxy.Transport.{StreamTermination}
use my_ai_gateway.Proxy.Usage.{
  ResponseIdentity, no_identity, SseUsageAccumulator, path, non_empty_string,
  response_identity_from_json, usage_value,
}

-- The sum of two integers, and `i64`'s sum, which wraps around.
abbrev pub sub_ℕ : ℕ → ℕ → ℤ
sub_ℕ a b = if leb b a then pos (a - b) else negsuc (b - a - 1)

abbrev pub pos_part : ℤ → ℕ
pos_part (pos n) = n
pos_part (negsuc n) = 0

abbrev pub neg_part : ℤ → ℕ
neg_part (pos n) = 0
neg_part (negsuc n) = suc n

abbrev pub i64_bound : ℕ
i64_bound = 9_223_372_036_854_775_808

unfoldable pub wrap_i64 : ℤ → ℤ
wrap_i64 (pos n) = if leb i64_bound n then negsuc (i64_bound + i64_bound - n - 1) else pos n
wrap_i64 (negsuc n) = if leb i64_bound n then pos (i64_bound + i64_bound - n - 1) else negsuc n

unfoldable pub add_i64 : ℤ → ℤ → ℤ
unfolding wrap_i64
add_i64 a b = wrap_i64 (sub_ℕ (pos_part a + pos_part b) (neg_part a + neg_part b))

abbrev pub is_positive : ℤ → Bool
is_positive (pos n) = leb 1 n
is_positive (negsuc n) = false

abbrev pub is_zero : ℤ → Bool
is_zero (pos n) = leb n 0
is_zero (negsuc n) = false

pub record UsageReport : Type 0 where
  pub input_tokens : ℤ
  pub output_tokens : ℤ
  pub reasoning_tokens : ℤ
  pub cached_tokens : ℤ
  pub cache_read_tokens : ℤ
  pub cache_creation_tokens : ℤ
  pub total_tokens : ℤ
  pub source : String

-- `UsageReport::missing`.
abbrev pub missing : UsageReport
missing = record {
  input_tokens = pos 0;
  output_tokens = pos 0;
  reasoning_tokens = pos 0;
  cached_tokens = pos 0;
  cache_read_tokens = pos 0;
  cache_creation_tokens = pos 0;
  total_tokens = pos 0;
  source = "missing";
}

unfoldable pub is_present : UsageReport → Bool
is_present r =
    is_positive r.input_tokens
    || is_positive r.output_tokens
    || is_positive r.reasoning_tokens
    || is_positive r.cached_tokens
    || is_positive r.cache_read_tokens
    || is_positive r.cache_creation_tokens
    || is_positive r.total_tokens

-- `estimate`, by the number of tokens of a text.
unfoldable pub estimate : (String → ℕ) → String → String → UsageReport
unfolding add_i64
estimate tokens input output = record {
  input_tokens = pos (tokens input);
  output_tokens = pos (tokens output);
  reasoning_tokens = pos 0;
  cached_tokens = pos 0;
  cache_read_tokens = pos 0;
  cache_creation_tokens = pos 0;
  total_tokens = add_i64 (pos (tokens input)) (pos (tokens output));
  source = "estimated";
}

pub record StreamObservation : Type 0 where
  pub captured : List ℕ
  pub capture_truncated : Bool
  pub parsed_usage : Option UsageReport
  pub estimated_reasoning_tokens : Option ℤ
  pub response_model : Option String
  pub response_reasoning_effort : Option String
  pub ttft_ms : Option ℕ
  pub failed : Bool
  pub termination : StreamTermination

unfoldable pub observed_usage : (String → ℕ) → Bool → String → StreamObservation → UsageReport
unfolding estimate from_utf8_lossy
observed_usage tokens success request observation = elim observation.parsed_usage [
  | some report ↦ report
  | none ↦
      if success && not observation.capture_truncated
      then estimate tokens request (from_utf8_lossy observation.captured)
      else missing
]

unfoldable pub usage_for_stream_observation :
    (String → ℕ) → Bool → String → StreamObservation → UsageReport
unfolding observed_usage
usage_for_stream_observation tokens success request observation =
    let report = observed_usage tokens success request observation in
    if is_zero report.reasoning_tokens && not (report.source == "missing")
    then record report {
      reasoning_tokens = unwrap_or (pos 0) observation.estimated_reasoning_tokens;
    }
    else report

-- The report of a response that tells no usage.
unfoldable pub unconfirmed : (String → ℕ) → Bool → String → String → UsageReport
unfolding estimate
unconfirmed tokens success request response =
    if success then estimate tokens request response else missing

module _ {V : Type 0} (json : Json V) where
  unfoldable pub i64_at : V → String → ℤ
  i64_at value key = unwrap_or (pos 0) (and_then (json.get key value) json.as_i64)

  -- The member of the first name if it is there, else that of the second.
  unfoldable pub either_at : V → String → String → ℤ
  unfolding i64_at
  either_at usage first second =
      if is_some (json.get first usage) then i64_at usage first else i64_at usage second

  unfoldable pub reasoning_of : V → ℤ
  unfolding i64_at
  reasoning_of usage = unwrap_or (i64_at usage "reasoning_tokens") (
      or_else
        (Option.map (λ v. i64_at v "reasoning_tokens") (json.get "output_tokens_details" usage))
        (Option.map (λ v. i64_at v "reasoning_tokens")
          (json.get "completion_tokens_details" usage)))

  -- The tokens read from a cache and written to it.
  unfoldable pub cache_of : V → ℤ × ℤ
  unfolding i64_at add_i64
  cache_of usage =
      elim (or_else (json.get "input_tokens_details" usage)
        (json.get "prompt_tokens_details" usage)) [
          | some details ↦ (i64_at details "cached_tokens", pos 0)
          | none ↦ (
            add_i64 (i64_at usage "cache_read_input_tokens") (i64_at usage "cached_tokens"),
            i64_at usage "cache_creation_input_tokens",
          )
        ]

  unfoldable pub report_from_usage : V → UsageReport
  unfolding either_at reasoning_of cache_of add_i64
  report_from_usage usage =
      let input = either_at usage "input_tokens" "prompt_tokens" in
      let output = either_at usage "output_tokens" "completion_tokens" in
      let (cache_read, cache_creation) = cache_of usage in
      record {
        input_tokens = input;
        output_tokens = output;
        reasoning_tokens = reasoning_of usage;
        cached_tokens = add_i64 cache_read cache_creation;
        cache_read_tokens = cache_read;
        cache_creation_tokens = cache_creation;
        total_tokens =
            unwrap_or (add_i64 input output) (and_then (json.get "total_tokens" usage) json.as_i64);
        source = "upstream";
      }

  abbrev pub present : UsageReport → Option UsageReport
  present report = if is_present report then some report else none

  unfoldable pub extract_json : V → Option UsageReport
  unfolding usage_value report_from_usage is_present
  extract_json value =
      and_then (usage_value json value) (λ usage. present (report_from_usage usage))

  -- `SseUsageAccumulator::report`.
  unfoldable pub report : SseUsageAccumulator V → Option UsageReport
  unfolding report_from_usage
  report seen =
      if is_empty seen.counters
      then none
      else some (record (report_from_usage (json.object seen.counters)) { source = "parsed" })

  unfoldable pub observe_json_response :
      (String → ℕ) → Bool → String → String → UsageReport × ResponseIdentity
  unfolding extract_json unconfirmed response_identity_from_json
  observe_json_response tokens success request response =
      let parsed = json.from_str response in
      (
        unwrap_or (unconfirmed tokens success request response) (and_then parsed extract_json),
        unwrap_or no_identity (Option.map (response_identity_from_json json) parsed),
      )

  unfoldable pub requested_reasoning_effort : String → Option String
  unfolding path non_empty_string
  requested_reasoning_effort body = and_then (json.from_str body) (λ value.
      or_else (non_empty_string json (json.get "reasoning_effort" value)) (
        or_else (non_empty_string json (path json ("reasoning" ∷ "effort" ∷ []) value))
          (non_empty_string json (json.get "effort" value))))
