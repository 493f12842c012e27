-- ===== src/Proxy/Usage/Sources.antt =====
-- Where a usage report comes from, of src/proxy/usage.rs.
use my_ai_gateway.Prelude.{
  ℕ, Bool, true, false, ◌≡◌, some, String, unwrap_or, if-elim, Option-cases, Bool-cases, inl, inr,
  arith, subst,
}
use my_ai_gateway.Proxy.Json.{Json}
use my_ai_gateway.Proxy.Usage.{usage_value}
use my_ai_gateway.Proxy.Usage.Report.{
  UsageReport, missing, is_present, estimate, report_from_usage, present, extract_json, unconfirmed,
  observe_json_response,
}

module _ {V : Type 0} (json : Json V) (tokens : String → ℕ) (success : Bool)
    (request response : String) where
  -- The response is JSON with a usage, and the report of the usage has a positive counter.
  pub record Tells (usage : V) : Type 0 where
    pub value : V
    pub read : json.from_str response ≡ some value
    pub found : usage_value json value ≡ some usage
    pub positive : is_present (report_from_usage json usage) ≡ true

  -- The sources of the report of a complete response.
  pub data Reported : UsageReport → Type 0 where
    confirmed : (usage : V) → Tells usage → Reported (report_from_usage json usage)
    estimated :
        ((usage : V) → ¬ Tells usage) → success ≡ true → Reported (estimate tokens request response)
    unknown : ((usage : V) → ¬ Tells usage) → success ≡ false → Reported missing

  unconfirmed-Reported :
      ((usage : V) → ¬ Tells usage) → Reported (unconfirmed tokens success request response)
  unfolding unconfirmed
  unconfirmed-Reported silent = if-elim Reported success (estimated silent) (unknown silent)

  of_usage :
      (value usage : V)
      → json.from_str response ≡ some value
      → usage_value json value ≡ some usage
      → Reported (
          unwrap_or
            (unconfirmed tokens success request response)
            (present json (report_from_usage json usage)))
  of_usage value usage read found = elim (Bool-cases (is_present (report_from_usage json usage))) [
    | inl yes_present ↦ rw yes_present (
        confirmed usage
          (record { value = value; read = read; found = found; positive = yes_present }))
    | inr absent ↦ rw absent (
        unconfirmed-Reported (λ other t.
          let same_value : t.value ≡ value = ground (arith, t.read, read) in
          let same : other ≡ usage =
            ground
              (arith, found, subst (λ v. usage_value json v ≡ some other) same_value t.found) in
          let positive : is_present (report_from_usage json usage) ≡ true =
            subst (λ u. is_present (report_from_usage json u) ≡ true) same t.positive in
          absurd (cc)))
  ]

  of_value :
      (value : V)
      → json.from_str response ≡ some value
      → Reported (unwrap_or (unconfirmed tokens success request response) (extract_json json value))
  unfolding extract_json
  of_value value read = elim (Option-cases (usage_value json value)) [
    | inl nothing ↦ rw nothing (
        unconfirmed-Reported (λ other t.
          let same_value : t.value ≡ value = ground (arith, t.read, read) in
          let found : usage_value json value ≡ some other =
            subst (λ v. usage_value json v ≡ some other) same_value t.found in
          absurd (cc)))
    | inr (usage, found) ↦ rw found (of_usage value usage read found)
  ]

  -- Where the usage of a complete response comes from: from the response, exactly if it is JSON that
  -- reports a usage with a positive counter; else it is an estimate, if the request succeeded; else it is
  -- missing. So a failed request is never charged an estimate.
  pub observe_json_response-Reported :
      Reported (observe_json_response json tokens success request response).0
  unfolding observe_json_response
  observe_json_response-Reported = elim (Option-cases (json.from_str response)) [
    | inl nothing ↦ rw nothing (
        unconfirmed-Reported
          (λ other t. let read : json.from_str response ≡ some t.value = t.read in absurd (cc)))
    | inr (value, read) ↦ rw read (of_value value read)
  ]
