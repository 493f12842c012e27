-- ===== src/Tests/Config.antt =====
-- The theorems on `validate` of src/domain/config.rs at a configuration of two accounts.
use my_ai_gateway.Prelude.{true, false, ◌≡◌, refl, some, String, List, []}
use my_ai_gateway.Prelude.Text.{trim}
use my_ai_gateway.Domain.Protocol.{openai_chat_completions}
use my_ai_gateway.Domain.Config.{provider, account, find_model_override, find_pattern}
use my_ai_gateway.Domain.Config.Matrix.{
  has_endpoint, require, validate_matrix, validate_override_matrix, check_legacy, check_entries,
  check_sources, check_base,
}
use my_ai_gateway.Domain.Config.Validate.{
  validate, checks, collect, provider_checks, accounts_checks, account_checks, override_checks,
  routes_errors, route_errors, found_errors, protocols_errors, mode_errors, fallbacks_errors,
  fallback_errors,
}
use my_ai_gateway.Domain.Config.Validate.Calm.{validate-calm}
use my_ai_gateway.Domain.Config.Validate.Native.{validate-native}
use my_ai_gateway.Domain.Capability.{
  protocol_capability, account_model, provider_model, account_default, provider_default,
}
use my_ai_gateway.Domain.Routing.Candidate.{resolve_candidate}
use my_ai_gateway.Domain.Routing.Candidate.Progress.{Succeeds}
use my_ai_gateway.Domain.Routing.Candidate.Validated.{resolve_candidate-validated}
use my_ai_gateway.Tests.Data.{config, provider_p, account_of, route_of}

validate-calm_example : (errors : List String) × (validate false config ≡ some errors)
validate-calm_example = validate-calm false config

config_accepted : validate false config ≡ some []
unfolding validate checks collect provider_checks accounts_checks account_checks override_checks
    routes_errors route_errors found_errors protocols_errors mode_errors fallbacks_errors
    fallback_errors validate_matrix validate_override_matrix check_legacy check_entries
    check_sources check_base require has_endpoint trim provider account protocol_capability
    account_model provider_model account_default provider_default find_model_override find_pattern
config_accepted = refl

validate-native_example : has_endpoint provider_p.endpoints openai_chat_completions ≡ true
unfolding provider account protocol_capability account_model provider_model account_default
    provider_default find_model_override find_pattern
validate-native_example =
    validate-native false config provider_p (account_of "a" 3) "p" "a" "m" openai_chat_completions
      config_accepted refl refl refl refl

resolve_candidate-validated_example :
    Succeeds (resolve_candidate false config (route_of "exact" "m") openai_chat_completions "m")
unfolding provider account
resolve_candidate-validated_example =
    resolve_candidate-validated false config 1 (route_of "exact" "m") openai_chat_completions
      config_accepted refl refl refl
      (λ p e.
        let q : provider_p.id ≡ p.id = cc in
        ((account_of "a" 3, refl, q), ((account_of "b" 1, refl, q), tt)))
