-- ===== src/Auth/Scopes.antt =====
-- The models and the scopes that a virtual key may use, of src/infra/db/virtual_keys.rs.
use my_ai_gateway.Prelude.{
  Bool, true, false, not, ◌&&◌, ◌||◌, Option, none, some, String, ◌==◌, List, [], ◌∷◌, map, any,
  is_empty, unwrap_or, if◌then◌else◌, is_some,
}
use my_ai_gateway.Prelude.Text.{concat}
use my_ai_gateway.Proxy.Json.{Json}

unfoldable pub virtual_key_invoke_scope : String
virtual_key_invoke_scope = "gateway:invoke"

unfoldable pub virtual_key_models_scope : String
virtual_key_models_scope = "gateway:models:read"

-- The equality of `Option<&str>`.
abbrev pub same_option : Option String → Option String → Bool
same_option none none = true
same_option none (some b) = false
same_option (some a) none = false
same_option (some a) (some b) = a == b

module _ {V : Type 0} (json : Json V) where
  abbrev pub elements : V → List V
  elements value = unwrap_or [] (json.as_array value)

  unfoldable pub scopes_json : List String → V
  unfolding virtual_key_invoke_scope
  scopes_json scopes =
      if is_empty scopes
      then json.array (json.string virtual_key_invoke_scope ∷ [])
      else json.array (map json.string scopes)

  unfoldable pub allowed_models_allow : V → Option String → Bool
  allowed_models_allow value model =
      is_empty (elements value)
      || not (is_some model)
      || any
          (λ item.
            same_option (json.as_str item) model || same_option (json.as_str item) (some "*"))
          (elements value)

  unfoldable pub scope_allow : V → String → Bool
  unfolding virtual_key_models_scope virtual_key_invoke_scope
  scope_allow value required =
      any
        (λ item.
          same_option (json.as_str item) (some "*")
          || same_option (json.as_str item) (some required)
          || (required == virtual_key_models_scope
              && same_option (json.as_str item) (some virtual_key_invoke_scope)))
        (elements value)

-- The first scope that is not known is named by the error.
unfoldable pub validate_virtual_key_scopes : List String → Option String
unfolding virtual_key_models_scope virtual_key_invoke_scope
validate_virtual_key_scopes [] = none
validate_virtual_key_scopes (scope ∷ rest) =
    let remaining = validate_virtual_key_scopes rest in
    if scope == virtual_key_invoke_scope || scope == virtual_key_models_scope || scope == "*"
    then remaining
    else some (concat ("unsupported virtual key scope '" ∷ scope ∷ "'" ∷ []))
