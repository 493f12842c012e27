-- ===== src/Proxy/Json.antt =====
-- serde_json, as a parameter: what the modelled files call of it.
use my_ai_gateway.Prelude.{
  Bool, ℕ, ◌≡◌, Option, none, some, String, ◌==◌, List, [], ◌∷◌, if◌then◌else◌,
}
use my_ai_gateway.Prelude.Text.{trim}

-- `i64`: `pos n` is `n` and `negsuc n` is `-1 - n`.
pub data ℤ : Type 0 where
  pos negsuc : ℕ → ℤ

-- `Value` is the type `V`. `get` looks up a member of an object, and is `none` for any other value.
pub record Json (V : Type 0) : Type 0 where
  pub from_str : String → Option V
  pub to_string : V → Option String
  pub get : String → V → Option V
  pub as_str : V → Option String
  pub as_bool : V → Option Bool
  pub as_u64 : V → Option ℕ
  pub as_i64 : V → Option ℤ
  pub as_array : V → Option (List V)
  pub string : String → V
  pub integer : ℤ → V
  pub array : List V → V
  pub object : List (String × V) → V

module _ {ℓ} {A : Type ℓ} where
  -- The first member of the name.
  unfoldable pub member : String → List (String × A) → Option A
  member key [] = none
  member key ((name, value) ∷ members) =
      let rest = member key members in if name == key then some value else rest

-- What serde_json documents: the members of an object, the text of a string, and that the end marker of
-- a chat is no JSON.
pub record IsDocumented {V : Type 0} (json : Json V) : Type 0 where
  pub get_object :
      (key : String) (members : List (String × V))
      → json.get key (json.object members) ≡ member key members
  pub as_str_string : (text : String) → json.as_str (json.string text) ≡ some text
  pub no_json : (text : String) → trim text ≡ "[DONE]" → json.from_str text ≡ none
