-- ===== src/Domain/Protocol.antt =====
-- src/domain/protocol.rs.
use my_ai_gateway.Prelude.{
  Bool, true, false, ◌||◌, Option, none, some, String, ◌==◌, List, [], ◌∷◌, if◌then◌else◌, ◌≡◌,
  refl,
}

pub data Protocol : Type 0 where
  openai_chat_completions openai_responses anthropic_messages : Protocol

-- `Protocol::ALL`.
abbrev pub all_protocols : List Protocol
all_protocols = openai_chat_completions ∷ openai_responses ∷ anthropic_messages ∷ []

-- The derived `PartialEq`.
abbrev pub same_protocol : Protocol → Protocol → Bool
same_protocol openai_chat_completions openai_chat_completions = true
same_protocol openai_responses openai_responses = true
same_protocol anthropic_messages anthropic_messages = true
same_protocol _ _ = false

-- `Display`.
abbrev pub display : Protocol → String
display openai_chat_completions = "openai_chat_completions"
display openai_responses = "openai_responses"
display anthropic_messages = "anthropic_messages"

-- `FromStr`.
unfoldable pub from_str : String → Option Protocol
from_str value =
    if value == "openai_chat_completions" || value == "chat_completions"
    then some openai_chat_completions
    else if value == "openai_responses" || value == "responses"
    then some openai_responses
    else if value == "anthropic_messages" || value == "messages" || value == "claude"
    then some anthropic_messages
    else none

-- A map whose keys are protocols, as an association list.
abbrev pub get_protocol {ℓ} : {A : Type ℓ} → Protocol → List (Protocol × A) → Option A
get_protocol p [] = none
get_protocol p ((q, a) ∷ rest) = if same_protocol q p then some a else get_protocol p rest

abbrev pub contains_protocol : Protocol → List Protocol → Bool
contains_protocol p [] = false
contains_protocol p (q ∷ rest) = same_protocol q p || contains_protocol p rest

-- The printed name of a protocol is read back as that protocol.
pub from_str-display : (p : Protocol) → from_str (display p) ≡ some p
unfolding from_str
from_str-display openai_chat_completions = refl
from_str-display openai_responses = refl
from_str-display anthropic_messages = refl

pub same_protocol-eq : (p q : Protocol) → same_protocol p q ≡ true → p ≡ q
same_protocol-eq openai_chat_completions openai_chat_completions h = refl
same_protocol-eq openai_responses openai_responses h = refl
same_protocol-eq anthropic_messages anthropic_messages h = refl
same_protocol-eq _ _ h = cc
