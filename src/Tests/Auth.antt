-- ===== src/Tests/Auth.antt =====
-- The theorems on src/auth.rs, src/infra/db/virtual_keys.rs and src/proxy/attribution.rs at a table of
-- one key, with a digest that is the text itself.
use my_ai_gateway.Prelude.{true, ◌≡◌, refl, none, some, String, ◌==◌, [], ◌∷◌, arith, if◌then◌else◌}
use my_ai_gateway.Auth.{Sha256, HeaderMap, hash_key}
use my_ai_gateway.Auth.VirtualKeys.{
  VirtualKey, KeyDatabase, VirtualKeyMaterial, revoke_virtual_key, new_row, insert_virtual_key,
  known_origin,
}
use my_ai_gateway.Auth.Rotation.{
  VirtualKeyRotationOptions, VirtualKeyRotation, rotate_virtual_key_with_material, rotate_found,
  rotation_conflict, commit_rotation, overlap_end, max_overlap, replaced_row, rotated_key,
}
use my_ai_gateway.Auth.Authenticate.{authenticate_virtual_key_with_identity}
use my_ai_gateway.Auth.VirtualKeys.Table.{IsWellFormed}
use my_ai_gateway.Auth.VirtualKeys.Lapsed.{Refused}
use my_ai_gateway.Auth.Steps.{still, next, revokes}
use my_ai_gateway.Auth.Rotation.Contract.{Contract}
use my_ai_gateway.Auth.Rotation.Contract.Kept.{rotate-Contract}
use my_ai_gateway.Auth.Steps.Invariant.{Steps-IsWellFormed}
use my_ai_gateway.Auth.Steps.Withdrawn.{revoke-Refused, rotate-Refused}
use my_ai_gateway.Auth.Authenticate.Admission.{Admission, authenticate-Admission}
use my_ai_gateway.Auth.Identity.{static_api_key, authorized_with_db}
use my_ai_gateway.Auth.Identity.Sources.{Identified, authorized_with_db-Identified}
use my_ai_gateway.Proxy.Attribution.{client_source_from_headers}
use my_ai_gateway.Proxy.Attribution.Identified.{client_source_from_headers-identified}
use my_ai_gateway.Proxy.Json.{Json}
use my_ai_gateway.Tests.Stream.{Value, text, array, nothing, element, reading_back}

abbrev json : Json Value
json = reading_back (text "")

abbrev pub sha : Sha256 String
sha = record { digest = λ s. s; ct_eq = ◌==◌; hex = λ s. s }

abbrev pub key : VirtualKey Value
key = record {
  id = 1;
  name = "first";
  key_prefix = "gw_0";
  key_hash = "gw_01";
  key_ciphertext = none;
  allowed_models = array nothing;
  scopes = array (element (text "gateway:invoke") nothing);
  key_group = none;
  enabled = true;
  created_at = 10;
  updated_at = 10;
  last_used_at = none;
  expires_at = some 1_000;
  revoked_at = none;
  replaced_by_id = none;
  overlap_until = none;
  origin = "created";
}

abbrev pub db : KeyDatabase Value
db = record { reachable = true; keys = key ∷ []; next_id = 2 }

pub db-IsWellFormed : IsWellFormed db
db-IsWellFormed = record { distinct = (tt, tt); below = (omega arith, tt) }

abbrev options : VirtualKeyRotationOptions
options = record {
  overlap = 100;
  expires_at = none;
  name = none;
  allowed_models = none;
  scopes = none;
  key_group = none;
}

abbrev material : VirtualKeyMaterial
material = record { raw = "gw_02"; prefix = "gw_0"; hash = "gw_02" }

abbrev headers : String → HeaderMap
headers agent name =
    if name == "authorization"
    then some "Bearer gw_01"
    else if name == "user-agent"
    then some agent
    else none

revoke-Refused_example :
    Refused (revoke_virtual_key 50 db 1).1 (
      authenticate_virtual_key_with_identity json sha 60
        (revoke_virtual_key 50 db 1).1
        "gw_01"
        none)
unfolding hash_key
revoke-Refused_example =
    revoke-Refused json sha 50 1 db key "gw_01" (revoke_virtual_key 50 db 1).1 60 none
      db-IsWellFormed refl refl refl still

abbrev out : VirtualKeyRotation
out = record {
  old_id = 1;
  new_id = 2;
  key_prefix = "gw_0";
  key = "gw_02";
  overlap_until = some 140;
}

abbrev after : KeyDatabase Value
after = (rotate_virtual_key_with_material json 40 40 41 db 1 options material none).1

rotate-Refused_example :
    Refused after (authenticate_virtual_key_with_identity json sha 140 after "gw_01" none)
unfolding hash_key rotate_virtual_key_with_material rotate_found rotation_conflict commit_rotation
    insert_virtual_key known_origin rotated_key new_row overlap_end max_overlap replaced_row
rotate-Refused_example =
    rotate-Refused json sha 40 40 41 1 db options material none key "gw_01" out after after 140 none
      db-IsWellFormed refl refl refl still (omega arith)

rotate-Contract_example :
    Contract json 40 40 41 db 1 options material none
      (rotate_virtual_key_with_material json 40 40 41 db 1 options material none)
rotate-Contract_example = rotate-Contract json 40 40 41 db 1 options material none db-IsWellFormed

Steps-IsWellFormed_example : IsWellFormed (revoke_virtual_key 50 db 1).1
Steps-IsWellFormed_example = Steps-IsWellFormed json sha (next still (revokes 50 1)) db-IsWellFormed

authenticate-Admission_example :
    Admission json sha 60 db "gw_01"
      (some "m")
      (authenticate_virtual_key_with_identity json sha 60 db "gw_01" (some "m"))
authenticate-Admission_example =
    authenticate-Admission json sha 60 db "gw_01" (some "m") db-IsWellFormed

authorized_with_db-Identified_example :
    Identified json sha none 60
      (headers "curl")
      (some "m")
      (some db)
      (authorized_with_db json sha none 60 (some db) (headers "curl") (some "m"))
authorized_with_db-Identified_example =
    authorized_with_db-Identified json sha none 60 (headers "curl") (some "m") (some db)
      db-IsWellFormed

client_source_from_headers-identified_example :
    client_source_from_headers (headers "OpenAI/Python 1") (some static_api_key)
    ≡ client_source_from_headers (headers "curl") (some static_api_key)
client_source_from_headers-identified_example =
    client_source_from_headers-identified (headers "OpenAI/Python 1") (headers "curl")
      static_api_key refl
