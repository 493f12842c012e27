-- ===== src/Auth.antt =====
-- src/auth.rs and src/infra/db/virtual_keys.rs: the keys of a request, the administrator's key, and in
-- the modules below the virtual keys and the identity of a request.
pub mod Scopes
pub mod VirtualKeys
pub mod Rotation
pub mod Steps
pub mod Authenticate
pub mod Identity
use my_ai_gateway.Prelude.{Bool, false, Option, none, some, String, and_then, or_else}
use my_ai_gateway.Prelude.Text.{strip_prefix}

-- The digests of sha2 and of subtle, as a parameter: `ct_eq` compares, `hex` is the text of `{:x}`.
pub record Sha256 (D : Type 0) : Type 0 where
  pub digest : String → D
  pub ct_eq : D → D → Bool
  pub hex : D → String

-- `headers.get(name)` with `to_str`: the value of a header, where there is one and it is visible ASCII.
abbrev pub HeaderMap : Type 0
HeaderMap = String → Option String

-- The bearer token, or the value of x-api-key.
unfoldable pub supplied_key : HeaderMap → Option String
unfolding strip_prefix
supplied_key headers =
    or_else (and_then (headers "authorization") (strip_prefix "Bearer ")) (headers "x-api-key")

module _ {D : Type 0} (sha : Sha256 D) where
  unfoldable pub key_digest : String → D
  key_digest key = sha.digest key

  unfoldable pub key_matches_digest : D → String → Bool
  unfolding key_digest
  key_matches_digest expected supplied = sha.ct_eq expected (key_digest supplied)

  unfoldable pub hash_key : String → String
  hash_key raw = sha.hex (sha.digest raw)

  -- The digest that `AdminAuth` holds.
  unfoldable pub from_key : Option String → Option D
  unfolding key_digest
  from_key none = none
  from_key (some key) = some (key_digest key)

  unfoldable pub matches : Option D → Option String → Bool
  unfolding key_matches_digest
  matches none supplied = false
  matches (some expected) none = false
  matches (some expected) (some supplied) = key_matches_digest expected supplied

  -- `AdminAuth::authorized`.
  unfoldable pub authorized : Option D → HeaderMap → Bool
  unfolding matches supplied_key
  authorized expected headers = matches expected (supplied_key headers)
