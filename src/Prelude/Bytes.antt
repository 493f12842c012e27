-- ===== src/Prelude/Bytes.antt =====
-- UTF-8, as the standard library reads and writes it: a byte is a number below 256.
use Prim.Native.Nat.{ℕ, ◌+◌, ◌-◌, ◌*◌, ◌/◌, ◌%◌, compare, Ordering}
use Prim.Native.Char.{Char, char, code}
use Prim.Native.String
use Prim.Native.String.{String}
use mathlib.Core.Path.{◌≡◌, refl}
use mathlib.Core.Bool.{Bool, ◌&&◌}
use mathlib.Core.List.{List, [], ◌∷◌}
use my_ai_gateway.Prelude.Tests.{if◌then◌else◌, ltb, leb, eqb}

abbrev replacement : Char
replacement = char 0xfffd tt

-- `char::from_u32`, with the replacement character for a number that is no scalar value.
scalar :
    (n : ℕ) (a b c : Ordering)
    → compare n 55296 ≡ a
    → compare 57343 n ≡ b
    → compare n 1114112 ≡ c
    → Char
scalar n Ordering.lt b c ha hb hc = char n (rw ha tt)
scalar n Ordering.eq Ordering.lt Ordering.lt ha hb hc = char n (rw (ha, hb, hc) tt)
scalar n Ordering.gt Ordering.lt Ordering.lt ha hb hc = char n (rw (ha, hb, hc) tt)
scalar n a b c ha hb hc = replacement

unfoldable pub from_u32 : ℕ → Char
unfolding scalar
from_u32 n = scalar n (compare n 55296) (compare 57343 n) (compare n 1114112) refl refl refl

-- A sequence that has begun: how many bytes are missing, the range of the next, and the bits so far.
pub data Sequence : Type 0 where
  boundary : Sequence
  missing : (left low high bits : ℕ) → Sequence

abbrev between : ℕ → ℕ → ℕ → Bool
between low high b = leb low b && leb b high

unfoldable first_byte : ℕ → String × Sequence
unfolding from_u32
first_byte b =
    if ltb b 0x80
    then (String.◌∷◌ (from_u32 b) String.[], boundary)
    else if between 0xc2 0xdf b
    then (String.[], missing 1 0x80 0xbf (b - 0xc0))
    else if eqb b 0xe0
    then (String.[], missing 2 0xa0 0xbf 0)
    else if eqb b 0xed
    then (String.[], missing 2 0x80 0x9f 13)
    else if between 0xe1 0xef b
    then (String.[], missing 2 0x80 0xbf (b - 0xe0))
    else if eqb b 0xf0
    then (String.[], missing 3 0x90 0xbf 0)
    else if between 0xf1 0xf3 b
    then (String.[], missing 3 0x80 0xbf (b - 0xf0))
    else if eqb b 0xf4
    then (String.[], missing 3 0x80 0x8f 4)
    else (String.◌∷◌ replacement String.[], boundary)

abbrev prepend : Char → String × Sequence → String × Sequence
prepend c (s, next) = (String.◌∷◌ c s, next)

unfoldable next_byte : ℕ → Sequence → String × Sequence
unfolding first_byte from_u32
next_byte b boundary = first_byte b
next_byte b (missing left low high bits) =
    if between low high b
    then (if leb left 1
        then (String.◌∷◌ (from_u32 (bits * 64 + (b - 0x80))) String.[], boundary)
        else (String.[], missing (left - 1) 0x80 0xbf (bits * 64 + (b - 0x80))))
    else prepend replacement (first_byte b)

unfoldable pub decode : List ℕ → Sequence → String
unfolding next_byte
decode [] boundary = String.[]
decode [] (missing left low high bits) = String.◌∷◌ replacement String.[]
decode (b ∷ bs) s = String.◌++◌ (next_byte b s).0 (decode bs (next_byte b s).1)

-- `String::from_utf8_lossy`: every maximal part of an ill-formed sequence is replaced by U+FFFD.
unfoldable pub from_utf8_lossy : List ℕ → String
unfolding decode
from_utf8_lossy bytes = decode bytes boundary

unfoldable encode_code : ℕ → List ℕ → List ℕ
encode_code n rest =
    if ltb n 0x80
    then n ∷ rest
    else if ltb n 0x800
    then (0xc0 + n / 64) ∷ (0x80 + n % 64) ∷ rest
    else if ltb n 0x10000
    then (0xe0 + n / 4096) ∷ (0x80 + (n / 64) % 64) ∷ (0x80 + n % 64) ∷ rest
    else (0xf0 + n / 262144)
      ∷ (0x80 + (n / 4096) % 64)
      ∷ (0x80 + (n / 64) % 64)
      ∷ (0x80 + n % 64)
      ∷ rest

-- `str::as_bytes`.
unfoldable pub as_bytes : String → List ℕ
unfolding encode_code
as_bytes String.[] = []
as_bytes (String.◌∷◌ c s) = encode_code (code c) (as_bytes s)
