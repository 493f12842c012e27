-- ===== src/Prelude/Text.antt =====
-- The string functions of the standard library that the program calls, over code points.
use Prim.Native.Char.{Char, code}
use Prim.Native.String.{String, [], ◌∷◌}
use mathlib.Core.Bool.{Bool, true, false, ◌&&◌, ◌||◌}
use mathlib.Core.Option
use mathlib.Core.Option.{Option, none, some}
use Prim.Native.Nat.{ℕ, ◌+◌}
use Prim.Native.String
use text.Mathlib.Text.{◌==◌}
use mathlib.Core.List.{List}
use my_ai_gateway.Prelude.Tests.{if◌then◌else◌, leb, eqb}
use my_ai_gateway.Prelude.Bytes.{from_u32}

-- `char::is_whitespace`: the code points with the property White_Space.
unfoldable pub is_whitespace : ℕ → Bool
is_whitespace c =
    (leb 9 c && leb c 13)
    || eqb c 32
    || eqb c 0x85
    || eqb c 0xa0
    || eqb c 0x1680
    || (leb 0x2000 c && leb c 0x200a)
    || eqb c 0x2028
    || eqb c 0x2029
    || eqb c 0x202f
    || eqb c 0x205f
    || eqb c 0x3000

unfoldable pub trim_start : String → String
unfolding is_whitespace
trim_start [] = []
trim_start (c ∷ s) = if is_whitespace (code c) then trim_start s else c ∷ s

abbrev pub is_nil : String → Bool
is_nil [] = true
is_nil (c ∷ s) = false

-- A character is dropped if it is white space and nothing but white space follows.
unfoldable pub trim_end : String → String
unfolding is_whitespace
trim_end [] = []
trim_end (c ∷ s) =
    let rest = trim_end s in if is_nil rest && is_whitespace (code c) then [] else c ∷ rest

-- `str::trim`.
unfoldable pub trim : String → String
unfolding trim_start trim_end
trim s = trim_end (trim_start s)

-- `str::strip_suffix('*')`, which is `some` exactly if the text ends with '*'.
unfoldable pub strip_star : String → Option String
strip_star [] = none
strip_star (c ∷ []) = if eqb (code c) b'*' then some [] else none
strip_star (c ∷ (d ∷ s)) = Option.map (λ r. c ∷ r) (strip_star (d ∷ s))

-- `str::trim_start_matches('/')` and `str::trim_end_matches('/')`.
unfoldable pub trim_start_slash : String → String
trim_start_slash [] = []
trim_start_slash (c ∷ s) = if eqb (code c) b'/' then trim_start_slash s else c ∷ s

unfoldable pub trim_end_slash : String → String
trim_end_slash [] = []
trim_end_slash (c ∷ s) =
    let rest = trim_end_slash s in if is_nil rest && eqb (code c) b'/' then [] else c ∷ rest

-- `format!`: the pieces, joined.
unfoldable pub concat : List String → String
concat List.[] = []
concat (List.◌∷◌ s rest) = String.◌++◌ s (concat rest)

-- `str::strip_prefix`.
unfoldable pub strip_prefix : String → String → Option String
strip_prefix [] s = some s
strip_prefix (c ∷ p) [] = none
strip_prefix (c ∷ p) (d ∷ s) =
    let rest = strip_prefix p s in if eqb (code c) (code d) then rest else none

-- `str::to_ascii_lowercase`.
unfoldable lower : Char → Char
unfolding from_u32
lower c = if leb 65 (code c) && leb (code c) 90 then from_u32 (code c + 32) else c

unfoldable pub to_ascii_lowercase : String → String
unfolding lower
to_ascii_lowercase [] = []
to_ascii_lowercase (c ∷ s) = lower c ∷ to_ascii_lowercase s

-- `str::ends_with`.
unfoldable pub ends_with : String → String → Bool
ends_with [] suffix = [] == suffix
ends_with (c ∷ s) suffix = let rest = ends_with s suffix in (c ∷ s) == suffix || rest

-- `str::strip_suffix`.
unfoldable pub strip_suffix : String → String → Option String
strip_suffix suffix [] = if suffix == [] then some [] else none
strip_suffix suffix (c ∷ s) =
    let rest = strip_suffix suffix s in
    if (c ∷ s) == suffix then some [] else Option.map (λ t. c ∷ t) rest

-- `str::contains` of a character.
unfoldable pub contains : ℕ → String → Bool
contains b [] = false
contains b (c ∷ s) = eqb (code c) b || contains b s

-- `str::trim_end_matches` of a character.
unfoldable pub trim_end_matches : ℕ → String → String
trim_end_matches b [] = []
trim_end_matches b (c ∷ s) =
    let rest = trim_end_matches b s in if is_nil rest && eqb (code c) b then [] else c ∷ rest

abbrev prepend : Char → List String → List String
prepend c List.[] = List.◌∷◌ (c ∷ []) List.[]
prepend c (List.◌∷◌ s rest) = List.◌∷◌ (c ∷ s) rest

-- `str::split` of a character.
unfoldable pub split : ℕ → String → List String
split b [] = List.◌∷◌ [] List.[]
split b (c ∷ s) =
    let rest = split b s in if eqb (code c) b then List.◌∷◌ [] rest else prepend c rest
