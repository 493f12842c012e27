-- ===== src/Prelude/Decimal.antt =====
-- `Display` of an unsigned integer of at most 64 bits.
use Prim.Native.Nat.{ℕ, zero, suc, ◌+◌, ◌/◌, ◌%◌}
use Prim.Native.String.{String, [], ◌∷◌, ◌++◌}
use my_ai_gateway.Prelude.Tests.{if◌then◌else◌, ltb}
use my_ai_gateway.Prelude.Bytes.{from_u32}

digits : ℕ → ℕ → String
unfolding from_u32
digits zero n = []
digits (suc more) n =
    let front = digits more (n / 10) in
    (if ltb n 10 then [] else front) ++ (from_u32 (48 + n % 10) ∷ [])

-- Twenty digits are enough below 2 ^ 64.
unfoldable pub decimal : ℕ → String
unfolding digits
decimal n = digits 20 n
