-- ===== src/Prelude/Decimal.antt =====
-- Numbers in a text.
use Prim.Native.Nat.{ℕ, zero, suc, ◌+◌, ◌/◌, ◌%◌}
use mathlib.Core.List.{[], ◌∷◌, ◌++◌}
use obsign.Prelude.Buffers.{Bytes}
use obsign.Prelude.Tests.{ltb, if◌then◌else◌}

-- The decimal digits of a number, at most `more` of them; 20 are enough for a `u64`.
unfoldable pub decimal : ℕ → ℕ → Bytes
decimal zero n = []
decimal (suc more) n =
    let front = decimal more (n / 10) in
    if ltb n 10 then (48 + n) ∷ [] else front ++ ((48 + n % 10) ∷ [])
