-- ===== src/Prelude/Words.antt =====
-- Signed 64-bit integers: an integer by its sign, and its two's complement bit pattern.
use Prim.Native.Nat.{ℕ, ◌-◌, ◌<◌, ◌^◌}
use mathlib.Core.Path.{◌≡◌}
use native.Mathlib.Omega.{arith}

-- `negsuc n` is -(n + 1).
pub data ℤ : Type 0 where
  pos : ℕ → ℤ
  negsuc : ℕ → ℤ

-- The values of an `i64`.
abbrev pub FitsI64 : ℤ → Type 0
FitsI64 (pos n) = n < 2 ^ 63
FitsI64 (negsuc n) = n < 2 ^ 63

-- The bit pattern of an `i64`, as a `u64`.
pub i64_bits : ℤ → ℕ
i64_bits (pos n) = n
i64_bits (negsuc n) = 2 ^ 64 - 1 - n

pub i64_bits-lt : (z : ℤ) → FitsI64 z → i64_bits z < 2 ^ 64
unfolding i64_bits
i64_bits-lt (pos n) h = omega arith
i64_bits-lt (negsuc n) h = omega arith

pub i64_bits-injective : (a b : ℤ) → FitsI64 a → FitsI64 b → i64_bits a ≡ i64_bits b → a ≡ b
unfolding i64_bits
i64_bits-injective (pos m) (pos n) h k e = ground arith
i64_bits-injective (negsuc m) (negsuc n) h k e = ground arith
i64_bits-injective (pos m) (negsuc n) h k e = absurd (omega arith)
i64_bits-injective (negsuc m) (pos n) h k e = absurd (omega arith)
