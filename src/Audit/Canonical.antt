-- ===== src/Audit/Canonical.antt =====
-- crates/obsign-audit-core/src/canonical.rs: the canonical encoder. An encoder is its buffer; a
-- chain `e.str(a).u64(b)` is `e ▸ str a ▸ u64 b`.
pub mod Words
pub mod Items
pub mod Writes
use obsign.Prelude.{
  ℕ, zero, suc, ◌/◌, ◌%◌, ◌^◌, Bytes, ℤ, i64_bits, Option, none, some, List, [], ◌∷◌, ◌++◌, length,
}
use obsign.Audit.Hash.{Hash}

abbrev pub Encoder : Type 0
Encoder = Bytes

abbrev pub new : Encoder
new = []

infixl 20 ◌▸◌
abbrev pub ◌▸◌ : Encoder → (Encoder → Encoder) → Encoder
e ▸ op = op e

-- `to_be_bytes` of an unsigned integer of `k` bytes.
unfoldable pub to_be_bytes : ℕ → ℕ → Bytes
to_be_bytes zero n = []
to_be_bytes (suc k) n = to_be_bytes k (n / 256) ++ (n % 256) ∷ []

unfoldable pub u8 : ℕ → Encoder → Encoder
u8 v buf = buf ++ v ∷ []

unfoldable pub u64 : ℕ → Encoder → Encoder
u64 v buf = buf ++ to_be_bytes 8 v

unfoldable pub i64 : ℤ → Encoder → Encoder
i64 v buf = buf ++ to_be_bytes 8 (i64_bits v)

-- `b.len() as u32` keeps the low 32 bits.
unfoldable pub bytes : Bytes → Encoder → Encoder
bytes b buf = (buf ++ to_be_bytes 4 (length b % 2 ^ 32)) ++ b

unfoldable pub str : Bytes → Encoder → Encoder
unfolding bytes
str s = bytes s

unfoldable pub hash : Hash → Encoder → Encoder
hash h buf = buf ++ h

unfoldable pub opt_str : Option Bytes → Encoder → Encoder
unfolding u8 str
opt_str none e = e ▸ u8 0
opt_str (some s) e = e ▸ u8 1 ▸ str s

unfoldable pub opt_u64 : Option ℕ → Encoder → Encoder
unfolding u8 u64
opt_u64 none e = e ▸ u8 0
opt_u64 (some n) e = e ▸ u8 1 ▸ u64 n

unfoldable pub opt_hash : Option Hash → Encoder → Encoder
unfolding u8 hash
opt_hash none e = e ▸ u8 0
opt_hash (some h) e = e ▸ u8 1 ▸ hash h

-- The loop of `str_seq`.
unfoldable pub strs : List Bytes → Encoder → Encoder
unfolding str
strs [] e = e
strs (it ∷ items) e = strs items (e ▸ str it)

unfoldable pub str_seq : List Bytes → Encoder → Encoder
unfolding u64 strs
str_seq items e = e ▸ u64 (length items) ▸ strs items

abbrev pub finish : Encoder → Bytes
finish buf = buf
