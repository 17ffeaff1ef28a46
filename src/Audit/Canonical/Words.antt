-- ===== src/Audit/Canonical/Words.antt =====
-- Big-endian integers and length-prefixed strings are read back from the front of a buffer.
use native.Mathlib.Nat.{pow-suc}
use obsign.Prelude.{
  ℕ, zero, suc, ◌/◌, ◌%◌, ◌^◌, ◌<◌, ◌≡◌, refl, ◌∙◌, sym, Bytes, [], ◌∷◌, ◌++◌, append_assoc, length,
  length-append, append-injective, arith,
}
use obsign.Audit.Canonical.{to_be_bytes}

pub length-to_be_bytes : (k n : ℕ) → length (to_be_bytes k n) ≡ k
unfolding to_be_bytes
length-to_be_bytes zero n = refl
length-to_be_bytes (suc k) n = omega (
  arith,
  length-append (to_be_bytes k (n / 256)) ((n % 256) ∷ []),
  length-to_be_bytes k (n / 256),
)

div-lt-pow : (k n : ℕ) → n < 256 ^ suc k → n / 256 < 256 ^ k
div-lt-pow k n h = omega (arith, pow-suc 256 k)

pub to_be_bytes-injective :
    (k m n : ℕ) → m < 256 ^ k → n < 256 ^ k → to_be_bytes k m ≡ to_be_bytes k n → m ≡ n
unfolding to_be_bytes
to_be_bytes-injective zero m n hm hn e = omega arith
to_be_bytes-injective (suc k) m n hm hn e =
    let parts : (to_be_bytes k (m / 256) ≡ to_be_bytes k (n / 256))
        × (((m % 256) ∷ []) ≡ ((n % 256) ∷ [])) =
      append-injective (to_be_bytes k (m / 256)) (to_be_bytes k (n / 256))
        (length-to_be_bytes k (m / 256) ∙ sym (length-to_be_bytes k (n / 256))) e in
    let high : m / 256 ≡ n / 256 =
      to_be_bytes-injective k (m / 256) (n / 256) (div-lt-pow k m hm) (div-lt-pow k n hn) parts.0 in
    let low : m % 256 ≡ n % 256 = cc parts.1 in omega arith

-- A word in front of two buffers.
pub word-injective :
    (k m n : ℕ) {r s : Bytes}
    → m < 256 ^ k
    → n < 256 ^ k
    → to_be_bytes k m ++ r ≡ to_be_bytes k n ++ s
    → (m ≡ n) × (r ≡ s)
word-injective k m n {r} {s} hm hn e =
    let parts : (to_be_bytes k m ≡ to_be_bytes k n) × (r ≡ s) =
      append-injective (to_be_bytes k m) (to_be_bytes k n)
        (length-to_be_bytes k m ∙ sym (length-to_be_bytes k n)) e in
    (to_be_bytes-injective k m n hm hn parts.0, parts.1)

abbrev pub prefixed : Bytes → Bytes
prefixed b = to_be_bytes 4 (length b % 2 ^ 32) ++ b

-- A length-prefixed string in front of two buffers.
pub prefixed-injective :
    (a b : Bytes) {r s : Bytes}
    → length a < 2 ^ 32
    → length b < 2 ^ 32
    → prefixed a ++ r ≡ prefixed b ++ s
    → (a ≡ b) × (r ≡ s)
prefixed-injective a b {r} {s} ha hb e =
    let lengths : (length a % 2 ^ 32 ≡ length b % 2 ^ 32) × (a ++ r ≡ b ++ s) =
      word-injective 4 (length a % 2 ^ 32) (length b % 2 ^ 32) (omega arith) (omega arith)
        (sym (append_assoc _ a r) ∙ e ∙ append_assoc _ b s) in
    append-injective a b (omega (arith, lengths.0)) lengths.1
