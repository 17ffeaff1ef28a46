-- ===== src/Crypto.antt =====
-- The third-party crates that the core calls: `sha2`, `hex` and `ed25519_dalek`, as a parameter.
-- A verifying key is its 32 bytes: `VerifyingKey::to_bytes` gives back what `from_bytes` took.
use obsign.Prelude.{ℕ, Bytes, Bool, true, ◌≡◌, Option, none, some, length, ◌==◌, if◌then◌else◌}

pub record Crypto : Type 0 where
  -- `Sha256::new()`, `update` with the bytes, `finalize`
  pub sha256 : Bytes → Bytes
  pub hex_decode : Bytes → Option Bytes
  pub hex_encode : Bytes → Bytes
  -- whether `VerifyingKey::from_bytes` accepts 32 bytes
  pub is_point : Bytes → Bool
  -- `key.verify(message, signature)` returned `Ok`
  pub ed25519_verify : Bytes → Bytes → Bytes → Bool
  -- `SigningKey::sign` and `SigningKey::verifying_key`, over the 32 secret bytes
  pub ed25519_sign : Bytes → Bytes → Bytes
  pub ed25519_public : Bytes → Bytes

-- What the crates document.
pub record CryptoLaws (c : Crypto) : Type 0 where
  pub length-sha256 : (b : Bytes) → length (c.sha256 b) ≡ 32
  pub hex_decode-hex_encode : (b : Bytes) → c.hex_decode (c.hex_encode b) ≡ some b
  pub length-ed25519_sign : (k m : Bytes) → length (c.ed25519_sign k m) ≡ 64
  pub verify-sign :
      (k m : Bytes) → c.ed25519_verify (c.ed25519_public k) m (c.ed25519_sign k m) ≡ true

-- `try_into()` of a byte vector into an array of `n` bytes.
abbrev pub try_into : ℕ → Bytes → Option Bytes
try_into n b = if length b == n then some b else none
