-- ===== src/Audit/Attestation.antt =====
-- crates/obsign-audit-core/src/attestation.rs: the readers of a TPM's statements and of a key's public
-- area. A `Reader` is the bytes that are left; a function on it returns what it read and the rest.
pub mod Signed
use obsign.Prelude.{
  ℕ, zero, suc, ◌+◌, ◌-◌, ◌*◌, ◌%◌, ◌/◌, ◌^◌, Bytes, codes, Bool, true, false, not, ◌&&◌, ◌||◌,
  List, [], ◌∷◌, ◌++◌, ok, err, ◌>>=◌, ◌>>◌, refuse_if, ltb, ◌==◌, length, take, drop, replicate,
  if◌then◌else◌,
}
use obsign.Audit.Error.{
  Error, Result, bad_attestation, unsupported_attestation, unsupported_scheme, unsupported_type,
}

abbrev pub tpm_generated : ℕ
tpm_generated = 0xFF544347

abbrev pub st_attest_certify : ℕ
st_attest_certify = 0x8017

abbrev pub st_attest_quote : ℕ
st_attest_quote = 0x8018

abbrev pub alg_ecc : ℕ
alg_ecc = 0x0023

abbrev pub alg_ecdsa : ℕ
alg_ecdsa = 0x0018

abbrev pub alg_eddsa : ℕ
alg_eddsa = 0x0060

abbrev pub alg_null : ℕ
alg_null = 0x0010

abbrev pub ecc_nist_p256 : ℕ
ecc_nist_p256 = 0x0003

abbrev pub ecc_curve_25519 : ℕ
ecc_curve_25519 = 0x0040

-- `from_be_bytes`.
unfoldable pub from_be : ℕ → Bytes → ℕ
from_be acc [] = acc
from_be acc (b ∷ bs) = from_be (acc * 256 + b) bs

abbrev pub over : Error
over = bad_attestation (codes "TPMS_ATTEST truncated")

-- `Reader::take`.
unfoldable pub take_bytes : ℕ → Bytes → Result (Bytes × Bytes)
take_bytes n b = do refuse_if (ltb (length b) n) over; ok (take n b, drop n b)

-- `Reader::u8`, `u16` and `u32`, of 1, 2 and 4 bytes.
unfoldable pub read_uint : ℕ → Bytes → Result (ℕ × Bytes)
read_uint n b = do got ← take_bytes n b; ok (from_be 0 got.0, got.1)

unfoldable pub tpm2b : Bytes → Result (Bytes × Bytes)
tpm2b b = do n ← read_uint 2 b; take_bytes n.0 n.1

pub data Attested : Type 0 where
  quoted : Bytes → List (ℕ × ℕ) → Attested
  certified : Bytes → Attested

-- The bits that are set in the byte at `byte_idx`, from `bit` on, for `n` bits.
unfoldable pub bits_of : ℕ → ℕ → ℕ → ℕ → ℕ → List (ℕ × ℕ)
bits_of alg byte_idx byte bit zero = []
bits_of alg byte_idx byte bit (suc n) =
    let rest = bits_of alg byte_idx byte (bit + 1) n in
    if (byte / 2 ^ bit) % 2 == 1 then (alg, (byte_idx * 8 + bit) % 2 ^ 32) ∷ rest else rest

unfoldable pub bitmap_of : ℕ → ℕ → Bytes → List (ℕ × ℕ)
bitmap_of alg byte_idx [] = []
bitmap_of alg byte_idx (byte ∷ more) =
    bits_of alg byte_idx byte 0 8 ++ bitmap_of alg (byte_idx + 1) more

-- The loop over the `TPMS_PCR_SELECTION`s.
unfoldable pub selections : ℕ → List (ℕ × ℕ) → Bytes → Result (List (ℕ × ℕ) × Bytes)
selections zero selected b = ok (selected, b)
selections (suc count) selected b = do
  alg ← read_uint 2 b
  size_of_select ← read_uint 1 alg.1
  bitmap ← take_bytes size_of_select.0 size_of_select.1
  selections count (selected ++ bitmap_of alg.0 0 bitmap.0) bitmap.1

unfoldable pub read_certify : Bytes → Result Attested
read_certify b = do name ← tpm2b b; qualified ← tpm2b name.1; ok (certified name.0)

unfoldable pub read_quote : Bytes → Result Attested
read_quote b = do
  count ← read_uint 4 b
  selected ← selections count.0 [] count.1
  pcr_digest ← tpm2b selected.1
  ok (quoted pcr_digest.0 selected.0)

-- The `match` of `parse_attest`.
unfoldable pub read_statement : ℕ → Bytes → Result Attested
read_statement st b =
    if st == st_attest_certify
    then read_certify b
    else if st == st_attest_quote
    then read_quote b
    else err (unsupported_attestation (codes "unsupported TPMS_ATTEST type") st)

-- What stands behind the type: the signer, the extra data, the clock and the firmware version.
unfoldable pub skip_header : Bytes → Result Bytes
skip_header b = do
  signer ← tpm2b b
  extra ← tpm2b signer.1
  clock ← take_bytes 17 extra.1
  firmware ← take_bytes 8 clock.1
  ok firmware.1

abbrev pub not_genuine : Error
not_genuine =
    bad_attestation (codes "missing TPM_GENERATED magic: not a genuine attestation structure")

unfoldable pub parse_attest : Bytes → Result Attested
parse_attest b = do
  magic ← read_uint 4 b
  refuse_if (not (magic.0 == tpm_generated)) not_genuine
  st ← read_uint 2 magic.1
  body ← skip_header st.1
  read_statement st.0 body

pub data TpmPublicKey : Type 0 where
  -- 32 bytes
  ed25519 : Bytes → TpmPublicKey
  -- `04 || x || y`
  ecdsa_p256 : Bytes → TpmPublicKey

pub record TpmtPublic : Type 0 where
  pub name_alg : ℕ
  pub key : TpmPublicKey

-- A coordinate in 32 bytes.
unfoldable pub widen : Bytes → Bytes
widen x = replicate (32 - length x) 0 ++ x

-- The `match` on the scheme and the curve.
unfoldable pub read_key : ℕ → ℕ → Bytes → Bytes → Result TpmPublicKey
read_key scheme curve x y =
    if scheme == alg_eddsa && curve == ecc_curve_25519
    then refuse_if (not (length x == 32))
        (bad_attestation (codes "ed25519 TPMT_PUBLIC point is not 32 bytes"))
      >> ok (ed25519 x)
    else if scheme == alg_ecdsa && curve == ecc_nist_p256
    then refuse_if (ltb 32 (length x) || ltb 32 (length y))
        (bad_attestation (codes "P-256 TPMT_PUBLIC coordinate longer than 32 bytes"))
      >> ok (ecdsa_p256 (4 ∷ widen x ++ widen y))
    else err (unsupported_scheme scheme curve)

-- The scheme's hash algorithm, which only a scheme has.
unfoldable pub skip_scheme_hash : ℕ → Bytes → Result Bytes
skip_scheme_hash scheme b = if scheme == alg_null then ok b else read_uint 2 b >>= λ got. ok got.1

unfoldable pub parse_tpmt_public : Bytes → Result TpmtPublic
parse_tpmt_public b = do
  object_type ← read_uint 2 b
  refuse_if (not (object_type.0 == alg_ecc)) (unsupported_type object_type.0)
  name_alg ← read_uint 2 object_type.1
  attributes ← read_uint 4 name_alg.1
  auth_policy ← tpm2b attributes.1
  symmetric ← read_uint 2 auth_policy.1
  refuse_if (not (symmetric.0 == alg_null))
      (bad_attestation (codes "TPMT_PUBLIC carries symmetric parameters: not a signing key"))
  scheme ← read_uint 2 symmetric.1
  parameters ← skip_scheme_hash scheme.0 scheme.1
  curve ← read_uint 2 parameters
  kdf ← read_uint 2 curve.1
  refuse_if (not (kdf.0 == alg_null))
      (bad_attestation (codes "TPMT_PUBLIC carries a KDF: not a signing key"))
  x ← tpm2b kdf.1
  y ← tpm2b x.1
  refuse_if (not (length y.1 == 0)) (bad_attestation (codes "trailing bytes after TPMT_PUBLIC"))
  key ← read_key scheme.0 curve.0 x.0 y.0
  ok record { name_alg = name_alg.0; key = key }
