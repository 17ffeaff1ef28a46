-- ===== src/Audit/AttestationTests.antt =====
-- A small certify of a TPM, and what is read of it.
use obsign.Prelude.{◌≡◌, refl, Bytes, [], ◌∷◌, ◌++◌, ok, length, replicate}
use obsign.Audit.Attestation.{
  certified, tpm_generated, from_be, take_bytes, read_uint, tpm2b, read_certify, read_statement,
  skip_header, parse_attest, ed25519, widen, read_key, skip_scheme_hash, parse_tpmt_public,
}
use obsign.Audit.Attestation.Signed.{Number, Backed, parse_attest_sound}

abbrev statement : Bytes
statement =
    0xFF ∷ 0x54 ∷ 0x43 ∷ 0x47 ∷ 0x80 ∷ 0x17 ∷ (replicate 29 0 ++ (0 ∷ 2 ∷ 0xAB ∷ 0xCD ∷ 0 ∷ 0 ∷ []))

statement_parses : parse_attest statement ≡ ok (certified (0xAB ∷ 0xCD ∷ []))
unfolding from_be take_bytes read_uint tpm2b read_certify read_statement skip_header parse_attest
statement_parses = refl

parse_attest_sound_example :
    (magic : Bytes) × (kind : Bytes) × (rest : Bytes) × (statement ≡ magic ++ (kind ++ rest))
    × Number 4 tpm_generated magic
    × (length kind ≡ 2)
    × Backed (certified (0xAB ∷ 0xCD ∷ [])) (from_be 0 kind) rest
parse_attest_sound_example = parse_attest_sound statement statement_parses

abbrev public_area : Bytes
public_area =
    0
    ∷ 0x23
    ∷ 0
    ∷ 0x0B
    ∷ (replicate 6 0
        ++ (0 ∷ 0x10 ∷ 0 ∷ 0x60 ∷ 0 ∷ 0x0B ∷ 0 ∷ 0x40 ∷ 0 ∷ 0x10 ∷ 0 ∷ 32 ∷ [])
        ++ replicate 34 0)

public_area_parses :
    parse_tpmt_public public_area ≡ ok record { name_alg = 0x0B; key = ed25519 (replicate 32 0) }
unfolding from_be take_bytes read_uint tpm2b widen read_key skip_scheme_hash parse_tpmt_public
public_area_parses = refl
