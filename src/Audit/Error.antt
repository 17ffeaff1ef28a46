-- ===== src/Audit/Error.antt =====
-- crates/obsign-audit-core/src/error.rs: the errors that the modelled functions return. A message
-- that the code formats is represented by the values that it prints.
use obsign.Prelude.{ℕ, Bytes, Fallible}

pub data IntervalFault : Type 0 where
  -- "seq {seq} follows seq {pseq}"
  seq_follows : ℕ → ℕ → IntervalFault
  -- "seq {seq}: prev_hash does not match the hash of seq {pseq}"
  prev_hash_mismatch : ℕ → ℕ → IntervalFault

pub data Error : Type 0 where
  bad_hex : Bytes → Error
  bad_signature_length bad_key_length : Error
  bad_key : Bytes → Error
  unsupported_algo : Bytes → Error
  -- the key, and the interval
  bad_signature : Bytes → ℕ → ℕ → Error
  missing_origin_signature : ℕ → Error
  bad_origin_signature : ℕ → Bytes → Error
  bad_deployment_signature : Error
  unknown_deployment_format : Bytes → Error
  non_origin_key_in_bundle : Bytes → Error
  duplicate_bundle_key : Bytes → Error
  bad_session_cert : Bytes → Error
  bad_der : Bytes → Error
  timestamp_rejected : ℕ → Error
  bad_attestation : Bytes → Error
  -- "... 0x{value:04X}"
  unsupported_attestation : Bytes → ℕ → Error
  -- "unsupported TPMT_PUBLIC type 0x{object_type:04X}: only ECC signing keys are attested"
  unsupported_type : ℕ → Error
  -- "unsupported TPMT_PUBLIC scheme/curve 0x{s:04X}/0x{c:04X}"
  unsupported_scheme : ℕ → ℕ → Error
  empty_seal : Error
  broken_interval : IntervalFault → Error
  -- no error of the code: an `expect` that found nothing, where the program would abort
  expect_failed : Error

abbrev pub Result {ℓ} : Type ℓ → Type ℓ
Result A = Fallible Error A
