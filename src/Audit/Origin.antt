-- ===== src/Audit/Origin.antt =====
-- crates/obsign-audit-core/src/origin.rs: which gateway wrote a record.
pub mod Binding
use obsign.Prelude.{
  err, ok, ok_or, refuse_if, ◌>>=◌, ◌>>◌, ℕ, Bytes, codes, Bool, not, ◌||◌, Option, none, some,
  ◌++◌, take,
}
use obsign.Crypto.{Crypto, try_into}
use obsign.Audit.Hash.{Hash, digest, domain_origin_record, domain_session_cert}
use obsign.Audit.Canonical.{new, ◌▸◌, i64, str, hash, finish}
use obsign.Audit.Error.{
  bad_hex, bad_signature_length, bad_key_length, bad_key, missing_origin_signature,
  bad_origin_signature, bad_session_cert, Result,
}
use obsign.Audit.Payload.{SessionCert}
use obsign.Audit.Record.{Record, record_hash}

pub record SignedRecord : Type 0 where
  pub rec : Record
  pub open rec use *
  pub origin_sig : Option Bytes
  pub origin_key_id : Option Bytes

unfoldable pub session_cert_bytes : Bytes → SessionCert → Bytes
session_cert_bytes chain_id cert = finish (
    new
    ▸ str chain_id
    ▸ str cert.session_pubkey
    ▸ str cert.identity_key_id
    ▸ str cert.gateway_id
    ▸ i64 cert.not_before_ms
    ▸ i64 cert.not_after_ms)

unfoldable pub origin_bytes : Bytes → Hash → Bytes
origin_bytes chain_id record_hash = finish (new ▸ str chain_id ▸ hash record_hash)

abbrev pub unwrap_or_default : Option Bytes → Bytes
unwrap_or_default none = codes ""
unwrap_or_default (some s) = s

unfoldable pub unsigned : Record → SignedRecord
unsigned rec = record { rec = rec; origin_sig = none; origin_key_id = none }

abbrev is_some : Option Bytes → Bool
is_some none = Bool.false
is_some (some s) = Bool.true

unfoldable pub is_signed : SignedRecord → Bool
is_signed sr = is_some sr.origin_sig || is_some sr.origin_key_id

module _ ⦃c : Crypto⦄ where
  -- The first sixteen characters of the key in hex, behind "origin-".
  unfoldable pub key_id_for : Bytes → Bytes
  key_id_for key = codes "origin-" ++ take 16 (c.hex_encode key)

  unfoldable pub session_cert_signing_bytes : Bytes → SessionCert → Bytes
  session_cert_signing_bytes chain_id cert =
      digest domain_session_cert (session_cert_bytes chain_id cert)

  -- The session key that the certificate authorizes.
  unfoldable pub verify_session_cert : Bytes → SessionCert → Bytes → Result Bytes
  verify_session_cert chain_id cert identity_key = do
    raw ← ok_or (c.hex_decode cert.identity_sig) (bad_hex cert.identity_sig)
    sig ← ok_or (try_into 64 raw) bad_signature_length
    let msg = session_cert_signing_bytes chain_id cert
    refuse_if (not (c.ed25519_verify identity_key msg sig)) (bad_session_cert cert.identity_key_id)
    pk ← ok_or (c.hex_decode cert.session_pubkey) (bad_hex cert.session_pubkey)
    key ← ok_or (try_into 32 pk) bad_key_length
    refuse_if (not (c.is_point key)) (bad_key cert.session_pubkey)
    ok key

  unfoldable pub origin_signing_bytes : Bytes → Hash → Bytes
  origin_signing_bytes chain_id record_hash =
      digest domain_origin_record (origin_bytes chain_id record_hash)

  unfoldable pub signed : Record → Bytes → Bytes → SignedRecord
  signed rec key_id sig = record {
    rec = rec;
    origin_sig = some (c.hex_encode sig);
    origin_key_id = some key_id;
  }

  verify_pair : SignedRecord → Option Bytes → Option Bytes → Bytes → Bytes → Result (Unit {0})
  verify_pair sr (some sig_hex) (some _) chain_id key = do
    raw ← ok_or (c.hex_decode sig_hex) (bad_hex sig_hex)
    sig ← ok_or (try_into 64 raw) bad_signature_length
    let msg = origin_signing_bytes chain_id (record_hash sr.rec)
    refuse_if (not (c.ed25519_verify key msg sig))
        (bad_origin_signature sr.seq (unwrap_or_default sr.origin_key_id))
  verify_pair sr _ _ chain_id key = err (missing_origin_signature sr.seq)

  unfoldable pub verify_origin : SignedRecord → Bytes → Bytes → Result (Unit {0})
  unfolding verify_pair
  verify_origin sr chain_id key = verify_pair sr sr.origin_sig sr.origin_key_id chain_id key
