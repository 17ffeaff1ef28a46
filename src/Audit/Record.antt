-- ===== src/Audit/Record.antt =====
-- crates/obsign-audit-core/src/record.rs: one link of the audit log, and the hash that names it.
pub mod Binding
use obsign.Prelude.{ℕ, Bytes, ℤ, Option}
use obsign.Crypto.{Crypto}
use obsign.Audit.Hash.{Hash, digest, domain_record}
use obsign.Audit.Canonical.{new, ◌▸◌, u64, i64, str, hash, opt_str, finish}
use obsign.Audit.Payload.{Payload, encode}

pub record Record : Type 0 where
  pub seq : ℕ
  pub ts_ms : ℤ
  pub prev_hash : Hash
  pub id : Bytes
  pub parent_id : Option Bytes
  pub session_id : Bytes
  pub payload : Payload

-- What `Record::hash` feeds to the digest.
unfoldable pub record_bytes : Record → Bytes
record_bytes r = finish (
    new
    ▸ u64 r.seq
    ▸ i64 r.ts_ms
    ▸ hash r.prev_hash
    ▸ str r.id
    ▸ opt_str r.parent_id
    ▸ str r.session_id
    ▸ encode r.payload)

unfoldable pub record_hash : ⦃c : Crypto⦄ → Record → Hash
record_hash r = digest domain_record (record_bytes r)
