-- ===== src/Audit.antt =====
-- crates/obsign-audit-core: the record format, the hash chain, sealing and verification.
pub mod Hash
pub mod Canonical
pub mod Merkle
pub mod Json
pub mod Payload
pub mod Record
pub mod Error
pub mod Checkpoint
pub mod Chain
pub mod Origin
pub mod Keyring
pub mod Deployment
pub mod Evidence
pub mod Attestation
pub mod Rfc3161
pub mod Toy
mod Tests
mod EvidenceTests
mod TokenTests
mod AttestationTests
