-- ===== src/Gateway.antt =====
-- crates/obsign-proxy: the gateway between an agent and an MCP server. Here, what it takes from its
-- host.
pub mod Identity
pub mod Session
pub mod Auth
pub mod Acts
pub mod Agent
pub mod Server
pub mod Writes
pub mod Audited
pub mod Forwarded
pub mod Passed
pub mod Served
pub mod Reached
pub mod Bounds
pub mod Steps
pub mod Gap
pub mod Fresh
pub mod Toy
mod Tests
mod GapTests
use obsign.Prelude.{ℕ, Bytes, ℤ, Fallible}
use obsign.Audit.Origin.{SignedRecord}

-- The clock and the disk. A record that is appended carries its position, which is never taken
-- twice, so that any pattern of failures is a function of the record.
pub record Host : Type 0 where
  -- `now_ms` when the record at a position is made
  pub now_ms : ℕ → ℤ
  -- `Instant::now` then, and the milliseconds since an instant
  pub instant : ℕ → ℕ
  pub elapsed_ms : ℕ → ℕ → ℕ
  -- `Wal::append` returned `Ok`, or the text of its error
  pub wal_append : SignedRecord → Fallible Bytes (Unit {0})
