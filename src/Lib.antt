-- ===== src/Lib.antt =====
-- Obsign: a gateway that records what AI agents do through their tools in a tamper-evident log, and
-- the tools that seal the log and check it.
--
-- The parts of the program and the files that model them:
-- * crates/obsign-audit-core is the log's data and its proofs. A `Record` carries a `Payload`, its
--   position and the hash of the record before. A `ChainWriter` makes the records of a chain and
--   seals what is pending into a `Checkpoint`; the ledger seals an interval that it reads with
--   `seal_interval`. A `SignedRecord` adds the signature of the gateway that wrote the record.
--   Audit/Canonical.antt is canonical.rs: the writes of the `Encoder`, as functions on its buffer,
--   joined by `▸`. Audit/Hash.antt is hash.rs, Audit/Merkle.antt is merkle.rs, Audit/Payload.antt and
--   Audit/Record.antt are record.rs with Audit/Json.antt for its `encode_json`, Audit/Error.antt is
--   error.rs, Audit/Checkpoint.antt is checkpoint.rs, Audit/Chain.antt is the `ChainWriter` of lib.rs
--   and Audit/Origin.antt is origin.rs. A function of the model has the name of the Rust function; a
--   function that takes `&mut self` returns the state after it, and `append_all` is a run of
--   `append`s. Where `signing_bytes` and its like feed an encoder to a digest, the bytes fed have a
--   name of their own, as `checkpoint_bytes`. The folder of a module has the proofs on it.
--   Audit/Evidence.antt and Audit/Evidence/Seals.antt are evidence.rs: each loop of `verify_with` is a
--   pass over its variables, as `ChainPass`, with the body of the loop as a function of its own
--   (`chain_step`, `seal_step`, `origin_pair`), and returns findings of a severity and a code.
--   `is_valid` is `Report::is_valid` of these findings. Audit/Keyring.antt is the key maps, and
--   Audit/Deployment.antt is deployment.rs. Audit/Rfc3161.antt is rfc3161.rs and
--   Audit/Attestation.antt the readers of attestation.rs: a cursor is the bytes that are left.
-- * crates/obsign-wal is the gateway's log on disk, in Wal.antt: the bytes of one file, `none` where
--   there is none. `open_impl` returns the file after it with the writer or the error, `append` the
--   file with a line more, and `replay` the records with the healthy length. Wal/Lines.antt is
--   `BufRead::lines` as the replay uses it, on bytes that may be no UTF-8.
-- * crates/obsign-policy decides on calls. Policy/Bundle.antt is bundle.rs; engine.rs is in
--   Policy/Args.antt (the declared arguments), Policy/Question.antt (what Cedar is asked),
--   Policy/Engine.antt (the verdicts) and Policy/Load.antt. A `HashMap` is an association list
--   (Prelude/Maps.antt), and the `match` on a result in a Rust function is a function by clauses, as
--   `settle` for the result of `authorize`. The texts of the reasons are functions of their own.
-- * crates/obsign-proxy stands between the agent and the MCP server. Gateway/Session.antt is
--   session.rs, Gateway/Auth.antt is auth.rs, and gateway.rs is in Gateway/Acts.antt (the
--   messages), Gateway/Agent.antt (`handle_from_agent`) and Gateway/Server.antt
--   (`handle_from_server`). A function on `&mut Session` that may fail is a `Writes`: the session
--   afterwards, and the result. The mutexes make each handler one step; `Step` (Gateway/Steps.antt)
--   is a message of either side. For the result of a call the code takes the lock twice, to remove
--   the pending entry and to write the effect: `handle_from_server` does both, and `Step` has each
--   of them as a step of its own too. The log of a session is the list of the records that the
--   write-ahead log acknowledged. Gateway/Identity.antt is the `Delegation` of
--   crates/obsign-identity/src/verifier.rs. The other files of the folder have the proofs.
--
-- Third-party code is a parameter. `Crypto` (Crypto.antt) holds SHA-256, hex and Ed25519, and
-- `CryptoLaws` what they document; nothing is assumed of SHA-256 but the length of its digests, so
-- that the theorems on hashes end in an explicit pair of inputs with one digest, a `Collision`, as
-- the other way out. `Codec` (Wal.antt) is serde_json at a signed record; what a theorem asks of it
-- is asked of the records at hand, by `Prints`. `Cedar` and `SerdeJson` (Policy/Cedar.antt) are the
-- policy engine and the JSON values as the policy crate calls them, with types of their own for the
-- expressions, ids, entities and requests; of them only the range of `as_i64` is assumed. `Host` is
-- the clock and the disk of the gateway, and `Provider` (Gateway/Auth.antt) the token verifier with
-- its reload, of which nothing is assumed.
--
-- Numbers: a u64 is a natural number below 2^64 with its wrap-around written out (`next_u64`,
-- `prev_u64`), as in a release build; an i64 is an integer, and is encoded by its two's complement;
-- a length prefix is taken modulo 2^32, as `as u32` does, and `IsEncodable` says that a record's
-- strings are shorter. The loop of `merkle_root` runs on the number of leaves as its fuel, which is
-- enough since a level has fewer nodes than the one below it.
--
-- Not modelled: durability and the order of system calls (`sync_data`, `sync_dir`), the serde
-- implementations, what `verify_with` does with the anchors and the deployment bundle of a pack
-- and the report that it composes, the checks of TPM attestation on what its readers return,
-- P-256, the schema that `Engine::validate` gives to the validator of Cedar, the transports of the
-- gateway, the ledger, the identity bundle and the mapping of claims, the control plane, the
-- hardware keys and the command line.
pub mod Prelude
pub mod Crypto
pub mod Audit
pub mod Wal
pub mod Gateway
pub mod Policy
