-- ===== src/Audit/Evidence.antt =====
-- crates/obsign-audit-core/src/evidence.rs: the passes of `verify_with` over an evidence pack. A
-- pass returns what it finds; a finding is its severity and its code, without the message.
pub mod Seals
pub mod Findings
pub mod ChainSound
pub mod ChainComplete
pub mod Positions
pub mod SealComplete
pub mod SealSound
pub mod OriginSound
pub mod Binding
use obsign.Prelude.{
  ℕ, ◌+◌, ◌-◌, Bytes, codes, Bool, true, false, not, ◌&&◌, Option, none, some, List, [], ◌∷◌, ◌++◌,
  map, ok, err, bytes_eq, ltb, leb, ◌==◌, if◌then◌else◌,
}
use obsign.Crypto.{Crypto}
use obsign.Audit.Hash.{Hash, is_genesis}
use obsign.Audit.Merkle.{merkle_root}
use obsign.Audit.Payload.{Payload, session_cert, is_understood}
use obsign.Audit.Record.{Record, record_hash}
use obsign.Audit.Checkpoint.{
  Checkpoint, SignedCheckpoint, PublicKeyEntry, KeyRole, seal, origin, ops, next_u64,
  checkpoint_hash, verify_checkpoint, to_verifying_key,
}
use obsign.Audit.Origin.{SignedRecord, verify_origin, verify_session_cert, key_id_for}
use obsign.Audit.Keyring.{KeyMap, get, contains_key, insert}

pub data Severity : Type 0 where
  error warning : Severity

pub record Finding : Type 0 where
  pub severity : Severity
  pub code : Bytes

abbrev pub error_of : Bytes → List Finding
error_of c = record { severity = error; code = c } ∷ []

abbrev pub warning_of : Bytes → List Finding
warning_of c = record { severity = warning; code = c } ∷ []

abbrev is_error : Severity → Bool
is_error error = true
is_error warning = false

-- `Report::is_valid`, of the findings of the report.
unfoldable pub is_valid : List Finding → Bool
is_valid [] = true
is_valid (f ∷ fs) = not (is_error f.severity) && is_valid fs

-- An absence of proof, which the options may make an error.
abbrev pub unproven : Bool → Bytes → List Finding
unproven required c = if required then error_of c else warning_of c

-- The keys by role.
pub record Keys : Type 0 where
  pub keys : KeyMap
  pub origin_keys : KeyMap
  pub ops_keys : KeyMap

-- A `BTreeMap` by position.
abbrev pub SeqMap {ℓ} : Type ℓ → Type ℓ
SeqMap A = List (ℕ × A)

unfoldable pub find {ℓ} : {A : Type ℓ} → ℕ → SeqMap A → Option A
find k [] = none
find k ((j, v) ∷ m) = if j == k then some v else find k m

-- The map after, and whether the key was in it.
unfoldable pub put {ℓ} : {A : Type ℓ} → ℕ → A → SeqMap A → SeqMap A × Bool
put k v [] = ((k, v) ∷ [], false)
put k v ((j, u) ∷ m) =
    let (m', was) = put k v m in
    if ltb k j
    then ((k, v) ∷ (j, u) ∷ m, false)
    else if j == k
    then ((k, v) ∷ m, true)
    else ((j, u) ∷ m', was)

-- The variables of the loop over the records.
pub record ChainPass : Type 0 where
  pub prev : Option (ℕ × Hash)
  pub records_by_seq : SeqMap Record
  pub hash_by_seq : SeqMap Hash
  pub records_unknown : ℕ
  pub findings : List Finding

abbrev pub chain_start : ChainPass
chain_start = record {
  prev = none;
  records_by_seq = [];
  hash_by_seq = [];
  records_unknown = 0;
  findings = [];
}

-- The `match prev` of the loop.
unfoldable pub check_position : Option (ℕ × Hash) → Record → List Finding
check_position none rec =
    if not (rec.seq == 0) && is_genesis rec.prev_hash
    then error_of (codes "inconsistent_anchor")
    else if not (rec.seq == 0)
    then warning_of (codes "partial_chain")
    else if not (is_genesis rec.prev_hash)
    then error_of (codes "invalid_genesis")
    else []
check_position (some (pseq, phash)) rec =
    (if leb rec.seq pseq
      then error_of (codes "invalid_order")
      else if not (rec.seq == next_u64 pseq)
      then error_of (codes "sequence_gap")
      else [])
    ++ (if not (bytes_eq rec.prev_hash phash) then error_of (codes "broken_link") else [])

unfoldable pub check_payload : Record → List Finding
check_payload rec =
    if not (is_understood rec.payload) then error_of (codes "unknown_payload_type") else []

module _ ⦃c : Crypto⦄ where
  -- A turn of the loop over the records.
  unfoldable pub chain_step : ChainPass → Record → ChainPass
  chain_step s rec =
      let h = record_hash rec in
      let (by_seq, duplicate) = put rec.seq rec s.records_by_seq in
      record {
        prev = some (rec.seq, h);
        records_by_seq = by_seq;
        hash_by_seq = (put rec.seq h s.hash_by_seq).0;
        records_unknown =
            if not (is_understood rec.payload) then s.records_unknown + 1 else s.records_unknown;
        findings =
            s.findings
            ++ (check_payload rec
                ++ (check_position s.prev rec
                    ++ (if duplicate then error_of (codes "duplicate_sequence") else [])));
      }

  -- The loop over the records.
  unfoldable pub check_chain : ChainPass → List SignedRecord → ChainPass
  check_chain s [] = s
  check_chain s (sr ∷ rest) = check_chain (chain_step s sr.rec) rest

  -- One entry of the key set, into the map of its role.
  unfoldable pub add_key : Keys → PublicKeyEntry → Keys × List Finding
  add_key ks entry = elim (to_verifying_key entry) [
    | err e ↦ (ks, error_of (codes "invalid_key"))
    | ok vk ↦ (
      elim entry.role [
        | seal ↦ record ks { keys = insert entry.key_id vk ks.keys }
        | origin ↦ record ks { origin_keys = insert entry.key_id vk ks.origin_keys }
        | ops ↦ record ks { ops_keys = insert entry.key_id vk ks.ops_keys }
      ],
      [],
    )
  ]

  unfoldable pub add_keys : Keys → List PublicKeyEntry → Keys × List Finding
  add_keys ks [] = (ks, [])
  add_keys ks (entry ∷ rest) =
      let (ks', found) = add_key ks entry in
      let (all, later) = add_keys ks' rest in (all, found ++ later)

  -- A turn of the loop over the records for the certificates: the session key, if it is authorized.
  unfoldable pub check_cert : Bytes → KeyMap → Payload → KeyMap → KeyMap × (List Finding × ℕ)
  check_cert chain_id identity_keys (session_cert cert) origin_keys =
      elim (get cert.identity_key_id identity_keys) [
        | none ↦ (origin_keys, ([], 1))
        | some identity_vk ↦ elim (verify_session_cert chain_id cert identity_vk) [
          | ok session_vk ↦ (insert (key_id_for session_vk) session_vk origin_keys, ([], 0))
          | err e ↦ (origin_keys, (error_of (codes "session_cert_invalid"), 0))
        ]
      ]
  check_cert chain_id identity_keys _ origin_keys = (origin_keys, ([], 0))

  unfoldable pub check_certs :
      Bytes → KeyMap → List SignedRecord → KeyMap → KeyMap × (List Finding × ℕ)
  check_certs chain_id identity_keys [] origin_keys = (origin_keys, ([], 0))
  check_certs chain_id identity_keys (sr ∷ rest) origin_keys =
      let (ks, (found, unverified)) = check_cert chain_id identity_keys sr.payload origin_keys in
      let (all, (later, more)) = check_certs chain_id identity_keys rest ks in
      (all, (found ++ later, unverified + more))

  unfoldable pub resolve_session_certs :
      Bool → List SignedRecord → Bytes → KeyMap → KeyMap × List Finding
  resolve_session_certs require_origin records chain_id origin_keys =
      let (all, (found, unverified)) = check_certs chain_id origin_keys records origin_keys in
      (
        all,
        found
            ++ (if ltb 0 unverified
                then unproven require_origin (codes "session_cert_unverified")
                else []),
      )
