-- ===== src/Audit/Evidence/Seals.antt =====
-- crates/obsign-audit-core/src/evidence.rs: the passes of `verify_with` over the origin signatures and
-- over the checkpoints, and the count of what is sealed.
use obsign.Prelude.{
  ℕ, ◌+◌, ◌-◌, zero, suc, Bytes, codes, Bool, true, false, not, ◌&&◌, ◌||◌, Option, none, some,
  List, [], ◌∷◌, ◌++◌, ok, err, bytes_eq, ltb, leb, length, if◌then◌else◌,
}
use obsign.Crypto.{Crypto}
use obsign.Audit.Hash.{Hash}
use obsign.Audit.Merkle.{merkle_root}
use obsign.Audit.Record.{Record}
use obsign.Audit.Checkpoint.{Checkpoint, SignedCheckpoint, checkpoint_hash, verify_checkpoint}
use obsign.Audit.Origin.{SignedRecord, verify_origin}
use obsign.Audit.Keyring.{get, contains_key}
use obsign.Audit.Evidence.{Finding, error_of, warning_of, unproven, Keys, SeqMap, find}

-- `==` of two optional hashes.
unfoldable pub opt_eq : Option Hash → Option Hash → Bool
opt_eq none none = true
opt_eq (some a) (some b) = bytes_eq a b
opt_eq _ _ = false

-- The loop `for seq in from..=to`, over `count` positions: the leaves, and what is missing.
unfoldable pub leaves_from : ℕ → ℕ → SeqMap Hash → List Hash × List ℕ
leaves_from zero seq hashes = ([], [])
leaves_from (suc count) seq hashes =
    let (leaves, missing) = leaves_from count (suc seq) hashes in
    elim (find seq hashes) [ some h ↦ (h ∷ leaves, missing) | none ↦ (leaves, seq ∷ missing) ]

unfoldable pub check_head : SeqMap Hash → Checkpoint → List Finding
check_head hashes cp = elim (find cp.to_seq hashes) [
  | none ↦ []
  | some head ↦ if not (bytes_eq head cp.head_hash) then error_of (codes "head_mismatch") else []
]

-- The variables of the loop over the checkpoints.
pub record SealPass : Type 0 where
  pub checkpoints_valid : ℕ
  pub sealed : List (ℕ × ℕ)
  pub prev_cp_hash : Option Hash
  pub findings : List Finding

abbrev pub seal_start : SealPass
seal_start = record { checkpoints_valid = 0; sealed = []; prev_cp_hash = none; findings = [] }

-- `cp_ok`: every finding of the loop's body clears it, and nothing else does.
abbrev pub cp_ok : List Finding → Bool
cp_ok [] = true
cp_ok (f ∷ fs) = false

abbrev pub covers : ℕ → ℕ × ℕ → Bool
covers seq (a, b) = leb a seq && leb seq b

unfoldable pub is_covered : ℕ → List (ℕ × ℕ) → Bool
is_covered seq [] = false
is_covered seq (i ∷ sealed) = covers seq i || is_covered seq sealed

unfoldable pub sealed_count : SeqMap Record → List (ℕ × ℕ) → ℕ
sealed_count [] sealed = 0
sealed_count ((seq, r) ∷ m) sealed =
    let rest = sealed_count m sealed in if is_covered seq sealed then suc rest else rest

unfoldable pub check_coverage : SeqMap Record → List (ℕ × ℕ) → List Finding
check_coverage records_by_seq sealed =
    let unsealed = length records_by_seq - sealed_count records_by_seq sealed in
    if ltb 0 unsealed then warning_of (codes "unsealed_records") else []

-- The variables of the loop over the origin signatures.
pub record OriginPass : Type 0 where
  pub records_origin_ok : ℕ
  pub origin_unverified : ℕ
  pub findings : List Finding

abbrev pub origin_start : OriginPass
origin_start = record { records_origin_ok = 0; origin_unverified = 0; findings = [] }

abbrev count_ok : OriginPass → OriginPass
count_ok s = record s { records_origin_ok = s.records_origin_ok + 1 }

abbrev count_unverified : OriginPass → OriginPass
count_unverified s = record s { origin_unverified = s.origin_unverified + 1 }

abbrev refuse : Bytes → OriginPass → OriginPass
refuse why s = record s { findings = s.findings ++ error_of why }

module _ ⦃c : Crypto⦄ where
  unfoldable pub check_signature : Keys → SignedCheckpoint → List Finding
  check_signature ks sc = elim (get sc.checkpoint.key_id ks.keys) [
    | some vk ↦ elim (verify_checkpoint sc vk) [
      | ok u ↦ []
      | err e ↦ error_of (codes "invalid_signature")
    ]
    | none ↦
        if contains_key sc.checkpoint.key_id ks.origin_keys
        then error_of (codes "key_role_mismatch")
        else if contains_key sc.checkpoint.key_id ks.ops_keys
        then error_of (codes "key_role_mismatch")
        else error_of (codes "unknown_key")
  ]

  unfoldable pub check_root : List Hash → Checkpoint → List Finding
  check_root leaves cp = elim (merkle_root leaves) [
    | none ↦ error_of (codes "empty_seal")
    | some root ↦ if not (bytes_eq root cp.root) then error_of (codes "root_mismatch") else []
  ]

  unfoldable pub check_leaves : SeqMap Hash → Checkpoint → List Hash × List ℕ → List Finding
  check_leaves hashes cp (leaves, []) = check_root leaves cp ++ check_head hashes cp
  check_leaves hashes cp (leaves, seq ∷ missing) = error_of (codes "missing_records")

  unfoldable pub check_interval : SeqMap Hash → Checkpoint → List Finding
  check_interval hashes cp =
      let count = cp.to_seq - cp.from_seq + 1 in
      if ltb cp.to_seq cp.from_seq
      then error_of (codes "invalid_interval")
      else check_leaves hashes cp (leaves_from count cp.from_seq hashes)

  -- The body of the loop over the checkpoints.
  unfoldable pub check_checkpoint :
      Bytes → Keys → SeqMap Hash → Option Hash → SignedCheckpoint → List Finding
  check_checkpoint chain_id ks hashes prev_cp_hash sc =
      let cp = sc.checkpoint in
      (if not (bytes_eq cp.chain_id chain_id) then error_of (codes "foreign_chain") else [])
      ++ ((if not (opt_eq cp.prev_checkpoint_hash prev_cp_hash)
            then error_of (codes "broken_checkpoint_link")
            else [])
          ++ (check_signature ks sc ++ check_interval hashes cp))

  unfoldable pub seal_step : Bytes → Keys → SeqMap Hash → SealPass → SignedCheckpoint → SealPass
  seal_step chain_id ks hashes s sc =
      let cp = sc.checkpoint in
      let found = check_checkpoint chain_id ks hashes s.prev_cp_hash sc in
      record {
        checkpoints_valid = if cp_ok found then s.checkpoints_valid + 1 else s.checkpoints_valid;
        sealed = if cp_ok found then s.sealed ++ (cp.from_seq, cp.to_seq) ∷ [] else s.sealed;
        prev_cp_hash = some (checkpoint_hash cp);
        findings = s.findings ++ found;
      }

  -- The loop over the checkpoints.
  unfoldable pub check_seals :
      Bytes → Keys → SeqMap Hash → SealPass → List SignedCheckpoint → SealPass
  check_seals chain_id ks hashes s [] = s
  check_seals chain_id ks hashes s (sc ∷ rest) =
      check_seals chain_id ks hashes (seal_step chain_id ks hashes s sc) rest

  -- The `match` of the loop over the origin signatures.
  unfoldable pub origin_pair :
      Bytes → Keys → OriginPass → SignedRecord → Option Bytes → Option Bytes → OriginPass
  origin_pair chain_id ks s sr none none = count_unverified s
  origin_pair chain_id ks s sr (some sig) (some kid) = elim (get kid ks.origin_keys) [
    | some vk ↦ elim (verify_origin sr chain_id vk) [
      | ok u ↦ count_ok s
      | err e ↦ refuse (codes "origin_invalid") s
    ]
    | none ↦
        if contains_key kid ks.keys
        then refuse (codes "key_role_mismatch") s
        else if contains_key kid ks.ops_keys
        then refuse (codes "key_role_mismatch") s
        else count_unverified s
  ]
  origin_pair chain_id ks s sr _ _ = refuse (codes "origin_invalid") s

  unfoldable pub origin_loop : Bytes → Keys → OriginPass → List SignedRecord → OriginPass
  origin_loop chain_id ks s [] = s
  origin_loop chain_id ks s (sr ∷ rest) =
      origin_loop chain_id ks (origin_pair chain_id ks s sr sr.origin_sig sr.origin_key_id) rest

  -- The loop, and the finding on what it left unverified.
  unfoldable pub check_record_origins : Bool → Bytes → Keys → List SignedRecord → OriginPass
  check_record_origins require_origin chain_id ks records =
      let s = origin_loop chain_id ks origin_start records in
      record s {
        findings =
            s.findings
            ++ (if ltb 0 s.origin_unverified
                then unproven require_origin (codes "origin_unverified")
                else []);
      }
