-- ===== src/Audit/EvidenceTests.antt =====
-- The theorems on evidence packs at concrete packs.
use obsign.Prelude.{
  map, ok, ◌≡◌, ◌⊎◌, refl, Bytes, codes, pos, true, none, List, [], ◌∷◌, bytes_eq, bytes_eq_iff,
  replicate, arith, some,
}
use obsign.Audit.Toy.{call, done, draft, toy, toy_laws, first, second, first-IsEncodable}
use obsign.Audit.Hash.{Hash, Collision}
use obsign.Audit.Merkle.{merkle_root, leaf_hash, climb}
use obsign.Audit.Canonical.Items.{Each}
use obsign.Audit.Record.{record_hash}
use obsign.Audit.Record.Binding.{IsEncodable}
use obsign.Audit.Checkpoint.{
  PublicKeyEntry, KeyRole, to_verifying_key, seal_interval, verify_checkpoint, Checkpoint,
  SignedCheckpoint, sign,
}
use obsign.Audit.Checkpoint.Binding.{verify_checkpoint-sign}
use obsign.Audit.Origin.{SignedRecord, unsigned, signed, origin_signing_bytes}
use obsign.Audit.Origin.Binding.{verify_origin-signed}
use obsign.Audit.Keyring.{get, contains_key}
use obsign.Audit.Evidence.{
  Keys, SeqMap, is_valid, put, find, chain_start, chain_step, check_chain, check_position,
  check_payload,
}
use obsign.Audit.Evidence.Seals.{
  opt_eq, seal_start, seal_step, check_seals, check_checkpoint, check_signature, check_interval,
  check_leaves, check_root, check_head, leaves_from, check_record_origins, origin_start,
  origin_loop, origin_pair,
}
use obsign.Audit.Chain.{new_chain, append_all}
use obsign.Audit.Evidence.ChainComplete.{check_chain-append_all}
use obsign.Audit.Evidence.ChainSound.{records_of, IsChain, check_chain_sound}
use obsign.Audit.Chain.Refines.{seal_interval-Linked}
use obsign.Audit.Evidence.SealComplete.{check_seals-seal_interval}
use obsign.Audit.Deployment.{
  DeploymentBundle, deployment_format, active_origin_keys, active_loop, sign_deployment,
  verify_deployment,
}
use obsign.Audit.Deployment.Active.{
  ActiveIn, active_origin_keys_sound, verify_deployment-sign_deployment,
}
use obsign.Audit.Evidence.SealSound.{AllProven, check_seals_sound}
use obsign.Audit.Evidence.OriginSound.{Vouched, check_record_origins_sound}
use obsign.Audit.Evidence.Binding.{records_from, sealed_records, Proven-binding}

abbrev c1 : Bytes
c1 = codes "c1"

abbrev key : Bytes
key = replicate 32 8

same_bytes : (b : Bytes) → bytes_eq b b ≡ true
same_bytes b = (bytes_eq_iff b b).1 refl

abbrev pack : List SignedRecord
pack = unsigned first ∷ unsigned second ∷ []

pack-valid : is_valid (check_chain chain_start pack).findings ≡ true
unfolding check_chain chain_step check_position check_payload put is_valid unsigned
pack-valid = rw (same_bytes (record_hash first)) refl

check_chain_sound_example : IsChain pack
check_chain_sound_example = check_chain_sound pack pack-valid

abbrev head : Hash
head = record_hash first

abbrev one : Checkpoint
one = record {
  chain_id = c1;
  from_seq = 0;
  to_seq = 0;
  root = leaf_hash head;
  head_hash = head;
  prev_checkpoint_hash = none;
  ts_ms = pos 5;
  key_id = codes "k1";
}

abbrev seal_of_one : SignedCheckpoint
seal_of_one = sign one key

abbrev trusted : Keys
trusted = record {
  keys = (codes "k1", key) ∷ [];
  origin_keys = (codes "og1", key) ∷ [];
  ops_keys = [];
}

abbrev hashes : SeqMap Hash
hashes = (check_chain chain_start (unsigned first ∷ [])).hash_by_seq

signature-verifies : check_signature trusted seal_of_one ≡ []
unfolding check_signature get sign
signature-verifies = rw (verify_checkpoint-sign toy_laws one key, check_signature) refl

interval-matches : check_interval hashes one ≡ []
unfolding check_interval check_leaves check_root check_head leaves_from find check_chain chain_step
    put unsigned merkle_root climb
interval-matches = rw (same_bytes (leaf_hash head), same_bytes head) refl

one-valid : is_valid (check_seals c1 trusted hashes seal_start (seal_of_one ∷ [])).findings ≡ true
unfolding check_seals seal_step check_checkpoint opt_eq sign is_valid
one-valid = rw (signature-verifies, interval-matches) refl

check_seals_sound_example : AllProven c1 trusted hashes none (seal_of_one ∷ [])
check_seals_sound_example = check_seals_sound c1 trusted hashes (seal_of_one ∷ []) one-valid

one-proven : AllProven c1 trusted hashes none (seal_of_one ∷ [])
one-proven = check_seals_sound c1 trusted hashes (seal_of_one ∷ []) one-valid

one-IsEncodable : Each IsEncodable (sealed_records (unsigned first ∷ []) seal_of_one)
unfolding records_from find check_chain chain_step put unsigned sign
one-IsEncodable = (first-IsEncodable, tt)

Proven-binding_example :
    (sealed_records (unsigned first ∷ []) seal_of_one
      ≡ sealed_records (unsigned first ∷ []) seal_of_one)
    ⊎ Collision
Proven-binding_example =
    Proven-binding toy_laws c1 c1 trusted trusted (unsigned first ∷ []) (unsigned first ∷ []) none
      none seal_of_one seal_of_one one-proven.0 one-proven.0 one-IsEncodable one-IsEncodable refl

abbrev vouched : SignedRecord
vouched = signed first (codes "og1") (toy.ed25519_sign key (origin_signing_bytes c1 head))

vouched-counted :
    origin_loop c1 trusted origin_start (vouched ∷ [])
    ≡ record { records_origin_ok = 1; origin_unverified = 0; findings = [] }
unfolding origin_loop origin_pair get signed
vouched-counted = rw (verify_origin-signed toy_laws c1 (codes "og1") key first, origin_pair) refl

vouched-valid : is_valid (check_record_origins true c1 trusted (vouched ∷ [])).findings ≡ true
unfolding check_record_origins is_valid
vouched-valid = rw vouched-counted refl

check_record_origins_sound_example : Each (Vouched c1 trusted) (vouched ∷ [])
check_record_origins_sound_example =
    check_record_origins_sound c1 trusted (vouched ∷ []) vouched-valid

verify_checkpoint-sign_example : verify_checkpoint (sign one key) key ≡ ok tt
verify_checkpoint-sign_example = verify_checkpoint-sign toy_laws one key

check_chain-append_all_example :
    (check_chain chain_start
      (map unsigned (append_all (new_chain c1) (draft call ∷ draft done ∷ [])).1)).findings
    ≡ []
check_chain-append_all_example =
    check_chain-append_all c1 (draft call ∷ draft done ∷ []) (refl, (refl, tt)) (omega arith)

sealed_pack :
    (cp : Checkpoint) × (seal_interval c1 (records_of pack) none (pos 5) (codes "k1") ≡ ok cp)
unfolding unsigned
sealed_pack =
    let (root, found, sealed) =
      seal_interval-Linked c1 first (second ∷ []) none (pos 5) (codes "k1") (refl, refl, tt) in
    (_, sealed)

k1-trusted : get (codes "k1") trusted.keys ≡ some key
unfolding get
k1-trusted = refl

first-at_zero : (unsigned first).seq ≡ 0
unfolding unsigned
first-at_zero = refl

check_seals-seal_interval_example :
    (check_seals c1 trusted
      (check_chain chain_start pack).hash_by_seq
      seal_start
      (sign sealed_pack.0 key ∷ [])).findings
    ≡ []
check_seals-seal_interval_example =
    check_seals-seal_interval toy_laws c1 trusted key (unsigned first) (unsigned second ∷ [])
      (pos 5) (codes "k1") first-at_zero (omega arith) sealed_pack.1 k1-trusted

abbrev gateway : PublicKeyEntry
gateway = record {
  key_id = codes "og1";
  algo = codes "ed25519";
  public_key = key;
  role = KeyRole.origin;
}

abbrev deployed : DeploymentBundle
deployed = record {
  format = deployment_format;
  version = codes "deployment@1";
  origin_keys = gateway ∷ [];
  attestations = [];
}

deployed-active : active_origin_keys deployed ≡ ok ((codes "og1", key) ∷ [])
unfolding active_loop contains_key get to_verifying_key
deployed-active = refl

active_origin_keys_sound_example : Each (ActiveIn ((codes "og1", key) ∷ [])) (gateway ∷ [])
active_origin_keys_sound_example = active_origin_keys_sound deployed deployed-active

verify_deployment-sign_deployment_example :
    verify_deployment (sign_deployment deployed (codes "ops1") key) key ≡ ok deployed
verify_deployment-sign_deployment_example =
    verify_deployment-sign_deployment toy_laws deployed (codes "ops1") key refl
