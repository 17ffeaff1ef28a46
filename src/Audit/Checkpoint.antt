-- ===== src/Audit/Checkpoint.antt =====
-- crates/obsign-audit-core/src/checkpoint.rs: sealing an interval, and the sealing keys.
pub mod Binding
use obsign.Prelude.{
  err, ok, ok_or, refuse_if, ◌>>=◌, ◌>>◌, ℕ, ◌+◌, ◌-◌, ◌%◌, ◌^◌, Bytes, codes, ℤ, not, Option, none,
  some, List, [], ◌∷◌, ◌++◌, bytes_eq, ◌==◌,
}
use obsign.Crypto.{Crypto, try_into}
use obsign.Audit.Hash.{Hash, digest, domain_checkpoint}
use obsign.Audit.Canonical.{new, ◌▸◌, u64, i64, str, hash, opt_hash, finish}
use obsign.Audit.Error.{
  bad_hex, bad_signature_length, bad_key_length, bad_key, unsupported_algo, bad_signature,
  empty_seal, expect_failed, broken_interval, seq_follows, prev_hash_mismatch, Result,
}
use obsign.Audit.Merkle.{merkle_root}
use obsign.Audit.Record.{Record, record_hash}

-- `n - 1` of a `u64`, as the release build computes it.
abbrev pub prev_u64 : ℕ → ℕ
prev_u64 n = (n + (2 ^ 64 - 1)) % 2 ^ 64

pub record Checkpoint : Type 0 where
  pub chain_id : Bytes
  pub from_seq : ℕ
  pub to_seq : ℕ
  pub root : Hash
  pub head_hash : Hash
  pub prev_checkpoint_hash : Option Hash
  pub ts_ms : ℤ
  pub key_id : Bytes

pub record SignedCheckpoint : Type 0 where
  pub checkpoint : Checkpoint
  pub signature : Bytes

-- `n + 1` of a `u64`, as the release build computes it.
abbrev pub next_u64 : ℕ → ℕ
next_u64 n = (n + 1) % 2 ^ 64

-- What `signing_bytes` feeds to the digest.
unfoldable pub checkpoint_bytes : Checkpoint → Bytes
checkpoint_bytes cp = finish (
    new
    ▸ str cp.chain_id
    ▸ u64 cp.from_seq
    ▸ u64 cp.to_seq
    ▸ hash cp.root
    ▸ hash cp.head_hash
    ▸ opt_hash cp.prev_checkpoint_hash
    ▸ i64 cp.ts_ms
    ▸ str cp.key_id)

pub data KeyRole : Type 0 where
  seal origin ops : KeyRole

pub record PublicKeyEntry : Type 0 where
  pub key_id : Bytes
  pub algo : Bytes
  pub public_key : Bytes
  pub role : KeyRole

module _ ⦃c : Crypto⦄ where
  unfoldable pub signing_bytes : Checkpoint → Bytes
  signing_bytes cp = digest domain_checkpoint (checkpoint_bytes cp)

  -- `Checkpoint::hash` copies the 32 signed bytes.
  abbrev pub checkpoint_hash : Checkpoint → Hash
  checkpoint_hash cp = signing_bytes cp

  unfoldable pub sign : Checkpoint → Bytes → SignedCheckpoint
  sign cp key = record {
    checkpoint = cp;
    signature = c.hex_encode (c.ed25519_sign key (signing_bytes cp));
  }

  -- The two tests of the loop body, against the record before.
  unfoldable pub check_link : Option (ℕ × Hash) → Record → Result (Unit {0})
  check_link none rec = ok tt
  check_link (some (pseq, phash)) rec = do
    refuse_if (not (rec.seq == next_u64 pseq)) (broken_interval (seq_follows rec.seq pseq))
    refuse_if (not (bytes_eq rec.prev_hash phash))
        (broken_interval (prev_hash_mismatch rec.seq pseq))

  -- The loop: the hashes so far, and the last position with its hash.
  unfoldable pub collect_leaves :
      List Hash → Option (ℕ × Hash) → List Record → Result (List Hash × Option (ℕ × Hash))
  collect_leaves leaves prev [] = ok (leaves, prev)
  collect_leaves leaves prev (rec ∷ rest) =
      let h = record_hash rec in
      let later = collect_leaves (leaves ++ h ∷ []) (some (rec.seq, h)) rest in
      check_link prev rec >> later

  -- `prev` and the root are there after a loop over at least one record: the code says `expect`.
  unfoldable pub close_interval :
      Bytes → ℕ → Option Hash → ℤ → Bytes → Option Hash → Option (ℕ × Hash) → Result Checkpoint
  close_interval chain_id from_seq prev_checkpoint_hash ts_ms key_id (some root)
        (some (to_seq, head_hash)) =
      ok (record {
        chain_id = chain_id;
        from_seq = from_seq;
        to_seq = to_seq;
        root = root;
        head_hash = head_hash;
        prev_checkpoint_hash = prev_checkpoint_hash;
        ts_ms = ts_ms;
        key_id = key_id;
      })
  close_interval _ _ _ _ _ _ _ = err expect_failed

  unfoldable pub seal_interval : Bytes → List Record → Option Hash → ℤ → Bytes → Result Checkpoint
  seal_interval chain_id [] prev_checkpoint_hash ts_ms key_id = err empty_seal
  seal_interval chain_id (first ∷ rest) prev_checkpoint_hash ts_ms key_id = do
    (leaves, last) ← collect_leaves [] none (first ∷ rest)
    close_interval chain_id first.seq prev_checkpoint_hash ts_ms key_id (merkle_root leaves) last

  -- `SignedCheckpoint::verify`.
  unfoldable pub verify_checkpoint : SignedCheckpoint → Bytes → Result (Unit {0})
  verify_checkpoint sc key = do
    raw ← ok_or (c.hex_decode sc.signature) (bad_hex sc.signature)
    sig ← ok_or (try_into 64 raw) bad_signature_length
    let cp = sc.checkpoint
    refuse_if (not (c.ed25519_verify key (signing_bytes cp) sig))
        (bad_signature cp.key_id cp.from_seq cp.to_seq)

  unfoldable pub to_verifying_key : PublicKeyEntry → Result Bytes
  to_verifying_key entry = do
    refuse_if (not (bytes_eq entry.algo (codes "ed25519"))) (unsupported_algo entry.algo)
    raw ← ok_or (c.hex_decode entry.public_key) (bad_hex entry.public_key)
    key ← ok_or (try_into 32 raw) bad_key_length
    refuse_if (not (c.is_point key)) (bad_key entry.key_id)
    ok key
