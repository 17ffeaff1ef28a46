-- ===== src/Audit/Chain.antt =====
-- crates/obsign-audit-core/src/lib.rs: the write-side state of a chain.
pub mod Links
pub mod Refines
use obsign.Prelude.{
  ℕ, Bytes, ℤ, Bool, true, false, Option, none, some, List, [], ◌∷◌, ◌++◌, if◌then◌else◌,
}
use obsign.Crypto.{Crypto}
use obsign.Audit.Hash.{Hash, genesis, digest, domain_content}
use obsign.Audit.Merkle.{merkle_root}
use obsign.Audit.Payload.{Payload}
use obsign.Audit.Record.{Record, record_hash}
use obsign.Audit.Checkpoint.{Checkpoint, checkpoint_hash, next_u64, prev_u64}

pub record ChainWriter : Type 0 where
  pub chain_id : Bytes
  pub next_seq : ℕ
  pub head : Hash
  pub pending : List Hash
  pub pending_from : ℕ
  pub last_checkpoint : Option Hash

abbrev pub new_chain : Bytes → ChainWriter
new_chain chain_id = record {
  chain_id = chain_id;
  next_seq = 0;
  head = genesis;
  pending = [];
  pending_from = 0;
  last_checkpoint = none;
}

abbrev pub resume : Bytes → ℕ → Hash → Option Hash → ChainWriter
resume chain_id next_seq head last_checkpoint = record {
  chain_id = chain_id;
  next_seq = next_seq;
  head = head;
  pending = [];
  pending_from = next_seq;
  last_checkpoint = last_checkpoint;
}

abbrev pub is_empty {ℓ} : {A : Type ℓ} → List A → Bool
is_empty [] = true
is_empty (x ∷ xs) = false

-- The arguments of `append`: what the caller may choose of a record.
pub record Draft : Type 0 where
  pub ts_ms : ℤ
  pub id : Bytes
  pub parent_id : Option Bytes
  pub session_id : Bytes
  pub payload : Payload

module _ ⦃c : Crypto⦄ where
  abbrev pub next_record : ChainWriter → Draft → Record
  next_record w d = record {
    seq = w.next_seq;
    ts_ms = d.ts_ms;
    prev_hash = w.head;
    id = d.id;
    parent_id = d.parent_id;
    session_id = d.session_id;
    payload = d.payload;
  }

  unfoldable pub append : ChainWriter → Draft → ChainWriter × Record
  append w d =
      let rec = next_record w d in
      let h = record_hash rec in
      (
        record w {
          pending_from = if is_empty w.pending then rec.seq else w.pending_from;
          pending = w.pending ++ h ∷ [];
          head = h;
          next_seq = next_u64 w.next_seq;
        },
        rec,
      )

  -- The checkpoint of a root over everything that is pending.
  abbrev pub pending_checkpoint : ChainWriter → Hash → ℤ → Bytes → Checkpoint
  pending_checkpoint w root ts_ms key_id = record {
    chain_id = w.chain_id;
    from_seq = w.pending_from;
    to_seq = prev_u64 w.next_seq;
    root = root;
    head_hash = w.head;
    prev_checkpoint_hash = w.last_checkpoint;
    ts_ms = ts_ms;
    key_id = key_id;
  }

  unfoldable pub seal : ChainWriter → ℤ → Bytes → ChainWriter × Option Checkpoint
  seal w ts_ms key_id = elim (merkle_root w.pending) [
    | none ↦ (w, none)
    | some root ↦
        let cp = pending_checkpoint w root ts_ms key_id in
        (
          record w {
            last_checkpoint = some (checkpoint_hash cp);
            pending = [];
            pending_from = w.next_seq;
          },
          some cp,
        )
  ]

  unfoldable pub content_hash : Bytes → Hash
  content_hash bytes = digest domain_content bytes

  -- A run of `append`s: the writer after it, and the records it returned, in order.
  unfoldable pub append_all : ChainWriter → List Draft → ChainWriter × List Record
  unfolding append
  append_all w [] = (w, [])
  append_all w (d ∷ ds) =
      let (w', rec) = append w d in let (last, recs) = append_all w' ds in (last, rec ∷ recs)
