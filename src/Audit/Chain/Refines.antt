-- ===== src/Audit/Chain/Refines.antt =====
-- The writer and `seal_interval` seal the same object: what the gateway seals through a
-- `ChainWriter` is what the ledger seals from the records.
use obsign.Prelude.{
  >>=-eq-ok, ok, ok_or, ℕ, ◌<◌, ◌^◌, ◌≡◌, refl, ap, sym, ◌∙◌, Bytes, ℤ, Option, none, some, List,
  [], ◌∷◌, ◌++◌, map, arith, if◌then◌else◌,
}
use obsign.Crypto.{Crypto}
use obsign.Audit.Hash.{Hash}
use obsign.Audit.Error.{empty_seal}
use obsign.Audit.Merkle.{merkle_root}
use obsign.Audit.Merkle.Binding.{merkle_root-exists}
use obsign.Audit.Record.{Record, record_hash}
use obsign.Audit.Checkpoint.{
  Checkpoint, next_u64, prev_u64, check_link, collect_leaves, close_interval, seal_interval,
}
use obsign.Audit.Chain.{
  ChainWriter, Draft, append, append_all, next_record, pending_checkpoint, seal, is_empty,
}
use obsign.Audit.Chain.Links.{
  Linked, last_link, append_all-Linked, pending-append_all, collect_leaves-Linked,
  collect_leaves_sound,
}

prev_u64-next_u64 : (n : ℕ) → n < 2 ^ 64 → prev_u64 (next_u64 n) ≡ n
prev_u64-next_u64 n h = omega arith

module _ ⦃c : Crypto⦄ where
  abbrev pub sealed_of : Bytes → ℕ → Option Hash → ℤ → Bytes → Hash → ℕ × Hash → Checkpoint
  sealed_of chain_id from_seq prev_checkpoint_hash ts_ms key_id root (to_seq, head_hash) = record {
    chain_id = chain_id;
    from_seq = from_seq;
    to_seq = to_seq;
    root = root;
    head_hash = head_hash;
    prev_checkpoint_hash = prev_checkpoint_hash;
    ts_ms = ts_ms;
    key_id = key_id;
  }

  -- On linked records the sealer returns the checkpoint over all of them.
  pub seal_interval-Linked :
      (chain_id : Bytes) (r : Record) (rs : List Record) (p : Option Hash) (t : ℤ) (k : Bytes)
      → Linked (next_u64 r.seq) (record_hash r) rs
      → (root : Hash) × (merkle_root (map record_hash (r ∷ rs)) ≡ some root)
        × (seal_interval chain_id (r ∷ rs) p t k
            ≡ ok (sealed_of chain_id r.seq p t k root (last_link r.seq (record_hash r) rs)))
  unfolding seal_interval collect_leaves check_link close_interval
  seal_interval-Linked chain_id r rs p t k l =
      let (root, e) = merkle_root-exists (record_hash r) (map record_hash rs) in
      (root, e, rw (collect_leaves-Linked (record_hash r ∷ []) r.seq (record_hash r) rs l, e))

  -- An interval that the sealer accepts is linked.
  pub seal_interval_sound :
      (chain_id : Bytes) (r : Record) (rs : List Record) (p : Option Hash) (t : ℤ) (k : Bytes)
      {cp : Checkpoint}
      → seal_interval chain_id (r ∷ rs) p t k ≡ ok cp
      → Linked (next_u64 r.seq) (record_hash r) rs
  unfolding seal_interval collect_leaves check_link
  seal_interval_sound chain_id r rs p t k e =
      let (out, collected, closed) =
        >>=-eq-ok (collect_leaves (record_hash r ∷ []) (some (r.seq, record_hash r)) rs) _ e in
      collect_leaves_sound (record_hash r ∷ []) r.seq (record_hash r) rs collected

  -- After a run of `append`s the writer stands after its last record.
  writer_link :
      (w : ChainWriter) (ds : List Draft) (seq : ℕ)
      → seq < 2 ^ 64
      → w.next_seq ≡ next_u64 seq
      → last_link seq w.head (append_all w ds).1
        ≡ (prev_u64 (append_all w ds).0.next_seq, (append_all w ds).0.head)
  unfolding append_all
  writer_link w [] seq h e = let back : seq ≡ prev_u64 w.next_seq = omega arith in ground arith
  writer_link w (d ∷ ds) seq h e = writer_link (append w d).0 ds w.next_seq (omega arith) refl

  append_all-keeps :
      (w : ChainWriter) (ds : List Draft)
      → ((append_all w ds).0.chain_id ≡ w.chain_id)
        × ((append_all w ds).0.last_checkpoint ≡ w.last_checkpoint)
  unfolding append_all
  append_all-keeps w [] = (refl, refl)
  append_all-keeps w (d ∷ ds) = append_all-keeps (append w d).0 ds

  pending_from-append_all :
      (w : ChainWriter) (h : Hash) (hs : List Hash) (ds : List Draft)
      → w.pending ≡ h ∷ hs
      → (append_all w ds).0.pending_from ≡ w.pending_from
  unfolding append_all
  pending_from-append_all w h hs [] e = refl
  pending_from-append_all w h hs (d ∷ ds) e =
      pending_from-append_all (append w d).0 h (hs ++ record_hash (next_record w d) ∷ []) ds
        (ap (λ (l : List Hash). l ++ record_hash (next_record w d) ∷ []) e)
      ∙ ap (λ (l : List Hash). if is_empty l then w.next_seq else w.pending_from) e

  seal-some :
      (w : ChainWriter) (root : Hash) (t : ℤ) (k : Bytes)
      → merkle_root w.pending ≡ some root
      → (seal w t k).1 ≡ some (pending_checkpoint w root t k)
  unfolding seal
  seal-some w root t k e = rw (e, seal)

  seal-nothing : (w : ChainWriter) (t : ℤ) (k : Bytes) → w.pending ≡ [] → (seal w t k).1 ≡ none
  unfolding seal merkle_root
  seal-nothing w t k e = rw (e, seal, merkle_root)

  -- Appending to a writer with nothing pending, at a position below 2^64, and then sealing gives what
  -- `seal_interval` gives over the records that the appends returned; with nothing appended, neither
  -- gives a checkpoint.
  pub seal-eq-seal_interval :
      (w : ChainWriter) (ds : List Draft) (t : ℤ) (k : Bytes)
      → w.next_seq < 2 ^ 64
      → w.pending ≡ []
      → ok_or (seal (append_all w ds).0 t k).1 empty_seal
        ≡ seal_interval w.chain_id (append_all w ds).1 w.last_checkpoint t k
  unfolding append_all
  seal-eq-seal_interval w [] t k small nothing =
      ap (λ (o : Option Checkpoint). ok_or o empty_seal) (seal-nothing w t k nothing)
      ∙ unfold seal_interval in refl
  seal-eq-seal_interval w (d ∷ ds) t k small nothing =
      let w' = (append w d).0 in
      let rec = next_record w d in
      let one : w'.pending ≡ record_hash rec ∷ [] =
        ap (λ (l : List Hash). l ++ record_hash rec ∷ []) nothing in
      let (root, found, sealed) =
        seal_interval-Linked w.chain_id rec (append_all w' ds).1 w.last_checkpoint t k
          (append_all-Linked w' ds) in
      let v = (append_all w' ds).0 in
      let pending : merkle_root v.pending ≡ some root =
        ap merkle_root (
          pending-append_all w' ds
          ∙ ap (λ (l : List Hash). l ++ map record_hash (append_all w' ds).1) one)
        ∙ found in
      let (chain, checkpoint) = append_all-keeps w' ds in
      let from : v.pending_from ≡ w.next_seq =
        pending_from-append_all w' (record_hash rec) [] ds one
        ∙ ap (λ (l : List Hash). if is_empty l then w.next_seq else w.pending_from) nothing in
      let head = writer_link w' ds w.next_seq small refl in
      ap (λ (o : Option Checkpoint). ok_or o empty_seal) (seal-some v root t k pending)
      ∙ cc (chain, checkpoint, from, head)
      ∙ sym sealed
