-- ===== src/Audit/Evidence/SealComplete.antt =====
-- The pass over the checkpoints finds nothing in what the sealer signs over a whole log.
use obsign.Prelude.{
  ℕ, ◌+◌, ◌-◌, ◌<◌, ◌≤◌, ℤ, ok, ◌^◌, ◌≡◌, refl, ap, sym, ◌∙◌, subst, Bytes, true, false, Option,
  none, some, List, [], ◌∷◌, map, arith, length, bytes_eq_iff, ltb,
}
use obsign.Crypto.{Crypto, CryptoLaws}
use obsign.Audit.Keyring.{get}
use obsign.Audit.Checkpoint.Binding.{verify_checkpoint-sign}
use obsign.Audit.Hash.{Hash}
use obsign.Audit.Record.{Record, record_hash}
use obsign.Audit.Checkpoint.{Checkpoint, seal_interval, sign}
use obsign.Audit.Merkle.{merkle_root}
use obsign.Audit.Chain.Links.{last_link}
use obsign.Audit.Chain.Refines.{sealed_of, seal_interval-Linked, seal_interval_sound}
use obsign.Audit.Origin.{SignedRecord}
use obsign.Audit.Evidence.{Keys, SeqMap, find, chain_start, check_chain}
use obsign.Audit.Evidence.Positions.{
  at_positions, check_chain-at_positions, leaves_from-at_positions, last_link-at_positions,
  length-records_of,
}
use obsign.Audit.Evidence.Seals.{
  opt_eq, check_signature, check_checkpoint, check_seals, seal_step, seal_start, leaves_from,
  check_interval, check_leaves, check_root, check_head,
}
use obsign.Audit.Evidence.ChainSound.{records_of}

module _ ⦃c : Crypto⦄ where
  check_root_quiet :
      (leaves : List Hash) (cp : Checkpoint)
      → merkle_root leaves ≡ some cp.root
      → check_root leaves cp ≡ []
  unfolding check_root
  check_root_quiet leaves cp e =
      rw (e, check_root) (rw ((bytes_eq_iff cp.root cp.root).1 refl) refl)

  check_head_quiet :
      (hashes : SeqMap Hash) (cp : Checkpoint)
      → find cp.to_seq hashes ≡ some cp.head_hash
      → check_head hashes cp ≡ []
  unfolding check_head
  check_head_quiet hashes cp e =
      rw (e, check_head) (rw ((bytes_eq_iff cp.head_hash cp.head_hash).1 refl) refl)

  check_interval_quiet :
      (hashes : SeqMap Hash) (cp : Checkpoint) (leaves : List Hash)
      → cp.from_seq ≤ cp.to_seq
      → leaves_from (cp.to_seq - cp.from_seq + 1) cp.from_seq hashes ≡ (leaves, [])
      → merkle_root leaves ≡ some cp.root
      → find cp.to_seq hashes ≡ some cp.head_hash
      → check_interval hashes cp ≡ []
  unfolding check_interval check_leaves
  check_interval_quiet hashes cp leaves ordered all_there root head =
      let in_order : ltb cp.to_seq cp.from_seq ≡ false = ground (arith, ordered) in
      rw in_order (
        ap (check_leaves hashes cp) all_there
        ∙ rw (check_root_quiet leaves cp root, check_head_quiet hashes cp head) refl)

  check_interval-seal_interval :
      (chain_id : Bytes) (sr : SignedRecord) (srs : List SignedRecord) (p : Option Hash) (t : ℤ)
      (k : Bytes) {cp : Checkpoint}
      → sr.seq ≡ 0
      → length srs < 2 ^ 64 - 1
      → seal_interval chain_id (records_of (sr ∷ srs)) p t k ≡ ok cp
      → check_interval (check_chain chain_start (sr ∷ srs)).hash_by_seq cp ≡ []
  check_interval-seal_interval chain_id sr srs p t k {cp} at_zero small sealed =
      let rs = records_of srs in
      let size : length rs ≡ length srs = length-records_of srs in
      let linked = seal_interval_sound chain_id sr.rec rs p t k sealed in
      let (root, has_root, made) = seal_interval-Linked chain_id sr.rec rs p t k linked in
      let hashes = (check_chain chain_start (sr ∷ srs)).hash_by_seq in
      let stored : hashes ≡ at_positions 0 (sr.rec ∷ rs) =
        check_chain-at_positions chain_start 0 sr.prev_hash (sr ∷ srs) tt (omega (arith, small))
          (at_zero, refl, linked) in
      let (position, head) =
        last_link-at_positions 0 sr.rec rs [] at_zero (omega (arith, small, size)) linked tt in
      let last = last_link sr.seq (record_hash sr.rec) rs in
      let same : sealed_of chain_id sr.seq p t k root last ≡ cp = cc (sealed, made) in
      let count : last.0 - sr.seq + 1 ≡ length (sr.rec ∷ rs) = omega (arith, position, at_zero) in
      subst (λ (x : Checkpoint). check_interval hashes x ≡ []) same
        (check_interval_quiet hashes (sealed_of chain_id sr.seq p t k root last)
          (map record_hash (sr.rec ∷ rs)) (omega (arith, position, at_zero))
          (ap (λ (n : ℕ). leaves_from n sr.seq hashes) count
            ∙ ap (λ (n : ℕ). leaves_from (length (sr.rec ∷ rs)) n hashes) at_zero
            ∙ ap (leaves_from (length (sr.rec ∷ rs)) 0) stored
            ∙ leaves_from-at_positions 0 (sr.rec ∷ rs) [] tt)
          has_root (ap (find last.0) stored ∙ head))

  check_signature_quiet :
      (l : CryptoLaws c) (ks : Keys) (cp : Checkpoint) (key : Bytes)
      → get cp.key_id ks.keys ≡ some (c.ed25519_public key)
      → check_signature ks (sign cp key) ≡ []
  unfolding check_signature sign
  check_signature_quiet l ks cp key e =
      rw (e, check_signature) (rw (verify_checkpoint-sign l cp key) refl)

  check_checkpoint_quiet :
      (l : CryptoLaws c) (ks : Keys) (hashes : SeqMap Hash) (cp : Checkpoint) (key : Bytes)
      → cp.prev_checkpoint_hash ≡ none
      → get cp.key_id ks.keys ≡ some (c.ed25519_public key)
      → check_interval hashes cp ≡ []
      → check_checkpoint cp.chain_id ks hashes none (sign cp key) ≡ []
  unfolding check_checkpoint sign opt_eq
  check_checkpoint_quiet l ks hashes cp key e k interval =
      let linked : opt_eq cp.prev_checkpoint_hash none ≡ true =
        ap (λ (p : Option Hash). opt_eq p none) e in
      rw
        (
          check_signature_quiet l ks cp key k,
          interval,
          (bytes_eq_iff cp.chain_id cp.chain_id).1 refl,
          linked,
        )
        refl

  sealed_fields :
      (chain_id : Bytes) (r : Record) (rs : List Record) (p : Option Hash) (t : ℤ) (k : Bytes)
      {cp : Checkpoint}
      → seal_interval chain_id (r ∷ rs) p t k ≡ ok cp
      → (cp.chain_id ≡ chain_id) × (cp.prev_checkpoint_hash ≡ p) × (cp.key_id ≡ k)
  sealed_fields chain_id r rs p t k {cp} sealed =
      let (root, has_root, made) =
        seal_interval-Linked chain_id r rs p t k (seal_interval_sound chain_id r rs p t k sealed) in
      let same : sealed_of chain_id r.seq p t k root (last_link r.seq (record_hash r) rs) ≡ cp =
        cc (sealed, made) in
      (
        ap (λ (x : Checkpoint). x.chain_id) (sym same),
        ap (λ (x : Checkpoint). x.prev_checkpoint_hash) (sym same),
        ap (λ (x : Checkpoint). x.key_id) (sym same),
      )

  -- A pack with fewer than 2^64 - 1 records behind one at position 0, and with the checkpoint that
  -- `seal_interval` makes over all of them, behind no other, signed with a key whose public key the
  -- key set has as a sealing key under the id that the checkpoint names: the pass over the
  -- checkpoints finds nothing.
  pub check_seals-seal_interval :
      (l : CryptoLaws c) (chain_id : Bytes) (ks : Keys) (key : Bytes) (sr : SignedRecord)
      (srs : List SignedRecord) (t : ℤ) (k : Bytes) {cp : Checkpoint}
      → sr.seq ≡ 0
      → length srs < 2 ^ 64 - 1
      → seal_interval chain_id (records_of (sr ∷ srs)) none t k ≡ ok cp
      → get k ks.keys ≡ some (c.ed25519_public key)
      → (check_seals chain_id ks
          (check_chain chain_start (sr ∷ srs)).hash_by_seq
          seal_start
          (sign cp key ∷ [])).findings
        ≡ []
  unfolding check_seals seal_step
  check_seals-seal_interval l chain_id ks key sr srs t k {cp} at_zero small sealed found =
      let hashes = (check_chain chain_start (sr ∷ srs)).hash_by_seq in
      let (chain, prev, id) = sealed_fields chain_id sr.rec (records_of srs) none t k sealed in
      ap (λ (x : Bytes). check_checkpoint x ks hashes none (sign cp key)) (sym chain)
      ∙ check_checkpoint_quiet l ks hashes cp key prev
          (ap (λ (x : Bytes). get x ks.keys) id ∙ found)
          (check_interval-seal_interval chain_id sr srs none t k at_zero small sealed)
