-- ===== src/Audit/Evidence/Binding.antt =====
-- A proven checkpoint binds the records that a pack has at its positions.
use obsign.Prelude.{
  ℕ, ◌+◌, ◌-◌, zero, suc, ◌≡◌, ◌⊎◌, inl, inr, refl, ap, sym, ◌∙◌, Bytes, Bool-cases, Option, none,
  some, Option-cases, List, [], ◌∷◌, map, arith, ◌==◌,
}
use obsign.Crypto.{Crypto, CryptoLaws}
use obsign.Audit.Hash.{Hash, Collision}
use obsign.Audit.Merkle.{merkle_root}
use obsign.Audit.Merkle.Binding.{merkle_root-binding}
use obsign.Audit.Canonical.Items.{Each}
use obsign.Audit.Record.{Record, record_hash}
use obsign.Audit.Record.Binding.{IsEncodable}
use obsign.Audit.Checkpoint.{SignedCheckpoint}
use obsign.Audit.Checkpoint.Binding.{record_hashes-binding}
use obsign.Audit.Origin.{SignedRecord}
use obsign.Audit.Evidence.{ChainPass, chain_start, chain_step, check_chain, SeqMap, find, put, Keys}
use obsign.Audit.Evidence.Seals.{leaves_from}
use obsign.Audit.Evidence.SealSound.{Proven}

-- The records of a map at consecutive positions.
unfoldable pub records_from : ℕ → ℕ → SeqMap Record → List Record
records_from zero seq m = []
records_from (suc count) seq m =
    let rest = records_from count (suc seq) m in
    elim (find seq m) [ none ↦ rest | some r ↦ r ∷ rest ]

module _ ⦃c : Crypto⦄ where
  abbrev hash_entry : ℕ × Record → ℕ × Hash
  hash_entry (k, r) = (k, record_hash r)

  abbrev hashes_of : SeqMap Record → SeqMap Hash
  hashes_of m = map hash_entry m

  put-hashes_of :
      (k : ℕ) (r : Record) (m : SeqMap Record)
      → (put k (record_hash r) (hashes_of m)).0 ≡ hashes_of (put k r m).0
  unfolding put
  put-hashes_of k r [] = refl
  put-hashes_of k r ((j, u) ∷ m) = ground (arith, put-hashes_of k r m)

  find-hashes_of :
      (k : ℕ) (m : SeqMap Record)
      → find k (hashes_of m) ≡ elim (find k m) [ none ↦ none | some r ↦ some (record_hash r) ]
  unfolding find
  find-hashes_of k [] = refl
  find-hashes_of k ((j, u) ∷ m) = elim (Bool-cases (j == k)) [
    | inl e ↦ rw e refl
    | inr e ↦ rw e (find-hashes_of k m)
  ]

  -- The two maps of the loop over the records agree.
  check_chain-hashes_of :
      (s : ChainPass) (srs : List SignedRecord)
      → s.hash_by_seq ≡ hashes_of s.records_by_seq
      → (check_chain s srs).hash_by_seq ≡ hashes_of (check_chain s srs).records_by_seq
  unfolding check_chain chain_step
  check_chain-hashes_of s [] e = e
  check_chain-hashes_of s (sr ∷ srs) e = check_chain-hashes_of (chain_step s sr.rec) srs (
      ap (λ (m : SeqMap Hash). (put sr.seq (record_hash sr.rec) m).0) e
      ∙ put-hashes_of sr.seq sr.rec s.records_by_seq)

  leaves_from-hashes_of :
      (count seq : ℕ) (m : SeqMap Record) {leaves : List Hash}
      → leaves_from count seq (hashes_of m) ≡ (leaves, [])
      → leaves ≡ map record_hash (records_from count seq m)
  unfolding leaves_from records_from
  leaves_from-hashes_of zero seq m e = sym (ap (λ (x : List Hash × List ℕ). x.0) e)
  leaves_from-hashes_of (suc count) seq m {leaves} e =
      let rest = leaves_from count (suc seq) (hashes_of m) in
      elim (Option-cases (find seq m)) [
        | inl absent ↦ absurd (ground (arith, e, find-hashes_of seq m, absent))
        | inr (r, there) ↦
            let here : (record_hash r ∷ rest.0 ≡ leaves) × (rest.1 ≡ []) =
              ground (arith, e, find-hashes_of seq m, there) in
            let later =
              leaves_from-hashes_of count (suc seq) m {leaves = rest.0} (ground (arith, here)) in
            ground (arith, here, later, there)
      ]

  -- The records that a pack has at the positions of a checkpoint.
  abbrev pub sealed_records : List SignedRecord → SignedCheckpoint → List Record
  sealed_records srs sc =
      records_from (sc.checkpoint.to_seq - sc.checkpoint.from_seq + 1) sc.checkpoint.from_seq
        (check_chain chain_start srs).records_by_seq

  Proven-sealed_records :
      (i : Bytes) (ks : Keys) (srs : List SignedRecord) (prev : Option Hash) (sc : SignedCheckpoint)
      → Proven i ks (check_chain chain_start srs).hash_by_seq prev sc
      → merkle_root (map record_hash (sealed_records srs sc)) ≡ some sc.checkpoint.root
  Proven-sealed_records i ks srs prev sc p =
      let agree = check_chain-hashes_of chain_start srs refl in
      let leaves =
        leaves_from-hashes_of (sc.checkpoint.to_seq - sc.checkpoint.from_seq + 1)
          sc.checkpoint.from_seq (check_chain chain_start srs).records_by_seq {leaves = p.leaves}
          (cc (agree, p.all_there)) in
      cc (leaves, p.has_root)

  -- Two packs, each with a proven checkpoint and encodable records at the positions of it: if the
  -- checkpoints have one root, then those records are the same, or the packs exhibit a collision
  -- of SHA-256.
  pub Proven-binding :
      (l : CryptoLaws c) (i j : Bytes) (ks ls : Keys) (srs trs : List SignedRecord)
      (p q : Option Hash) (a b : SignedCheckpoint)
      → Proven i ks (check_chain chain_start srs).hash_by_seq p a
      → Proven j ls (check_chain chain_start trs).hash_by_seq q b
      → Each IsEncodable (sealed_records srs a)
      → Each IsEncodable (sealed_records trs b)
      → a.checkpoint.root ≡ b.checkpoint.root
      → (sealed_records srs a ≡ sealed_records trs b) ⊎ Collision
  Proven-binding l i j ks ls srs trs p q a b pa pb ea eb same =
      elim (merkle_root-binding l (map record_hash (sealed_records srs a))
        (map record_hash (sealed_records trs b))
        (Proven-sealed_records i ks srs p a pa ∙ ap some same)
        (Proven-sealed_records j ls trs q b pb)) [
          | inl hashes ↦
              record_hashes-binding (sealed_records srs a) (sealed_records trs b) ea eb hashes
          | inr x ↦ inr x
        ]
