-- ===== src/Audit/Evidence/SealSound.antt =====
-- What the pass over the checkpoints has checked where it finds no error.
use obsign.Prelude.{
  ℕ, zero, suc, sym, ◌+◌, ◌-◌, ◌≤◌, ◌≡◌, refl, ap, ◌∙◌, Bytes, codes, Bool, true, false, not,
  Option, none, some, List, [], ◌∷◌, arith, ok, bytes_eq, bytes_eq_iff, ltb, if◌then◌else◌,
  Option-cases, Bool-cases, inl, inr,
}
use obsign.Crypto.{Crypto}
use obsign.Audit.Hash.{Hash}
use obsign.Audit.Merkle.{merkle_root}
use obsign.Audit.Checkpoint.{Checkpoint, SignedCheckpoint, checkpoint_hash, verify_checkpoint}
use obsign.Audit.Keyring.{get}
use obsign.Audit.Evidence.{is_valid, Keys, SeqMap, error_of, find}
use obsign.Audit.Evidence.Findings.{is_valid-append}
use obsign.Audit.Evidence.Seals.{
  opt_eq, leaves_from, check_signature, check_root, check_head, check_leaves, check_interval,
  check_checkpoint, SealPass, seal_start, seal_step, check_seals,
}

pub opt_eq_sound : (a b : Option Hash) → opt_eq a b ≡ true → a ≡ b
unfolding opt_eq
opt_eq_sound none none h = refl
opt_eq_sound (some a) (some b) h = ap some ((bytes_eq_iff a b).0 h)
opt_eq_sound none (some b) h = absurd cc
opt_eq_sound (some a) none h = absurd cc

-- A test that is an error where it fails did not fail.
refused_sound :
    (holds : Bool) (c : Bytes)
    → is_valid (if not holds then error_of c else []) ≡ true
    → holds ≡ true
unfolding is_valid
refused_sound true c h = refl
refused_sound false c h = absurd cc

-- Where no position is missing, each has its hash.
leaves_from_step :
    (n seq : ℕ) (hashes : SeqMap Hash) {leaves : List Hash}
    → leaves_from (suc n) seq hashes ≡ (leaves, [])
    → ((h : Hash) × (find seq hashes ≡ some h))
      × ((rest : List Hash) × (leaves_from n (suc seq) hashes ≡ (rest, [])))
unfolding leaves_from
leaves_from_step n seq hashes e = elim (Option-cases (find seq hashes)) [
  | inl absent ↦ absurd (ground (arith, e, absent))
  | inr (h, there) ↦
      let (rest, missing) = leaves_from n (suc seq) hashes in
      let nothing : missing ≡ [] = ground (arith, e, there) in
      ((h, there), (rest, ap (λ (x : List ℕ). (rest, x)) nothing))
]

leaves_from_last :
    (n seq : ℕ) (hashes : SeqMap Hash) {leaves : List Hash}
    → leaves_from (suc n) seq hashes ≡ (leaves, [])
    → (h : Hash) × (find (seq + n) hashes ≡ some h)
leaves_from_last zero seq hashes e =
    let same : seq + 0 ≡ seq = omega arith in rw same (leaves_from_step zero seq hashes e).0
leaves_from_last (suc n) seq hashes e =
    let (rest, later) = (leaves_from_step (suc n) seq hashes e).1 in
    let same : seq + suc n ≡ suc seq + n = omega arith in
    rw same (leaves_from_last n (suc seq) hashes later)

check_head_sound :
    (hashes : SeqMap Hash) (cp : Checkpoint) {h : Hash}
    → find cp.to_seq hashes ≡ some h
    → is_valid (check_head hashes cp) ≡ true
    → h ≡ cp.head_hash
unfolding check_head is_valid
check_head_sound hashes cp {h} there valid =
    (bytes_eq_iff h cp.head_hash).0 (
      refused_sound (bytes_eq h cp.head_hash) (codes "head_mismatch")
        (ground (arith, valid, there)))

module _ ⦃c : Crypto⦄ where
  -- A checkpoint is proven by the hashes of a pack: it seals the chain of the pack behind the given
  -- checkpoint, a sealing key of the set verifies its signature, and its root and head are those of
  -- the hashes at its positions, none of them missing.
  pub record Proven (chain_id : Bytes) (ks : Keys) (hashes : SeqMap Hash) (prev : Option Hash)
      (sc : SignedCheckpoint) : Type 0 where
    pub seals_chain : sc.checkpoint.chain_id ≡ chain_id
    pub follows : sc.checkpoint.prev_checkpoint_hash ≡ prev
    pub key : Bytes
    pub is_sealing_key : get sc.checkpoint.key_id ks.keys ≡ some key
    pub verifies : verify_checkpoint sc key ≡ ok tt
    pub ordered : sc.checkpoint.from_seq ≤ sc.checkpoint.to_seq
    pub leaves : List Hash
    pub all_there :
        leaves_from
          (sc.checkpoint.to_seq - sc.checkpoint.from_seq + 1)
          sc.checkpoint.from_seq
          hashes
        ≡ (leaves, [])
    pub has_root : merkle_root leaves ≡ some sc.checkpoint.root
    pub has_head : find sc.checkpoint.to_seq hashes ≡ some sc.checkpoint.head_hash

  check_signature_sound :
      (ks : Keys) (sc : SignedCheckpoint)
      → is_valid (check_signature ks sc) ≡ true
      → (key : Bytes) × (get sc.checkpoint.key_id ks.keys ≡ some key)
        × (verify_checkpoint sc key ≡ ok tt)
  unfolding is_valid check_signature
  check_signature_sound ks sc h = ground (arith, h)

  check_root_sound :
      (leaves : List Hash) (cp : Checkpoint)
      → is_valid (check_root leaves cp) ≡ true
      → merkle_root leaves ≡ some cp.root
  unfolding check_root is_valid
  check_root_sound leaves cp h = elim (Option-cases (merkle_root leaves)) [
    | inl absent ↦ absurd (ground (arith, h, absent))
    | inr (root, there) ↦
        there
        ∙ ap some (
            (bytes_eq_iff root cp.root).0 (
              refused_sound (bytes_eq root cp.root) (codes "root_mismatch")
                (ground (arith, h, there))))
  ]

  check_leaves_sound :
      (hashes : SeqMap Hash) (cp : Checkpoint) (found : List Hash × List ℕ)
      → is_valid (check_leaves hashes cp found) ≡ true
      → (leaves : List Hash) × (found ≡ (leaves, []))
        × (merkle_root leaves ≡ some cp.root)
        × (is_valid (check_head hashes cp) ≡ true)
  unfolding is_valid check_leaves
  check_leaves_sound hashes cp (leaves, []) h =
      let (root, head) = is_valid-append (check_root leaves cp) _ h in
      (leaves, refl, check_root_sound leaves cp root, head)
  check_leaves_sound hashes cp (leaves, seq ∷ missing) h = absurd cc

  check_interval_sound :
      (hashes : SeqMap Hash) (cp : Checkpoint)
      → is_valid (check_interval hashes cp) ≡ true
      → (cp.from_seq ≤ cp.to_seq)
        × (leaves : List Hash) × (leaves_from (cp.to_seq - cp.from_seq + 1) cp.from_seq hashes
            ≡ (leaves, []))
        × (merkle_root leaves ≡ some cp.root)
        × (find cp.to_seq hashes ≡ some cp.head_hash)
  unfolding is_valid check_interval
  check_interval_sound hashes cp h = elim (Bool-cases (ltb cp.to_seq cp.from_seq)) [
    | inl bad ↦ absurd (ground (arith, h, bad))
    | inr good ↦
        let (leaves, all_there, root, head) =
          check_leaves_sound hashes cp
            (leaves_from (cp.to_seq - cp.from_seq + 1) cp.from_seq hashes)
            (ground (arith, h, good)) in
        let ordered : cp.from_seq ≤ cp.to_seq = ground (arith, good) in
        let count : cp.to_seq - cp.from_seq + 1 ≡ suc (cp.to_seq - cp.from_seq) = omega arith in
        let end : cp.from_seq + (cp.to_seq - cp.from_seq) ≡ cp.to_seq = omega (arith, ordered) in
        let (h, last) =
          leaves_from_last (cp.to_seq - cp.from_seq) cp.from_seq hashes {leaves = leaves}
            (rw (← count) all_there) in
        let there : find cp.to_seq hashes ≡ some h =
          ap (λ (n : ℕ). find n hashes) (sym end) ∙ last in
        (ordered, leaves, all_there, root, there ∙ ap some (check_head_sound hashes cp there head))
  ]

  check_checkpoint_sound :
      (chain_id : Bytes) (ks : Keys) (hashes : SeqMap Hash) (prev : Option Hash)
      (sc : SignedCheckpoint)
      → is_valid (check_checkpoint chain_id ks hashes prev sc) ≡ true
      → Proven chain_id ks hashes prev sc
  unfolding check_checkpoint
  check_checkpoint_sound chain_id ks hashes prev sc h =
      let (chain, r1) = is_valid-append _ _ h in
      let (link, r2) = is_valid-append _ _ r1 in
      let (signature, interval) = is_valid-append (check_signature ks sc) _ r2 in
      let (key, is_key, verifies) = check_signature_sound ks sc signature in
      let (ordered, leaves, all_there, has_root, has_head) =
        check_interval_sound hashes sc.checkpoint interval in
      record {
        seals_chain = (bytes_eq_iff _ _).0 (refused_sound _ _ chain);
        follows = opt_eq_sound _ _ (refused_sound _ _ link);
        key = key;
        is_sealing_key = is_key;
        verifies = verifies;
        ordered = ordered;
        leaves = leaves;
        all_there = all_there;
        has_root = has_root;
        has_head = has_head;
      }

  check_seals-before :
      (chain_id : Bytes) (ks : Keys) (hashes : SeqMap Hash) (s : SealPass)
      (scs : List SignedCheckpoint)
      → is_valid (check_seals chain_id ks hashes s scs).findings ≡ true
      → is_valid s.findings ≡ true
  unfolding check_seals seal_step
  check_seals-before chain_id ks hashes s [] h = h
  check_seals-before chain_id ks hashes s (sc ∷ scs) h =
      (is_valid-append s.findings _
        (check_seals-before chain_id ks hashes (seal_step chain_id ks hashes s sc) scs h)).0

  -- Every checkpoint is proven, each behind the one before.
  abbrev pub AllProven : Bytes → Keys → SeqMap Hash → Option Hash → List SignedCheckpoint → Type 0
  AllProven chain_id ks hashes prev [] = Unit
  AllProven chain_id ks hashes prev (sc ∷ scs) =
      Proven chain_id ks hashes prev sc
      × AllProven chain_id ks hashes (some (checkpoint_hash sc.checkpoint)) scs

  check_seals-AllProven :
      (chain_id : Bytes) (ks : Keys) (hashes : SeqMap Hash) (s : SealPass)
      (scs : List SignedCheckpoint)
      → is_valid (check_seals chain_id ks hashes s scs).findings ≡ true
      → AllProven chain_id ks hashes s.prev_cp_hash scs
  unfolding check_seals seal_step
  check_seals-AllProven chain_id ks hashes s [] h = tt
  check_seals-AllProven chain_id ks hashes s (sc ∷ scs) h =
      let s' = seal_step chain_id ks hashes s sc in
      (
        check_checkpoint_sound chain_id ks hashes s.prev_cp_hash sc
            (is_valid-append s.findings _ (check_seals-before chain_id ks hashes s' scs h)).1,
        check_seals-AllProven chain_id ks hashes s' scs h,
      )

  -- If the pass over the checkpoints finds no error, then each of them seals the chain of the pack,
  -- carries the hash of the one before and the first none, has a signature that verifies under a
  -- sealing key of the set, and has the Merkle root of the hashes at its positions, none missing.
  pub check_seals_sound :
      (chain_id : Bytes) (ks : Keys) (hashes : SeqMap Hash) (scs : List SignedCheckpoint)
      → is_valid (check_seals chain_id ks hashes seal_start scs).findings ≡ true
      → AllProven chain_id ks hashes none scs
  check_seals_sound chain_id ks hashes scs h =
      check_seals-AllProven chain_id ks hashes seal_start scs h
