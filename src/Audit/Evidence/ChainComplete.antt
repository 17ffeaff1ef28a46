-- ===== src/Audit/Evidence/ChainComplete.antt =====
-- The pass over the records finds nothing in what a gateway writes.
use obsign.Prelude.{
  ℕ, ◌+◌, ◌<◌, ◌^◌, ◌≡◌, suc, refl, ap, sym, subst, ◌∙◌, Bytes, true, false, Option, none, some,
  List, [], ◌∷◌, map, arith, length, bytes_eq_iff, ==_iff, ltb, ◌==◌,
}
use obsign.Crypto.{Crypto}
use obsign.Audit.Hash.{Hash, genesis}
use obsign.Audit.Canonical.Items.{Each}
use obsign.Audit.Payload.{is_understood}
use obsign.Audit.Record.{Record, record_hash}
use obsign.Audit.Checkpoint.{next_u64}
use obsign.Audit.Chain.{ChainWriter, Draft, new_chain, append, append_all, next_record}
use obsign.Audit.Chain.Links.{Linked, append_all-Linked}
use obsign.Audit.Origin.{SignedRecord, unsigned}
use obsign.Audit.Evidence.{
  SeqMap, put, ChainPass, chain_start, check_payload, check_position, chain_step, check_chain,
}
use obsign.Audit.Evidence.ChainSound.{records_of}

-- Every position of the map is below `n`.
abbrev pub Below {ℓ} : {A : Type ℓ} → ℕ → SeqMap A → Type 0
Below n [] = Unit
Below n ((k, v) ∷ m) = (k < n) × Below n m

put-Below {ℓ} :
    {A : Type ℓ} (k : ℕ) (v : A) (m : SeqMap A)
    → Below k m
    → ((put k v m).1 ≡ false) × Below (suc k) (put k v m).0
unfolding put
put-Below k v [] h = (refl, (omega arith, tt))
put-Below k v ((j, u) ∷ m) h =
    let (fresh, below) = put-Below k v m h.1 in
    let later : ltb k j ≡ false = ground (arith, h) in
    let other : (j == k) ≡ false = ground (arith, h) in
    rw (later, other) (fresh, (omega (arith, h), below))

check_position_complete :
    (pseq : ℕ) (phash : Hash) (r : Record)
    → suc pseq < 2 ^ 64
    → r.seq ≡ next_u64 pseq
    → r.prev_hash ≡ phash
    → check_position (some (pseq, phash)) r ≡ []
unfolding check_position
check_position_complete pseq phash r small s p =
    ground (arith, small, s, p, bytes_eq_iff r.prev_hash phash)

check_payload_complete : (r : Record) → is_understood r.payload ≡ true → check_payload r ≡ []
unfolding check_payload
check_payload_complete r h = rw h refl

check_position-first : (r : Record) → r.seq ≡ 0 → r.prev_hash ≡ genesis → check_position none r ≡ []
unfolding check_position
check_position-first r s p = rw ((==_iff r.seq 0).1 s, (bytes_eq_iff r.prev_hash genesis).1 p) refl

module _ ⦃c : Crypto⦄ where
  abbrev Known : List SignedRecord → Type 0
  Known srs = Each (λ (sr : SignedRecord). is_understood sr.payload ≡ true) srs

  -- A turn of the loop that finds nothing.
  chain_step_quiet :
      (s : ChainPass) (r : Record)
      → s.findings ≡ []
      → is_understood r.payload ≡ true
      → check_position s.prev r ≡ []
      → Below r.seq s.records_by_seq
      → (chain_step s r).findings ≡ []
  unfolding chain_step
  chain_step_quiet s r none_yet known follows below =
      rw
        (
          none_yet,
          check_payload_complete r known,
          follows,
          (put-Below r.seq r s.records_by_seq below).0,
        )
        refl

  check_chain_quiet :
      (s : ChainPass) (pseq : ℕ) (phash : Hash) (srs : List SignedRecord)
      → s.prev ≡ some (pseq, phash)
      → s.findings ≡ []
      → Below (suc pseq) s.records_by_seq
      → pseq + length srs < 2 ^ 64
      → Linked (next_u64 pseq) phash (records_of srs)
      → Known srs
      → (check_chain s srs).findings ≡ []
  unfolding check_chain chain_step
  check_chain_quiet s pseq phash [] at none_yet below small linked known = none_yet
  check_chain_quiet s pseq phash (sr ∷ srs) at none_yet below small linked known =
      let next : sr.seq ≡ suc pseq = omega (arith, linked.0, small) in
      let fresh : Below sr.seq s.records_by_seq =
        subst (λ (n : ℕ). Below n s.records_by_seq) (sym next) below in
      let follows : check_position s.prev sr.rec ≡ [] =
        ap (λ (p : Option (ℕ × Hash)). check_position p sr.rec) at
        ∙ check_position_complete pseq phash sr.rec (omega (arith, small)) linked.0 linked.1 in
      check_chain_quiet (chain_step s sr.rec) sr.seq (record_hash sr.rec) srs refl
        (chain_step_quiet s sr.rec none_yet known.0 follows fresh)
        (put-Below sr.seq sr.rec s.records_by_seq fresh).1 (omega (arith, next, small)) linked.2
        known.1

  -- An unbroken chain of known payloads from position 0 on genesis gives no finding.
  pub check_chain_complete :
      (sr : SignedRecord) (srs : List SignedRecord)
      → sr.seq ≡ 0
      → sr.prev_hash ≡ genesis
      → Linked (next_u64 0) (record_hash sr.rec) (records_of srs)
      → Each (λ (r : SignedRecord). is_understood r.payload ≡ true) (sr ∷ srs)
      → length srs < 2 ^ 64
      → (check_chain chain_start (sr ∷ srs)).findings ≡ []
  unfolding check_chain chain_step
  check_chain_complete sr srs zero on_genesis linked known small =
      let follows : check_position none sr.rec ≡ [] = check_position-first sr.rec zero on_genesis in
      check_chain_quiet (chain_step chain_start sr.rec) sr.seq (record_hash sr.rec) srs refl
        (chain_step_quiet chain_start sr.rec refl known.0 follows tt)
        (put-Below sr.seq sr.rec [] tt).1 (omega (arith, zero, small))
        (subst (λ (n : ℕ). Linked (next_u64 n) (record_hash sr.rec) (records_of srs)) (sym zero)
          linked)
        known.1

  abbrev bare : List Record → List SignedRecord
  bare rs = map unsigned rs

  records_of-bare : (rs : List Record) → records_of (bare rs) ≡ rs
  unfolding unsigned
  records_of-bare [] = refl
  records_of-bare (r ∷ rs) = ap (◌∷◌ r) (records_of-bare rs)

  abbrev pub KnownDrafts : List Draft → Type 0
  KnownDrafts ds = Each (λ (d : Draft). is_understood d.payload ≡ true) ds

  append_all-Known :
      (w : ChainWriter) (ds : List Draft)
      → KnownDrafts ds
      → Known (bare (append_all w ds).1) × (length (bare (append_all w ds).1) ≡ length ds)
  unfolding append_all unsigned
  append_all-Known w [] h = (tt, refl)
  append_all-Known w (d ∷ ds) h =
      let (known, size) = append_all-Known (append w d).0 ds h.1 in ((h.0, known), ap suc size)

  -- The records that a new writer makes from fewer than 2^64 drafts of known payload types, put in a
  -- pack without signatures, give no finding in the pass over the records.
  pub check_chain-append_all :
      (chain_id : Bytes) (ds : List Draft)
      → KnownDrafts ds
      → length ds < 2 ^ 64
      → (check_chain chain_start (map unsigned (append_all (new_chain chain_id) ds).1)).findings
        ≡ []
  unfolding append_all unsigned
  check_chain-append_all chain_id [] h small = unfold check_chain in refl
  check_chain-append_all chain_id (d ∷ ds) h small =
      let w = (append (new_chain chain_id) d).0 in
      let (known, size) = append_all-Known (new_chain chain_id) (d ∷ ds) h in
      let linked = append_all-Linked w ds in
      check_chain_complete (unsigned (next_record (new_chain chain_id) d))
        (bare (append_all w ds).1) refl refl
        (subst
          (λ (rs : List Record).
            Linked (next_u64 0) (record_hash (next_record (new_chain chain_id) d)) rs)
          (sym (records_of-bare (append_all w ds).1)) linked)
        known (omega (arith, size, small))
