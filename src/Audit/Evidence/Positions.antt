-- ===== src/Audit/Evidence/Positions.antt =====
-- The hashes that the pass over the records collects from linked records, by position.
use obsign.Prelude.{
  ℕ, ◌+◌, ◌<◌, ◌^◌, ◌≡◌, suc, refl, ap, sym, ◌∙◌, subst, false, some, List, [], ◌∷◌, ◌++◌,
  append-nil, append_assoc, map, arith, length, ==_refl, ltb, ◌==◌,
}
use obsign.Crypto.{Crypto}
use obsign.Audit.Hash.{Hash}
use obsign.Audit.Record.{Record, record_hash}
use obsign.Audit.Checkpoint.{next_u64}
use obsign.Audit.Chain.Links.{Linked, last_link}
use obsign.Audit.Origin.{SignedRecord}
use obsign.Audit.Evidence.{SeqMap, put, find, ChainPass, chain_step, check_chain}
use obsign.Audit.Evidence.Seals.{leaves_from}
use obsign.Audit.Evidence.ChainSound.{records_of}
use obsign.Audit.Evidence.ChainComplete.{Below}

-- Above the other positions, an entry goes to the end.
put-end {ℓ} :
    {A : Type ℓ} (k : ℕ) (v : A) (m : SeqMap A) → Below k m → (put k v m).0 ≡ m ++ (k, v) ∷ []
unfolding put
put-end k v [] h = refl
put-end k v ((j, u) ∷ m) h =
    let later : ltb k j ≡ false = ground (arith, h) in
    let other : (j == k) ≡ false = ground (arith, h) in
    rw (later, other) (ap (◌∷◌ (j, u)) (put-end k v m h.1))

find-end {ℓ} :
    {A : Type ℓ} (k : ℕ) (v : A) (m rest : SeqMap A)
    → Below k m
    → find k (m ++ (k, v) ∷ rest) ≡ some v
unfolding find
find-end k v [] rest h = rw (==_refl k) refl
find-end k v ((j, u) ∷ m) rest h =
    let other : (j == k) ≡ false = ground (arith, h) in rw other (find-end k v m rest h.1)

Below-end {ℓ} :
    {A : Type ℓ} (k : ℕ) (v : A) (m : SeqMap A) → Below k m → Below (suc k) (m ++ (k, v) ∷ [])
Below-end k v [] h = (omega arith, tt)
Below-end k v ((j, u) ∷ m) h = (omega (arith, h), Below-end k v m h.1)

pub length-records_of : (srs : List SignedRecord) → length (records_of srs) ≡ length srs
length-records_of [] = refl
length-records_of (sr ∷ srs) = ap suc (length-records_of srs)

module _ ⦃c : Crypto⦄ where
  -- The hashes of records at consecutive positions.
  abbrev pub at_positions : ℕ → List Record → SeqMap Hash
  at_positions n [] = []
  at_positions n (r ∷ rs) = (n, record_hash r) ∷ at_positions (suc n) rs

  pub check_chain-at_positions :
      (s : ChainPass) (n : ℕ) (phash : Hash) (srs : List SignedRecord)
      → Below n s.hash_by_seq
      → n + length srs < 2 ^ 64
      → Linked n phash (records_of srs)
      → (check_chain s srs).hash_by_seq ≡ s.hash_by_seq ++ at_positions n (records_of srs)
  unfolding check_chain chain_step
  check_chain-at_positions s n phash [] below small linked = sym (append-nil s.hash_by_seq)
  check_chain-at_positions s n phash (sr ∷ srs) below small linked =
      let h = record_hash sr.rec in
      let stored : (chain_step s sr.rec).hash_by_seq ≡ s.hash_by_seq ++ (n, h) ∷ [] =
        ap (λ (k : ℕ). (put k h s.hash_by_seq).0) linked.0 ∙ put-end n h s.hash_by_seq below in
      let next : next_u64 sr.seq ≡ suc n = omega (arith, linked.0, small) in
      check_chain-at_positions (chain_step s sr.rec) (suc n) h srs
        (subst (λ (m : SeqMap Hash). Below (suc n) m) (sym stored)
          (Below-end n h s.hash_by_seq below))
        (omega (arith, small)) (subst (λ (k : ℕ). Linked k h (records_of srs)) next linked.2)
      ∙ ap (λ (m : SeqMap Hash). m ++ at_positions (suc n) (records_of srs)) stored
      ∙ append_assoc s.hash_by_seq ((n, h) ∷ []) (at_positions (suc n) (records_of srs))

  pub leaves_from-at_positions :
      (n : ℕ) (rs : List Record) (m : SeqMap Hash)
      → Below n m
      → leaves_from (length rs) n (m ++ at_positions n rs) ≡ (map record_hash rs, [])
  unfolding leaves_from
  leaves_from-at_positions n [] m below = refl
  leaves_from-at_positions n (r ∷ rs) m below =
      let h = record_hash r in
      let later : leaves_from (length rs) (suc n) (m ++ at_positions n (r ∷ rs))
          ≡ (map record_hash rs, []) =
        ap (leaves_from (length rs) (suc n))
          (sym (append_assoc m ((n, h) ∷ []) (at_positions (suc n) rs)))
        ∙ leaves_from-at_positions (suc n) rs (m ++ (n, h) ∷ []) (Below-end n h m below) in
      rw (find-end n h m (at_positions (suc n) rs) below, later, leaves_from) refl

  -- The last position and hash of linked records, among the hashes at their positions.
  pub last_link-at_positions :
      (n : ℕ) (r : Record) (rs : List Record) (m : SeqMap Hash)
      → r.seq ≡ n
      → n + length rs < 2 ^ 64
      → Linked (next_u64 r.seq) (record_hash r) rs
      → Below n m
      → ((last_link r.seq (record_hash r) rs).0 ≡ n + length rs)
        × (find (last_link r.seq (record_hash r) rs).0 (m ++ at_positions n (r ∷ rs))
            ≡ some (last_link r.seq (record_hash r) rs).1)
  last_link-at_positions n r [] m e small linked below = (
    omega (arith, e),
    ap (λ (k : ℕ). find k (m ++ at_positions n (r ∷ []))) e ∙ find-end n (record_hash r) m [] below,
  )
  last_link-at_positions n r (q ∷ rs) m e small linked below =
      let h = record_hash r in
      let next : q.seq ≡ suc n = omega (arith, linked.0, e, small) in
      let (position, found) =
        last_link-at_positions (suc n) q rs (m ++ (n, h) ∷ []) next (omega (arith, small)) linked.2
          (Below-end n h m below) in
      (
        omega (arith, position),
        ap (find (last_link q.seq (record_hash q) rs).0)
              (sym (append_assoc m ((n, h) ∷ []) (at_positions (suc n) (q ∷ rs))))
            ∙ found,
      )
