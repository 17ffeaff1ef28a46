-- ===== src/Audit/Evidence/ChainSound.antt =====
-- What the pass over the records has checked where it finds no error.
use obsign.Prelude.{
  ℕ, ◌≡◌, ◌≢◌, ◌==◌, codes, ◌⊎◌, inl, inr, refl, ap, sym, ◌∙◌, Bool, true, false, not, ◌&&◌, Option,
  none, some, List, [], ◌∷◌, map, arith, bytes_eq_iff, ==_iff, if◌then◌else◌,
}
use obsign.Crypto.{Crypto}
use obsign.Audit.Hash.{Hash, genesis, is_genesis}
use obsign.Audit.Canonical.Items.{Each}
use obsign.Audit.Payload.{is_understood}
use obsign.Audit.Record.{Record, record_hash}
use obsign.Audit.Checkpoint.{next_u64}
use obsign.Audit.Origin.{SignedRecord}
use obsign.Audit.Chain.Links.{Linked}
use obsign.Audit.Evidence.{
  is_valid, ChainPass, chain_start, check_position, check_payload, chain_step, check_chain,
  error_of, warning_of,
}
use obsign.Audit.Evidence.Findings.{is_valid-append}

abbrev pub records_of : List SignedRecord → List Record
records_of srs = map (λ (sr : SignedRecord). sr.rec) srs

-- A record may head a pack: the one at position 0 on genesis, any other not on genesis.
abbrev pub Heads : Record → Type 0
Heads r = ((r.seq ≡ 0) × (r.prev_hash ≡ genesis)) ⊎ ((r.seq ≢ 0) × (r.prev_hash ≢ genesis))

check_position-next :
    (pseq : ℕ) (phash : Hash) (r : Record)
    → is_valid (check_position (some (pseq, phash)) r) ≡ true
    → (r.seq ≡ next_u64 pseq) × (r.prev_hash ≡ phash)
unfolding is_valid check_position
check_position-next pseq phash r h = ground (arith, h, bytes_eq_iff r.prev_hash phash)

heads_sound :
    (at_zero on_genesis : Bool)
    → is_valid (
        if not at_zero && on_genesis
        then error_of (codes "inconsistent_anchor")
        else if not at_zero
        then warning_of (codes "partial_chain")
        else if not on_genesis
        then error_of (codes "invalid_genesis")
        else [])
      ≡ true
    → ((at_zero ≡ true) × (on_genesis ≡ true)) ⊎ ((at_zero ≡ false) × (on_genesis ≡ false))
unfolding is_valid
heads_sound true true h = inl (refl, refl)
heads_sound true false h = absurd cc
heads_sound false true h = absurd cc
heads_sound false false h = inr (refl, refl)

check_position-Heads : (r : Record) → is_valid (check_position none r) ≡ true → Heads r
unfolding check_position
check_position-Heads r h = elim (heads_sound (r.seq == 0) (is_genesis r.prev_hash) h) [
  | inl (z, g) ↦ inl ((==_iff r.seq 0).0 z, (bytes_eq_iff r.prev_hash genesis).0 g)
  | inr (z, g) ↦ inr (
    (λ e. absurd (cc (z, (==_iff r.seq 0).1 e))),
    (λ e. absurd (cc (g, (bytes_eq_iff r.prev_hash genesis).1 e))),
  )
]

check_payload_sound :
    (r : Record) → is_valid (check_payload r) ≡ true → is_understood r.payload ≡ true
unfolding is_valid check_payload
check_payload_sound r h = ground (arith, h)

module _ ⦃c : Crypto⦄ where
  -- A turn that leaves no error behind started with none and found none.
  chain_step_sound :
      (s : ChainPass) (r : Record)
      → is_valid (chain_step s r).findings ≡ true
      → (is_valid s.findings ≡ true)
        × (is_understood r.payload ≡ true)
        × (is_valid (check_position s.prev r) ≡ true)
  unfolding chain_step
  chain_step_sound s r h =
      let (before, found) = is_valid-append s.findings _ h in
      let (payload, rest) = is_valid-append (check_payload r) _ found in
      let (position, duplicate) = is_valid-append (check_position s.prev r) _ rest in
      (before, check_payload_sound r payload, position)

  check_chain-before :
      (s : ChainPass) (srs : List SignedRecord)
      → is_valid (check_chain s srs).findings ≡ true
      → is_valid s.findings ≡ true
  unfolding check_chain
  check_chain-before s [] h = h
  check_chain-before s (sr ∷ srs) h =
      (chain_step_sound s sr.rec (check_chain-before (chain_step s sr.rec) srs h)).0

  abbrev Known : List SignedRecord → Type 0
  Known srs = Each (λ (sr : SignedRecord). is_understood sr.payload ≡ true) srs

  check_chain-Linked :
      (s : ChainPass) (pseq : ℕ) (phash : Hash) (srs : List SignedRecord)
      → s.prev ≡ some (pseq, phash)
      → is_valid (check_chain s srs).findings ≡ true
      → Linked (next_u64 pseq) phash (records_of srs) × Known srs
  unfolding check_chain chain_step
  check_chain-Linked s pseq phash [] at h = (tt, tt)
  check_chain-Linked s pseq phash (sr ∷ srs) at h =
      let (before, understood, position) =
        chain_step_sound s sr.rec (check_chain-before (chain_step s sr.rec) srs h) in
      let (follows, links) =
        check_position-next pseq phash sr.rec (
          ap (λ (p : Option (ℕ × Hash)). is_valid (check_position p sr.rec)) (sym at) ∙ position) in
      let (linked, known) =
        check_chain-Linked (chain_step s sr.rec) sr.seq (record_hash sr.rec) srs refl h in
      ((follows, links, linked), (understood, known))

  -- What a pack without errors in its records is: its first record is at position 0 on genesis, or
  -- neither; each other record is at the next position, on the hash of the record before; and
  -- every payload is of a known type.
  abbrev pub IsChain : List SignedRecord → Type 0
  IsChain [] = Unit
  IsChain (sr ∷ srs) =
      Heads sr.rec
      × Linked (next_u64 sr.seq) (record_hash sr.rec) (records_of srs)
      × Known (sr ∷ srs)

  -- If the pass over the records finds no error, then the first record is at position 0 on genesis
  -- or neither, each other record is at the next position and on the hash of the record before,
  -- and every payload is of a type that the build knows.
  pub check_chain_sound :
      (srs : List SignedRecord)
      → is_valid (check_chain chain_start srs).findings ≡ true
      → IsChain srs
  unfolding check_chain chain_step
  check_chain_sound [] h = tt
  check_chain_sound (sr ∷ srs) h =
      let s = chain_step chain_start sr.rec in
      let (before, understood, position) =
        chain_step_sound chain_start sr.rec (check_chain-before s srs h) in
      let (linked, known) = check_chain-Linked s sr.seq (record_hash sr.rec) srs refl h in
      (check_position-Heads sr.rec position, linked, (understood, known))
