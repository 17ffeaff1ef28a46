-- ===== src/Audit/Checkpoint/Binding.antt =====
-- What a checkpoint commits to: its signed bytes name the checkpoint, and its root the records.
use obsign.Prelude.{
  ok, ◌≡◌, ◌⊎◌, inl, inr, refl, ap, ◌∙◌, Bytes, ℤ, Option, some, List, [], ◌∷◌, map, arith,
}
use obsign.Crypto.{Crypto, CryptoLaws}
use obsign.Audit.Hash.{Hash, Collision, digest-binding}
use obsign.Audit.Canonical.Items.{
  Item, word, signed, raw, text, maybe_raw, flat_all, eq_of_flat_all, Each, Fits,
}
use obsign.Audit.Canonical.Writes.{flat_laws}
use obsign.Audit.Merkle.{merkle_root}
use obsign.Audit.Merkle.Binding.{merkle_root-binding}
use obsign.Audit.Record.{Record, record_hash}
use obsign.Audit.Record.Binding.{IsEncodable, record_hash-binding}
use obsign.Audit.Checkpoint.{
  verify_checkpoint, sign, Checkpoint, checkpoint_bytes, signing_bytes, seal_interval,
}
use obsign.Audit.Chain.Refines.{seal_interval-Linked, seal_interval_sound}

abbrev items : Checkpoint → List Item
items cp =
    text cp.chain_id
    ∷ word cp.from_seq
    ∷ word cp.to_seq
    ∷ raw cp.root
    ∷ raw cp.head_hash
    ∷ maybe_raw cp.prev_checkpoint_hash
    ∷ signed cp.ts_ms
    ∷ text cp.key_id
    ∷ []

-- Every field is a value of its Rust type, and no string is 4 GiB long or longer.
abbrev pub FitsCheckpoint : Checkpoint → Type 0
FitsCheckpoint cp = Each Fits (items cp)

checkpoint_bytes-flat : (cp : Checkpoint) → checkpoint_bytes cp ≡ flat_all (items cp)
unfolding checkpoint_bytes
checkpoint_bytes-flat cp = simp flat_laws

module _ ⦃c : Crypto⦄ where
  -- Two checkpoints whose fields fit their types, with one signed message, are one checkpoint, or
  -- exhibit a collision of SHA-256.
  pub signing_bytes-binding :
      (a b : Checkpoint)
      → FitsCheckpoint a
      → FitsCheckpoint b
      → signing_bytes a ≡ signing_bytes b
      → (a ≡ b) ⊎ Collision
  unfolding signing_bytes
  signing_bytes-binding a b fa fb e =
      elim (digest-binding 4 4 (checkpoint_bytes a) (checkpoint_bytes b) e) [
        | inl p ↦
            let same : flat_all (items a) ≡ flat_all (items b) =
              cc (p, checkpoint_bytes-flat a, checkpoint_bytes-flat b) in
            let fields = eq_of_flat_all (items a) (items b) (omega arith) fa fb same in
            inl (ground (arith, fields))
        | inr x ↦ inr x
      ]

  -- A checkpoint signed with a key verifies under the public key of it.
  pub verify_checkpoint-sign :
      (l : CryptoLaws c) (cp : Checkpoint) (key : Bytes)
      → verify_checkpoint (sign cp key) (c.ed25519_public key) ≡ ok tt
  unfolding verify_checkpoint sign
  verify_checkpoint-sign l cp key =
      let m = signing_bytes cp in
      ground (
        arith,
        l.hex_decode-hex_encode (c.ed25519_sign key m),
        l.length-ed25519_sign key m,
        l.verify-sign key m,
      )

  -- Encodable records with one list of hashes are the same, or exhibit a collision.
  pub record_hashes-binding :
      (rs ss : List Record)
      → Each IsEncodable rs
      → Each IsEncodable ss
      → map record_hash rs ≡ map record_hash ss
      → (rs ≡ ss) ⊎ Collision
  record_hashes-binding [] [] hr hs e = inl refl
  record_hashes-binding [] (s ∷ ss) hr hs e = absurd cc
  record_hashes-binding (r ∷ rs) [] hr hs e = absurd cc
  record_hashes-binding (r ∷ rs) (s ∷ ss) hr hs e = elim (record_hash-binding r s hr.0 hs.0 cc) [
    | inr x ↦ inr x
    | inl p ↦ elim (record_hashes-binding rs ss hr.1 hs.1 cc) [
      | inr x ↦ inr x
      | inl q ↦ inl (cc (p, q))
    ]
  ]

  sealed_root :
      (chain_id : Bytes) (rs : List Record) (p : Option Hash) (t : ℤ) (k : Bytes) {cp : Checkpoint}
      → seal_interval chain_id rs p t k ≡ ok cp
      → merkle_root (map record_hash rs) ≡ some cp.root
  sealed_root chain_id [] p t k {cp} e = absurd (unfold seal_interval in cc e)
  sealed_root chain_id (r ∷ rs) p t k {cp} e =
      let (root, found, sealed) =
        seal_interval-Linked chain_id r rs p t k (seal_interval_sound chain_id r rs p t k e) in
      found ∙ ground (arith, e, sealed)

  -- Two intervals of encodable records that `seal_interval` seals with one root hold the same
  -- records, whatever else the two calls were given, or exhibit a collision of SHA-256.
  pub seal_interval-binding :
      (l : CryptoLaws c) (i j : Bytes) (rs ss : List Record) (p q : Option Hash) (t u : ℤ)
      (k m : Bytes) {a b : Checkpoint}
      → Each IsEncodable rs
      → Each IsEncodable ss
      → seal_interval i rs p t k ≡ ok a
      → seal_interval j ss q u m ≡ ok b
      → a.root ≡ b.root
      → (rs ≡ ss) ⊎ Collision
  seal_interval-binding l i j rs ss p q t u k m hr hs ea eb e =
      elim (merkle_root-binding l (map record_hash rs) (map record_hash ss)
        (sealed_root i rs p t k ea ∙ ap some e) (sealed_root j ss q u m eb)) [
          | inl same ↦ record_hashes-binding rs ss hr hs same
          | inr x ↦ inr x
        ]
