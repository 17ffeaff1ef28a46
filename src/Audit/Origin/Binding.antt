-- ===== src/Audit/Origin/Binding.antt =====
-- What an origin signature binds: the record, its position and its chain.
use obsign.Prelude.{ok, ◌≡◌, ◌⊎◌, inl, inr, Bytes, [], ◌∷◌, arith}
use obsign.Crypto.{Crypto, CryptoLaws}
use obsign.Audit.Hash.{Hash, Collision, digest-binding}
use obsign.Audit.Canonical.Items.{raw, text, FitsText, flat_all, eq_of_flat_all}
use obsign.Audit.Canonical.Writes.{flat_laws}
use obsign.Audit.Record.{Record, record_hash}
use obsign.Audit.Record.Binding.{IsEncodable, record_hash-binding, record_hash-IsHash}
use obsign.Audit.Origin.{origin_bytes, origin_signing_bytes, signed, verify_origin}

origin_bytes-flat : (i : Bytes) (h : Hash) → origin_bytes i h ≡ flat_all (text i ∷ raw h ∷ [])
unfolding origin_bytes
origin_bytes-flat i h = simp flat_laws

module _ ⦃c : Crypto⦄ where
  -- Two encodable records, of two chains with ids shorter than 4 GiB, with one origin message are
  -- one record of one chain, or exhibit a collision of SHA-256.
  pub origin_signing_bytes-binding :
      (l : CryptoLaws c) (i j : Bytes) (r s : Record)
      → FitsText i
      → FitsText j
      → IsEncodable r
      → IsEncodable s
      → origin_signing_bytes i (record_hash r) ≡ origin_signing_bytes j (record_hash s)
      → ((i ≡ j) × (r ≡ s)) ⊎ Collision
  unfolding origin_signing_bytes
  origin_signing_bytes-binding l i j r s fi fj hr hs e =
      elim (digest-binding 0x0a 0x0a (origin_bytes i (record_hash r))
        (origin_bytes j (record_hash s)) e) [
          | inr x ↦ inr x
          | inl p ↦
              let same : flat_all (text i ∷ raw (record_hash r) ∷ [])
                  ≡ flat_all (text j ∷ raw (record_hash s) ∷ []) =
                cc (p, origin_bytes-flat i (record_hash r), origin_bytes-flat j (record_hash s)) in
              let fields =
                eq_of_flat_all (text i ∷ raw (record_hash r) ∷ [])
                  (text j ∷ raw (record_hash s) ∷ []) (omega arith)
                  (fi, (record_hash-IsHash l r, tt)) (fj, (record_hash-IsHash l s, tt)) same in
              elim (record_hash-binding r s hr hs (cc fields)) [
                | inl rec ↦ inl (cc fields, rec)
                | inr x ↦ inr x
              ]
        ]

  -- A record signed by a key verifies under that key, in the chain that it was signed for.
  pub verify_origin-signed :
      (l : CryptoLaws c) (chain_id key_id key : Bytes) (r : Record)
      → verify_origin
          (signed r key_id (c.ed25519_sign key (origin_signing_bytes chain_id (record_hash r))))
          chain_id
          (c.ed25519_public key)
        ≡ ok tt
  unfolding verify_origin signed
  verify_origin-signed l chain_id key_id key r =
      let m = origin_signing_bytes chain_id (record_hash r) in
      ground (
        arith,
        l.hex_decode-hex_encode (c.ed25519_sign key m),
        l.length-ed25519_sign key m,
        l.verify-sign key m,
      )
