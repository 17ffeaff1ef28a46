-- ===== src/Audit/Record/Binding.antt =====
-- The hash of an understood record names the record.
use obsign.Prelude.{◌≡◌, ◌⊎◌, inl, inr, append-nil, true, sym, ◌∙◌, List, [], ◌∷◌, ◌++◌, arith}
use obsign.Crypto.{Crypto, CryptoLaws}
use obsign.Audit.Hash.{Collision, IsHash, digest-binding, digest-IsHash}
use obsign.Audit.Canonical.Items.{
  Item, byte, word, signed, raw, text, maybe_text, flat_all, flat_all-injective, Each, Fits,
}
use obsign.Audit.Canonical.Writes.{flat_laws}
use obsign.Audit.Payload.{tag, is_understood}
use obsign.Audit.Payload.Items.{fields, FitsPayload, encode-flat}
use obsign.Audit.Payload.Binding.{payload-injective}
use obsign.Audit.Record.{Record, record_bytes, record_hash}

abbrev envelope : Record → List Item
envelope r =
    word r.seq
    ∷ signed r.ts_ms
    ∷ raw r.prev_hash
    ∷ text r.id
    ∷ maybe_text r.parent_id
    ∷ text r.session_id
    ∷ []

-- Every field is a value of its Rust type, no string is 4 GiB long or longer, and the payload is of
-- a type that the build knows.
pub record IsEncodable (r : Record) : Type 0 where
  pub fits_envelope : Each Fits (envelope r)
  pub fits_payload : FitsPayload r.payload
  pub understood : is_understood r.payload ≡ true

record_bytes-flat :
    (r : Record)
    → is_understood r.payload ≡ true
    → record_bytes r ≡ flat_all (envelope r) ++ (flat_all (byte (tag r.payload) ∷ fields r.payload))
unfolding record_bytes
record_bytes-flat r h = encode-flat r.payload _ h ∙ simp flat_laws

-- Two encodable records with one encoding are one record.
pub record_bytes-injective :
    (r s : Record) → IsEncodable r → IsEncodable s → record_bytes r ≡ record_bytes s → r ≡ s
record_bytes-injective r s hr hs e =
    let outer =
      flat_all-injective (envelope r) (envelope s) _ _ (omega arith) hr.fits_envelope
        hs.fits_envelope
        (sym (record_bytes-flat r hr.understood) ∙ e ∙ record_bytes-flat s hs.understood) in
    let inner =
      payload-injective r.payload s.payload {r = []} {s = []} hr.understood hr.fits_payload
        hs.fits_payload (append-nil _ ∙ outer.1 ∙ sym (append-nil _)) in
    ground arith

module _ ⦃c : Crypto⦄ where
  -- Two encodable records with one hash are one record, or exhibit a collision of SHA-256.
  pub record_hash-binding :
      (r s : Record)
      → IsEncodable r
      → IsEncodable s
      → record_hash r ≡ record_hash s
      → (r ≡ s) ⊎ Collision
  unfolding record_hash
  record_hash-binding r s hr hs e = elim (digest-binding 1 1 (record_bytes r) (record_bytes s) e) [
    | inl p ↦ inl (record_bytes-injective r s hr hs cc)
    | inr x ↦ inr x
  ]

  pub record_hash-IsHash : (l : CryptoLaws c) (r : Record) → IsHash (record_hash r)
  record_hash-IsHash l r = unfold record_hash in digest-IsHash l 1 (record_bytes r)
