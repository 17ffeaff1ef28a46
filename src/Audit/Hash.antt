-- ===== src/Audit/Hash.antt =====
-- crates/obsign-audit-core/src/hash.rs: digests with domain separation.
use obsign.Prelude.{
  ℕ, Bytes, Bool, ◌≡◌, ◌≢◌, ◌⊎◌, inl, inr, ◌∷◌, length, replicate, bytes_eq, Bytes-discrete,
}
use obsign.Crypto.{Crypto, CryptoLaws}

-- A digest of 32 bytes.
abbrev pub Hash : Type 0
Hash = Bytes

-- Whether a byte string has the length of a digest.
abbrev pub IsHash : Bytes → Type 0
IsHash h = length h ≡ 32

abbrev pub genesis : Hash
genesis = replicate 32 0

abbrev pub is_genesis : Hash → Bool
is_genesis h = bytes_eq h genesis

abbrev pub domain_record : ℕ
domain_record = 0x01

abbrev pub domain_merkle_leaf : ℕ
domain_merkle_leaf = 0x02

abbrev pub domain_merkle_node : ℕ
domain_merkle_node = 0x03

abbrev pub domain_checkpoint : ℕ
domain_checkpoint = 0x04

abbrev pub domain_policy_bundle : ℕ
domain_policy_bundle = 0x05

abbrev pub domain_origin_record : ℕ
domain_origin_record = 0x0a

abbrev pub domain_deployment_bundle : ℕ
domain_deployment_bundle = 0x0b

abbrev pub domain_session_cert : ℕ
domain_session_cert = 0x0c

abbrev pub domain_content : ℕ
domain_content = 0xf0

module _ ⦃c : Crypto⦄ where
  unfoldable pub digest : ℕ → Bytes → Hash
  digest domain body = c.sha256 (domain ∷ body)

  -- Two different inputs of SHA-256 with one digest.
  pub record Collision : Type 0 where
    pub one : Bytes
    pub other : Bytes
    pub differ : one ≢ other
    pub collide : c.sha256 one ≡ c.sha256 other

  pub sha256-binding : (a b : Bytes) → c.sha256 a ≡ c.sha256 b → (a ≡ b) ⊎ Collision
  sha256-binding a b e = elim (Bytes-discrete a b) [
    | yes same ↦ inl same
    | no differ ↦ inr (record { one = a; other = b; differ = differ; collide = e })
  ]

  -- Equal digests have one domain and one body, unless SHA-256 collides.
  pub digest-binding :
      (d e : ℕ) (a b : Bytes) → digest d a ≡ digest e b → ((d ∷ a) ≡ (e ∷ b)) ⊎ Collision
  unfolding digest
  digest-binding d e a b h = sha256-binding (d ∷ a) (e ∷ b) h

  pub digest-IsHash : (l : CryptoLaws c) (d : ℕ) (a : Bytes) → IsHash (digest d a)
  unfolding digest
  digest-IsHash l d a = l.length-sha256 (d ∷ a)
