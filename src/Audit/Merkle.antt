-- ===== src/Audit/Merkle.antt =====
-- crates/obsign-audit-core/src/merkle.rs: the Merkle root of a batch of record hashes.
pub mod Binding
use obsign.Prelude.{ℕ, zero, suc, Option, none, some, List, [], ◌∷◌, map, length}
use obsign.Crypto.{Crypto}
use obsign.Audit.Hash.{Hash, digest, domain_merkle_leaf, domain_merkle_node}
use obsign.Audit.Canonical.{new, ◌▸◌, hash, finish}

module _ ⦃c : Crypto⦄ where
  unfoldable pub leaf_hash : Hash → Hash
  unfolding hash
  leaf_hash record_hash = let e = new ▸ hash record_hash in digest domain_merkle_leaf (finish e)

  unfoldable pub node_hash : Hash → Hash → Hash
  unfolding hash
  node_hash left right =
      let e = new ▸ hash left ▸ hash right in digest domain_merkle_node (finish e)

  -- The inner loop: neighbours are joined, and an odd last element is promoted as it is.
  unfoldable pub next_level : List Hash → List Hash
  next_level [] = []
  next_level (a ∷ []) = a ∷ []
  next_level (a ∷ b ∷ rest) = node_hash a b ∷ next_level rest

  -- `while level.len() > 1`; `none` means that the fuel ran out, or `level[0]` on nothing.
  unfoldable pub climb : ℕ → List Hash → Option Hash
  unfolding next_level
  climb zero level = none
  climb (suc fuel) [] = none
  climb (suc fuel) (a ∷ []) = some a
  climb (suc fuel) (a ∷ b ∷ rest) = climb fuel (next_level (a ∷ b ∷ rest))

  -- The level halves, so that its length is fuel enough.
  unfoldable pub merkle_root : List Hash → Option Hash
  unfolding leaf_hash climb
  merkle_root [] = none
  merkle_root (leaf ∷ leaves) = climb (length (leaf ∷ leaves)) (map leaf_hash (leaf ∷ leaves))
