-- ===== src/Audit/Merkle/Binding.antt =====
-- A root names the batch it was computed from: the root is the digest of a tree whose leaves, in
-- order, are the batch, and the digest of a tree names the tree.
use obsign.Prelude.{
  ℕ, zero, suc, ◌≤◌, ◌≡◌, ◌⊎◌, inl, inr, refl, ◌∙◌, ap, sym, Option, none, some, List, [], ◌∷◌,
  ◌++◌, ◌↔◌, map, append-nil, append_assoc, length, append-injective, arith,
}
use obsign.Crypto.{Crypto, CryptoLaws}
use obsign.Audit.Hash.{Hash, IsHash, Collision, digest-binding, digest-IsHash}
use obsign.Audit.Merkle.{leaf_hash, node_hash, next_level, climb, merkle_root}

data Tree : Type 0 where
  leaf : Hash → Tree
  node : Tree → Tree → Tree

fringe : Tree → List Hash
fringe (leaf h) = h ∷ []
fringe (node l r) = fringe l ++ fringe r

fringes : List Tree → List Hash
fringes [] = []
fringes (t ∷ ts) = fringe t ++ fringes ts

join_pairs : List Tree → List Tree
join_pairs [] = []
join_pairs (a ∷ []) = a ∷ []
join_pairs (a ∷ b ∷ rest) = node a b ∷ join_pairs rest

fringes-join_pairs : (ts : List Tree) → fringes (join_pairs ts) ≡ fringes ts
unfolding join_pairs fringes fringe
fringes-join_pairs [] = refl
fringes-join_pairs (a ∷ []) = refl
fringes-join_pairs (a ∷ b ∷ rest) = simp (fringes-join_pairs rest, append_assoc)

length-join_pairs : (ts : List Tree) → length (join_pairs ts) ≤ length ts
unfolding join_pairs
length-join_pairs [] = omega arith
length-join_pairs (a ∷ []) = omega arith
length-join_pairs (a ∷ b ∷ rest) = omega (arith, length-join_pairs rest)

fringes-map-leaf : (hs : List Hash) → fringes (map leaf hs) ≡ hs
unfolding fringes fringe
fringes-map-leaf [] = refl
fringes-map-leaf (h ∷ hs) = ap (◌∷◌ h) (fringes-map-leaf hs)

length-map-leaf : (hs : List Hash) → length (map leaf hs) ≡ length hs
length-map-leaf [] = refl
length-map-leaf (h ∷ hs) = ap suc (length-map-leaf hs)

module _ ⦃c : Crypto⦄ where
  tree_hash : Tree → Hash
  tree_hash (leaf h) = leaf_hash h
  tree_hash (node l r) = node_hash (tree_hash l) (tree_hash r)

  next_level-map : (ts : List Tree) → next_level (map tree_hash ts) ≡ map tree_hash (join_pairs ts)
  unfolding next_level join_pairs tree_hash
  next_level-map [] = refl
  next_level-map (a ∷ []) = refl
  next_level-map (a ∷ b ∷ rest) =
      ap (◌∷◌ (node_hash (tree_hash a) (tree_hash b))) (next_level-map rest)

  map-leaf_hash : (hs : List Hash) → map leaf_hash hs ≡ map tree_hash (map leaf hs)
  unfolding tree_hash
  map-leaf_hash [] = refl
  map-leaf_hash (h ∷ hs) = ap (◌∷◌ (leaf_hash h)) (map-leaf_hash hs)

  -- What the loop returns from a level: the digest of a tree with the level's leaves.
  record RootOf (o : Option Hash) (leaves : List Hash) : Type 0 where
    tree : Tree
    is_root : o ≡ some (tree_hash tree)
    has_leaves : fringe tree ≡ leaves

  climb-RootOf :
      (fuel : ℕ) (t : Tree) (ts : List Tree)
      → length (t ∷ ts) ≤ fuel
      → RootOf (climb fuel (map tree_hash (t ∷ ts))) (fringes (t ∷ ts))
  unfolding climb fringes fringe tree_hash
  climb-RootOf zero t ts h = absurd (omega arith)
  climb-RootOf (suc fuel) t [] h = record {
    tree = t;
    is_root = refl;
    has_leaves = sym (append-nil (fringe t));
  }
  climb-RootOf (suc fuel) t (u ∷ ts) h =
      let r = climb-RootOf fuel (node t u) (join_pairs ts) (omega (arith, length-join_pairs ts)) in
      record {
        tree = r.tree;
        is_root = rw (next_level-map ts) r.is_root;
        has_leaves = r.has_leaves ∙ rw (fringes-join_pairs ts) (append_assoc (fringe t) _ _);
      }

  merkle_root-RootOf : (h : Hash) (hs : List Hash) → RootOf (merkle_root (h ∷ hs)) (h ∷ hs)
  unfolding merkle_root tree_hash fringes fringe
  merkle_root-RootOf h hs =
      let r =
        climb-RootOf (length (h ∷ hs)) (leaf h) (map leaf hs) (omega (arith, length-map-leaf hs)) in
      record {
        tree = r.tree;
        is_root = rw (map-leaf_hash hs) r.is_root;
        has_leaves = r.has_leaves ∙ fringes-map-leaf (h ∷ hs);
      }

  module _ (l : CryptoLaws c) where
    leaf_hash-binding : (a b : Hash) → leaf_hash a ≡ leaf_hash b → (a ≡ b) ⊎ Collision
    unfolding leaf_hash
    leaf_hash-binding a b e = elim (digest-binding 2 2 a b e) [ inl p ↦ inl cc | inr x ↦ inr x ]

    leaf_node-binding : (a b d : Hash) → leaf_hash a ≡ node_hash b d → Collision
    unfolding leaf_hash node_hash
    leaf_node-binding a b d e = elim (digest-binding 2 3 a (b ++ d) e) [
      | inl p ↦ absurd (ground arith)
      | inr x ↦ x
    ]

    node_hash-binding :
        (a b d e : Hash)
        → IsHash a
        → IsHash d
        → node_hash a b ≡ node_hash d e
        → ((a ≡ d) × (b ≡ e)) ⊎ Collision
    unfolding node_hash
    node_hash-binding a b d e ha hd h = elim (digest-binding 3 3 (a ++ b) (d ++ e) h) [
      | inl p ↦ inl (append-injective a d (ha ∙ sym hd) cc)
      | inr x ↦ inr x
    ]

    tree_hash-IsHash : (t : Tree) → IsHash (tree_hash t)
    unfolding tree_hash leaf_hash node_hash
    tree_hash-IsHash (leaf h) = digest-IsHash l _ _
    tree_hash-IsHash (node a b) = digest-IsHash l _ _

    tree_hash-binding : (t u : Tree) → tree_hash t ≡ tree_hash u → (t ≡ u) ⊎ Collision
    unfolding tree_hash
    tree_hash-binding (leaf a) (leaf b) e = elim (leaf_hash-binding a b e) [
      | inl p ↦ inl (ap leaf p)
      | inr x ↦ inr x
    ]
    tree_hash-binding (leaf a) (node b d) e = inr (leaf_node-binding a _ _ e)
    tree_hash-binding (node b d) (leaf a) e = inr (leaf_node-binding a _ _ (sym e))
    tree_hash-binding (node a b) (node d f) e =
        elim (node_hash-binding _ _ _ _ (tree_hash-IsHash a) (tree_hash-IsHash d) e) [
          | inr x ↦ inr x
          | inl (p, q) ↦ elim (tree_hash-binding a d p) [
            | inr x ↦ inr x
            | inl left ↦ elim (tree_hash-binding b f q) [ inr x ↦ inr x | inl right ↦ inl cc ]
          ]
        ]

    -- Two batches with one root are one batch, whatever their sizes, or exhibit two inputs on
    -- which SHA-256 collides.
    pub merkle_root-binding :
        (xs ys : List Hash) {root : Hash}
        → merkle_root xs ≡ some root
        → merkle_root ys ≡ some root
        → (xs ≡ ys) ⊎ Collision
    unfolding fringe merkle_root
    merkle_root-binding [] ys e f = absurd cc
    merkle_root-binding (x ∷ xs) [] e f = absurd cc
    merkle_root-binding (x ∷ xs) (y ∷ ys) e f =
        let s = merkle_root-RootOf x xs in
        let t = merkle_root-RootOf y ys in
        let same : tree_hash s.tree ≡ tree_hash t.tree = cc (s.is_root, t.is_root, e, f) in
        elim (tree_hash-binding s.tree t.tree same) [
          | inr collision ↦ inr collision
          | inl p ↦ inl (sym s.has_leaves ∙ ap fringe p ∙ t.has_leaves)
        ]

  pub merkle_root-exists :
      (h : Hash) (hs : List Hash) → (root : Hash) × (merkle_root (h ∷ hs) ≡ some root)
  merkle_root-exists h hs = let r = merkle_root-RootOf h hs in (tree_hash r.tree, r.is_root)

  -- Every batch but the empty one has a root: the loop ends within its fuel.
  pub merkle_root-eq-none_iff : (xs : List Hash) → (merkle_root xs ≡ none) ↔ (xs ≡ [])
  merkle_root-eq-none_iff [] = (λ _. refl, λ _. unfold merkle_root in refl)
  merkle_root-eq-none_iff (x ∷ xs) =
      let r = merkle_root-RootOf x xs in (λ e. absurd (cc (e, r.is_root)), λ e. absurd cc)
