-- ===== src/Audit/Deployment/Active.antt =====
-- The active key set of a bundle: nothing is dropped, and nothing shadowed.
use obsign.Prelude.{
  ◌≡◌, refl, ap, sym, ◌∙◌, Bytes, Bool, true, false, not, some, List, [], ◌∷◌, arith, bytes_eq,
  bytes_eq_iff, ok, >>=-eq-ok, >>-eq-ok, refuse_if, Bool-cases, inl, inr,
}
use obsign.Crypto.{Crypto, CryptoLaws}
use obsign.Audit.Canonical.Items.{Each}
use obsign.Audit.Error.{Error}
use obsign.Audit.Checkpoint.{PublicKeyEntry, to_verifying_key}
use obsign.Audit.Keyring.{KeyMap, get, contains_key, insert}
use obsign.Audit.Deployment.{
  DeploymentBundle, is_origin, active_loop, active_origin_keys, deployment_format, sign_deployment,
  verify_deployment, deployment_signing_bytes,
}

refuse_if_passed : (t : Bool) (e : Error) → refuse_if t e ≡ ok tt → t ≡ false
refuse_if_passed false e h = refl
refuse_if_passed true e h = absurd cc

get-insert : (k v : Bytes) (m : KeyMap) → get k (insert k v m) ≡ some v
unfolding get
get-insert k v m = rw ((bytes_eq_iff k k).1 refl) refl

-- A new id hides no other.
get-insert-other :
    (j u k v : Bytes) (m : KeyMap)
    → contains_key j m ≡ false
    → get k m ≡ some v
    → get k (insert j u m) ≡ some v
unfolding get contains_key
get-insert-other j u k v m fresh found = elim (Bool-cases (bytes_eq j k)) [
  | inr other ↦ rw other found
  | inl same ↦
      let there : get j m ≡ some v =
        ap (λ (x : Bytes). get x m) ((bytes_eq_iff j k).0 same) ∙ found in
      absurd (ground (arith, fresh, there))
]

module _ ⦃c : Crypto⦄ where
  -- The entry is an origin key, and the map has its key under its id.
  pub record ActiveIn (m : KeyMap) (entry : PublicKeyEntry) : Type 0 where
    pub has_role : is_origin entry.role ≡ true
    pub key : Bytes
    pub is_key : to_verifying_key entry ≡ ok key
    pub listed : get entry.key_id m ≡ some key

  active_loop_sound :
      (m : KeyMap) (entries : List PublicKeyEntry) {all : KeyMap}
      → active_loop m entries ≡ ok all
      → ((k v : Bytes) → get k m ≡ some v → get k all ≡ some v) × Each (ActiveIn all) entries
  unfolding active_loop
  active_loop_sound m [] {all} h =
      let same : m ≡ all = cc in ((λ k v e. ap (get k) (sym same) ∙ e), tt)
  active_loop_sound m (entry ∷ rest) {all} h =
      let (role, h1) = >>-eq-ok _ _ h in
      let (vk, keyed, h2) = >>=-eq-ok (to_verifying_key entry) _ h1 in
      let (new_id, h3) = >>-eq-ok _ _ h2 in
      let fresh = refuse_if_passed (contains_key entry.key_id m) _ new_id in
      let is_role = refuse_if_passed (not (is_origin entry.role)) _ role in
      let (kept, later) = active_loop_sound (insert entry.key_id vk m) rest h3 in
      (
        (λ k v e. kept k v (get-insert-other entry.key_id vk k v m fresh e)),
        (
          record {
            has_role = ground (arith, is_role);
            key = vk;
            is_key = keyed;
            listed = kept entry.key_id vk (get-insert entry.key_id vk m);
          },
          later,
        ),
      )

  -- If `active_origin_keys` succeeds, then every entry of the bundle has the role origin and a usable
  -- key, and the map that it returns has that key under the id of the entry: no entry shadows
  -- another.
  pub active_origin_keys_sound :
      (b : DeploymentBundle) {all : KeyMap}
      → active_origin_keys b ≡ ok all
      → Each (ActiveIn all) b.origin_keys
  active_origin_keys_sound b h = (active_loop_sound [] b.origin_keys h).1

  -- A bundle of the known format, signed with a key, verifies under the public key of it, and the
  -- result is the bundle.
  pub verify_deployment-sign_deployment :
      (l : CryptoLaws c) (b : DeploymentBundle) (key_id key : Bytes)
      → b.format ≡ deployment_format
      → verify_deployment (sign_deployment b key_id key) (c.ed25519_public key) ≡ ok b
  unfolding verify_deployment sign_deployment
  verify_deployment-sign_deployment l b key_id key known =
      let m = deployment_signing_bytes b in
      rw
        (
          l.hex_decode-hex_encode (c.ed25519_sign key m),
          l.length-ed25519_sign key m,
          l.verify-sign key m,
          (bytes_eq_iff b.format deployment_format).1 known,
        )
        refl
