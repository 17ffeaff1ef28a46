-- ===== src/Audit/Deployment.antt =====
-- crates/obsign-audit-core/src/deployment.rs: the ops-signed set of active origin keys, with the
-- attestation records of attestation.rs that it carries.
pub mod Active
use obsign.Prelude.{
  ℕ, Bytes, codes, Bool, true, false, not, Option, none, some, List, [], ◌∷◌, length, bytes_eq, ok,
  err, ◌>>=◌, ◌>>◌, refuse_if, ok_or, if◌then◌else◌,
}
use obsign.Crypto.{Crypto, try_into}
use obsign.Audit.Hash.{digest, domain_deployment_bundle}
use obsign.Audit.Canonical.{Encoder, new, ◌▸◌, u64, str, opt_str, finish}
use obsign.Audit.Json.{bytes_le}
use obsign.Audit.Error.{
  Result, bad_deployment_signature, unknown_deployment_format, non_origin_key_in_bundle,
  duplicate_bundle_key,
}
use obsign.Audit.Checkpoint.{PublicKeyEntry, KeyRole, seal, origin, ops, to_verifying_key}
use obsign.Audit.Keyring.{KeyMap, contains_key, insert}

pub record PcrExpectation : Type 0 where
  pub index : ℕ
  pub digest_hex : Bytes

pub record KeyAttestation : Type 0 where
  pub key_id : Bytes
  pub ak_pub : Bytes
  pub ek_cert : Bytes
  pub certify : Bytes
  pub quote : Bytes
  pub expected_pcrs : List PcrExpectation
  pub identity_pub : Option Bytes

pub record DeploymentBundle : Type 0 where
  pub format : Bytes
  pub version : Bytes
  pub origin_keys : List PublicKeyEntry
  pub attestations : List KeyAttestation

pub record SignedDeploymentBundle : Type 0 where
  pub bundle : DeploymentBundle
  pub key_id : Bytes
  pub signature : Bytes

abbrev pub deployment_format : Bytes
deployment_format = codes "obsign-deployment/1"

abbrev role_str : KeyRole → Bytes
role_str seal = codes "seal"
role_str origin = codes "origin"
role_str ops = codes "ops"

abbrev pub is_origin : KeyRole → Bool
is_origin origin = true
is_origin _ = false

-- `sort_by` of the `key_id`s, which is stable.
unfoldable pub insert_by {ℓ} : {A : Type ℓ} → (A → Bytes) → A → List A → List A
insert_by id a [] = a ∷ []
insert_by id a (b ∷ bs) =
    let rest = insert_by id a bs in if bytes_le (id a) (id b) then a ∷ b ∷ bs else b ∷ rest

unfoldable pub sort_by {ℓ} : {A : Type ℓ} → (A → Bytes) → List A → List A
sort_by id [] = []
sort_by id (a ∷ xs) = insert_by id a (sort_by id xs)

unfoldable pub encode_keys : List PublicKeyEntry → Encoder → Encoder
encode_keys [] e = e
encode_keys (k ∷ ks) e =
    encode_keys ks (e ▸ str k.key_id ▸ str k.algo ▸ str k.public_key ▸ str (role_str k.role))

unfoldable pub encode_pcrs : List PcrExpectation → Encoder → Encoder
encode_pcrs [] e = e
encode_pcrs (p ∷ ps) e = encode_pcrs ps (e ▸ u64 p.index ▸ str p.digest_hex)

unfoldable pub encode_attestations : List KeyAttestation → Encoder → Encoder
encode_attestations [] e = e
encode_attestations (a ∷ xs) e = encode_attestations xs (
    e
    ▸ str a.key_id
    ▸ str a.ak_pub
    ▸ str a.ek_cert
    ▸ str a.certify
    ▸ str a.quote
    ▸ opt_str a.identity_pub
    ▸ u64 (length a.expected_pcrs)
    ▸ encode_pcrs a.expected_pcrs)

abbrev encode_present : List KeyAttestation → Encoder → Encoder
encode_present [] e = e
encode_present (a ∷ xs) e =
    encode_attestations (sort_by (λ (x : KeyAttestation). x.key_id) (a ∷ xs))
      (e ▸ u64 (length (a ∷ xs)))

unfoldable pub deployment_bytes : DeploymentBundle → Bytes
deployment_bytes b = finish (
    new
    ▸ str b.format
    ▸ str b.version
    ▸ u64 (length b.origin_keys)
    ▸ encode_keys (sort_by (λ (k : PublicKeyEntry). k.key_id) b.origin_keys)
    ▸ encode_present b.attestations)

module _ ⦃c : Crypto⦄ where
  unfoldable pub deployment_signing_bytes : DeploymentBundle → Bytes
  deployment_signing_bytes b = digest domain_deployment_bundle (deployment_bytes b)

  unfoldable pub sign_deployment : DeploymentBundle → Bytes → Bytes → SignedDeploymentBundle
  sign_deployment b key_id key = record {
    bundle = b;
    key_id = key_id;
    signature = c.hex_encode (c.ed25519_sign key (deployment_signing_bytes b));
  }

  -- `SignedDeploymentBundle::verify`.
  unfoldable pub verify_deployment : SignedDeploymentBundle → Bytes → Result DeploymentBundle
  verify_deployment sdb ops_key = do
    raw ← ok_or (c.hex_decode sdb.signature) bad_deployment_signature
    sig ← ok_or (try_into 64 raw) bad_deployment_signature
    refuse_if (not (c.ed25519_verify ops_key (deployment_signing_bytes sdb.bundle) sig))
        bad_deployment_signature
    refuse_if (not (bytes_eq sdb.bundle.format deployment_format))
        (unknown_deployment_format sdb.bundle.format)
    ok sdb.bundle

  -- The loop of `active_origin_keys`.
  unfoldable pub active_loop : KeyMap → List PublicKeyEntry → Result KeyMap
  active_loop m [] = ok m
  active_loop m (entry ∷ rest) = do
    refuse_if (not (is_origin entry.role)) (non_origin_key_in_bundle entry.key_id)
    vk ← to_verifying_key entry
    refuse_if (contains_key entry.key_id m) (duplicate_bundle_key entry.key_id)
    active_loop (insert entry.key_id vk m) rest

  abbrev pub active_origin_keys : DeploymentBundle → Result KeyMap
  active_origin_keys b = active_loop [] b.origin_keys
