-- ===== src/Audit/Tests.antt =====
-- Runs of the core at concrete inputs, and its theorems there.
use obsign.Prelude.{
  ok, ok_or, ◌≡◌, ◌⊎◌, refl, codes, pos, none, some, List, [], ◌∷◌, ◌↔◌, arith, replicate,
}
use obsign.Audit.Toy.{
  toy, toy_laws, call, done, draft, first, second, first-IsEncodable, second-IsEncodable,
}
use obsign.Audit.Hash.{Hash, Collision, digest, genesis}
use obsign.Audit.Canonical.{to_be_bytes}
use obsign.Audit.Merkle.{merkle_root}
use obsign.Audit.Merkle.Binding.{merkle_root-binding, merkle_root-eq-none_iff}
use obsign.Audit.Record.{record_hash}
use obsign.Audit.Record.Binding.{record_hash-binding}
use obsign.Audit.Checkpoint.{Checkpoint, seal_interval, next_u64}
use obsign.Audit.Checkpoint.Binding.{seal_interval-binding, signing_bytes-binding}
use obsign.Audit.Error.{empty_seal}
use obsign.Audit.Chain.Links.{Linked, append_all-Linked}
use obsign.Audit.Chain.Refines.{seal_interval-Linked, seal-eq-seal_interval}
use obsign.Audit.Origin.{signed, verify_origin, origin_signing_bytes}
use obsign.Audit.Origin.Binding.{origin_signing_bytes-binding, verify_origin-signed}
use obsign.Audit.Chain.{new_chain, append_all, seal}

abbrev batch : List Hash
batch = replicate 32 1 ∷ replicate 32 2 ∷ replicate 32 3 ∷ []

abbrev blank : Checkpoint
blank = record {
  chain_id = codes "c1";
  from_seq = 0;
  to_seq = 0;
  root = genesis;
  head_hash = genesis;
  prev_checkpoint_hash = none;
  ts_ms = pos 0;
  key_id = codes "k1";
}

batch_root : Hash
unfolding merkle_root digest to_be_bytes
batch_root = elim (merkle_root batch) [ none ↦ genesis | some root ↦ root ]

batch_has_root : merkle_root batch ≡ some batch_root
unfolding batch_root
batch_has_root = refl

merkle_root-binding_example : (batch ≡ batch) ⊎ Collision
merkle_root-binding_example = merkle_root-binding toy_laws batch batch batch_has_root batch_has_root

merkle_root-eq-none_iff_example : (merkle_root batch ≡ none) ↔ (batch ≡ [])
merkle_root-eq-none_iff_example = merkle_root-eq-none_iff batch

record_hash-binding_example : (first ≡ first) ⊎ Collision
record_hash-binding_example =
    record_hash-binding first first first-IsEncodable first-IsEncodable refl

second-Linked : Linked (next_u64 first.seq) (record_hash first) (second ∷ [])
second-Linked = (refl, refl, tt)

is_sealed :
    (cp : Checkpoint) × (seal_interval (codes "c1") (first ∷ second ∷ []) none (pos 5) (codes "k1")
      ≡ ok cp)
is_sealed =
    let (root, found, sealed) =
      seal_interval-Linked (codes "c1") first (second ∷ []) none (pos 5) (codes "k1")
        second-Linked in
    (_, sealed)

seal_interval-binding_example : ((first ∷ second ∷ []) ≡ (first ∷ second ∷ [])) ⊎ Collision
seal_interval-binding_example =
    seal_interval-binding toy_laws (codes "c1") (codes "c1") (first ∷ second ∷ [])
      (first ∷ second ∷ []) none none (pos 5) (pos 5) (codes "k1") (codes "k1")
      (first-IsEncodable, (second-IsEncodable, tt)) (first-IsEncodable, (second-IsEncodable, tt))
      is_sealed.1 is_sealed.1 refl

signing_bytes-binding_example : (blank ≡ blank) ⊎ Collision
signing_bytes-binding_example = signing_bytes-binding blank blank (omega arith) (omega arith) refl

seal-eq-seal_interval_example :
    ok_or
      (seal
        (append_all (new_chain (codes "c1")) (draft call ∷ draft done ∷ [])).0
        (pos 5)
        (codes "k1")).1
      empty_seal
    ≡ seal_interval
        (codes "c1")
        (append_all (new_chain (codes "c1")) (draft call ∷ draft done ∷ [])).1
        none
        (pos 5)
        (codes "k1")
seal-eq-seal_interval_example =
    seal-eq-seal_interval (new_chain (codes "c1")) (draft call ∷ draft done ∷ []) (pos 5)
      (codes "k1") (omega arith) refl

append_all-Linked_example :
    Linked 0 genesis (append_all (new_chain (codes "c1")) (draft call ∷ draft done ∷ [])).1
append_all-Linked_example =
    append_all-Linked (new_chain (codes "c1")) (draft call ∷ draft done ∷ [])

origin_signing_bytes-binding_example : ((codes "c1" ≡ codes "c1") × (first ≡ first)) ⊎ Collision
origin_signing_bytes-binding_example =
    origin_signing_bytes-binding toy_laws (codes "c1") (codes "c1") first first (omega arith)
      (omega arith) first-IsEncodable first-IsEncodable refl

verify_origin-signed_example :
    verify_origin
      (signed first
        (codes "og1")
        (toy.ed25519_sign (replicate 32 8) (origin_signing_bytes (codes "c1") (record_hash first))))
      (codes "c1")
      (replicate 32 8)
    ≡ ok tt
verify_origin-signed_example =
    verify_origin-signed toy_laws (codes "c1") (codes "og1") (replicate 32 8) first
