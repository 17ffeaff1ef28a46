-- ===== src/Audit/Evidence/OriginSound.antt =====
-- What the pass over the origin signatures has checked where origin is required.
use obsign.Prelude.{
  ◌+◌, ◌≡◌, refl, Bytes, codes, true, Option, none, some, Option-cases, List, [], ◌∷◌, ◌++◌, arith,
  ok, Fallible-cases, Bool-cases, inl, inr, ltb,
}
use obsign.Crypto.{Crypto}
use obsign.Audit.Canonical.Items.{Each}
use obsign.Audit.Origin.{SignedRecord, verify_origin}
use obsign.Audit.Keyring.{get, contains_key}
use obsign.Audit.Evidence.{is_valid, Keys, error_of}
use obsign.Audit.Evidence.Findings.{is_valid-append}
use obsign.Audit.Evidence.Seals.{
  OriginPass, origin_start, origin_pair, origin_loop, check_record_origins,
}

module _ ⦃c : Crypto⦄ where
  -- The record names an origin key of the set, and its signature verifies under it in the chain.
  pub record Vouched (chain_id : Bytes) (ks : Keys) (sr : SignedRecord) : Type 0 where
    pub key_id : Bytes
    pub key : Bytes
    pub names : sr.origin_key_id ≡ some key_id
    pub is_origin_key : get key_id ks.origin_keys ≡ some key
    pub verifies : verify_origin sr chain_id key ≡ ok tt

  -- No error so far, and no record without a verified signature.
  abbrev Clean : OriginPass → Type 0
  Clean s = (is_valid s.findings ≡ true) × (s.origin_unverified ≡ 0)

  not_refused : (s : OriginPass) (why : Bytes) → is_valid (s.findings ++ error_of why) ≡ true → ⊥
  unfolding is_valid
  not_refused s why h = absurd cc ((is_valid-append s.findings (error_of why) h).1)

  origin_pair_sound :
      (chain_id : Bytes) (ks : Keys) (s : OriginPass) (sr : SignedRecord) (sig kid : Option Bytes)
      → Clean (origin_pair chain_id ks s sr sig kid)
      → Clean s
        × (k key : Bytes) × (kid ≡ some k)
        × (get k ks.origin_keys ≡ some key)
        × (verify_origin sr chain_id key ≡ ok tt)
  unfolding origin_pair
  origin_pair_sound chain_id ks s sr none none h = absurd (omega (arith, h))
  origin_pair_sound chain_id ks s sr none (some k) h =
      absurd (not_refused s (codes "origin_invalid") h.0)
  origin_pair_sound chain_id ks s sr (some sig) none h =
      absurd (not_refused s (codes "origin_invalid") h.0)
  origin_pair_sound chain_id ks s sr (some sig) (some k) h =
      elim (Option-cases (get k ks.origin_keys)) [
        | inr (key, found) ↦ elim (Fallible-cases (verify_origin sr chain_id key)) [
          | inl (u, good) ↦ (ground (arith, h, found, good), k, key, refl, found, good)
          | inr (e, bad) ↦
              absurd (not_refused s (codes "origin_invalid") (ground (arith, h, found, bad)))
        ]
        | inl absent ↦ elim (Bool-cases (contains_key k ks.keys)) [
          | inl a ↦
              absurd (not_refused s (codes "key_role_mismatch") (ground (arith, h, absent, a)))
          | inr a ↦ elim (Bool-cases (contains_key k ks.ops_keys)) [
            | inl b ↦
                absurd (not_refused s (codes "key_role_mismatch") (ground (arith, h, absent, a, b)))
            | inr b ↦
                let counted : s.origin_unverified + 1 ≡ 0 = ground (arith, h, absent, a, b) in
                absurd (omega (arith, counted))
          ]
        ]
      ]

  origin_loop_sound :
      (chain_id : Bytes) (ks : Keys) (s : OriginPass) (srs : List SignedRecord)
      → Clean (origin_loop chain_id ks s srs)
      → Clean s × Each (Vouched chain_id ks) srs
  unfolding origin_loop
  origin_loop_sound chain_id ks s [] h = (h, tt)
  origin_loop_sound chain_id ks s (sr ∷ srs) h =
      let s' = origin_pair chain_id ks s sr sr.origin_sig sr.origin_key_id in
      let (clean, rest) = origin_loop_sound chain_id ks s' srs h in
      let (before, k, key, names, is_key, verifies) =
        origin_pair_sound chain_id ks s sr sr.origin_sig sr.origin_key_id clean in
      (
        before,
        (
          record {
            key_id = k;
            key = key;
            names = names;
            is_origin_key = is_key;
            verifies = verifies;
          },
          rest,
        ),
      )

  -- If origin is required and the pass over the origin signatures finds no error, then every record
  -- names an origin key of the set and carries a signature that verifies under it in this chain.
  pub check_record_origins_sound :
      (chain_id : Bytes) (ks : Keys) (srs : List SignedRecord)
      → is_valid (check_record_origins true chain_id ks srs).findings ≡ true
      → Each (Vouched chain_id ks) srs
  unfolding check_record_origins is_valid
  check_record_origins_sound chain_id ks srs h =
      let s = origin_loop chain_id ks origin_start srs in
      let (valid, counted) = is_valid-append s.findings _ h in
      let none_left : s.origin_unverified ≡ 0 = elim (Bool-cases (ltb 0 s.origin_unverified)) [
        | inl some_left ↦ absurd (ground (arith, counted, some_left))
        | inr nothing ↦ ground (arith, nothing)
      ] in
      (origin_loop_sound chain_id ks origin_start srs (valid, none_left)).1
