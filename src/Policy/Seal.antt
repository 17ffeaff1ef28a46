-- ===== src/Policy/Seal.antt =====
-- crates/obsign-policy/src/bundle.rs: what the verification of a signed bundle and the loading of the
-- bundle promise.
use obsign.Prelude.{
  ◌≡◌, refl, sym, ap, ◌∙◌, ◌⊎◌, inl, inr, ℕ, Bytes, codes, Bool, true, false, not, ◌&&◌, some, List,
  [], ◌∷◌, arith, ok, subst, refuse_if-eq-ok, ok_or-eq-ok, >>-eq-ok, >>=-eq-ok, Bool-cases, length,
  bytes_eq, bytes_eq_iff, Map, lookup,
}
use obsign.Crypto.{Crypto, CryptoLaws, try_into}
use obsign.Audit.Canonical.Items.{Each}
use obsign.Policy.Cedar.{Cedar, SerdeJson}
use obsign.Policy.Bundle.{
  ToolDef, Bundle, SignedBundle, format_v1, format_v2, is_empty, any_args, policy_signing_bytes,
  sign_bundle, verify_bundle,
}
use obsign.Policy.Args.{validate_arg_specs}
use obsign.Policy.Engine.{Engine}
use obsign.Policy.Load.{cedar_says, rename, catalogue, validate_tools, load}

try_into-eq-some :
    (n : ℕ) (raw : Bytes) {b : Bytes} → try_into n raw ≡ some b → (raw ≡ b) × (length b ≡ n)
try_into-eq-some n raw h = ground (arith, h)

-- The two tests on the format, for any outcomes of them.
format_cases :
    (is_v1 is_v2 declares : Bool)
    → (not is_v1 && not is_v2) ≡ false
    → (is_v1 && declares) ≡ false
    → (is_v1 ≡ true) × (declares ≡ false) ⊎ (is_v2 ≡ true)
format_cases true is_v2 declares h k = inl (refl, k)
format_cases false true declares h k = inr refl
format_cases false false declares h k = absurd cc

abbrev pub NoArgs : ToolDef → Type 0
NoArgs t = is_empty t.policy_args ≡ true

any_args-NoArgs : (ts : List ToolDef) → any_args ts ≡ false → Each NoArgs ts
unfolding any_args
any_args-NoArgs [] h = tt
any_args-NoArgs (t ∷ ts) h = elim (Bool-cases (is_empty t.policy_args)) [
  | inl empty ↦ (empty, any_args-NoArgs ts (ground (arith, empty, h)))
  | inr declared ↦ absurd (ground (arith, declared, h))
]

any_args-eq-false : (ts : List ToolDef) → Each NoArgs ts → any_args ts ≡ false
unfolding any_args
any_args-eq-false [] h = refl
any_args-eq-false (t ∷ ts) (empty, h) = rw (empty, any_args-eq-false ts h) refl

module _ ⦃serde : SerdeJson⦄ ⦃c : Crypto⦄ where
  -- If `verify` accepts a signed bundle, then the result is the bundle of it, in one of the two known
  -- formats; the signature is 64 bytes that the key verifies over the message of the bundle; and where
  -- the format is the first one, whose message leaves the declarations of arguments out, no tool
  -- declares an argument.
  pub verify_bundle_sound :
      (sb : SignedBundle) (key : Bytes) {b : Bundle}
      → verify_bundle sb key ≡ ok b
      → (sb.bundle ≡ b)
        × ((b.format ≡ format_v1) × Each NoArgs b.tools ⊎ (b.format ≡ format_v2))
        × (sig : Bytes) × (c.hex_decode sb.signature ≡ some sig)
        × (length sig ≡ 64)
        × (c.ed25519_verify key (policy_signing_bytes b) sig ≡ true)
  unfolding verify_bundle
  verify_bundle_sound sb key {b} h =
      let f = sb.bundle.format in
      let (known, h1) =
        refuse_if-eq-ok (not (bytes_eq f format_v1) && not (bytes_eq f format_v2)) _ _ h in
      let (raw, decoded, h2) = ok_or-eq-ok (c.hex_decode sb.signature) _ _ h1 in
      let (sig, whole, h3) = ok_or-eq-ok (try_into 64 raw) _ _ h2 in
      let message = policy_signing_bytes sb.bundle in
      let (signed, h4) = refuse_if-eq-ok (not (c.ed25519_verify key message sig)) _ _ h3 in
      let (declared, h5) =
        refuse_if-eq-ok (bytes_eq f format_v1 && any_args sb.bundle.tools) _ _ h4 in
      let same : sb.bundle ≡ b = cc in
      let shape : (f ≡ format_v1) × Each NoArgs sb.bundle.tools ⊎ (f ≡ format_v2) =
        elim (format_cases _ _ _ known declared) [
          | inl (v1, none_declared) ↦
              inl ((bytes_eq_iff f format_v1).0 v1, any_args-NoArgs sb.bundle.tools none_declared)
          | inr v2 ↦ inr ((bytes_eq_iff f format_v2).0 v2)
        ] in
      let verified : c.ed25519_verify key message sig ≡ true = ground (arith, signed) in
      (
        same,
        subst
            (λ (x : Bundle). (x.format ≡ format_v1) × Each NoArgs x.tools ⊎ (x.format ≡ format_v2))
            same shape,
        sig,
        decoded ∙ ap some (try_into-eq-some 64 raw whole).0,
        (try_into-eq-some 64 raw whole).1,
        subst (λ (x : Bundle). c.ed25519_verify key (policy_signing_bytes x) sig ≡ true) same
            verified,
      )

  -- A bundle of a known format, without declarations of arguments where this is the first one, and
  -- signed with a key, verifies under the public key of it, and the result is the bundle.
  pub verify_bundle-sign_bundle :
      (l : CryptoLaws c) (b : Bundle) (key_id key : Bytes)
      → (b.format ≡ format_v1) × Each NoArgs b.tools ⊎ (b.format ≡ format_v2)
      → verify_bundle (sign_bundle b key_id key) (c.ed25519_public key) ≡ ok b
  unfolding verify_bundle sign_bundle
  verify_bundle-sign_bundle l b key_id key known =
      let f = b.format in
      let m = policy_signing_bytes b in
      let (a, d) = tests known in
      rw
        (
          a,
          l.hex_decode-hex_encode (c.ed25519_sign key m),
          l.length-ed25519_sign key m,
          l.verify-sign key m,
          d,
        )
        refl
    where
      tests :
          (b.format ≡ format_v1) × Each NoArgs b.tools ⊎ (b.format ≡ format_v2)
          → ((not (bytes_eq b.format format_v1) && not (bytes_eq b.format format_v2)) ≡ false)
            × ((bytes_eq b.format format_v1 && any_args b.tools) ≡ false)
      tests (inl (v1, none_declared)) =
          rw ((bytes_eq_iff b.format format_v1).1 v1, any_args-eq-false b.tools none_declared)
            (refl, refl)
      tests (inr v2) = rw v2 (refl, refl)

-- What a catalogue gives under a name has that name, and what its tools have in common.
Named : (ToolDef → Type 0) → Map ToolDef → Type 0
Named P [] = Unit
Named P ((k, t) ∷ m) = (t.name ≡ k) × P t × Named P m

lookup-Named :
    (P : ToolDef → Type 0) (name : Bytes) (m : Map ToolDef) {def : ToolDef}
    → Named P m
    → lookup name m ≡ some def
    → (def.name ≡ name) × P def
unfolding lookup Named
lookup-Named P name [] h e = absurd cc
lookup-Named P name ((k, t) ∷ m) {def} (n, p, h) e = elim (Bool-cases (bytes_eq k name)) [
  | inl hit ↦
      let same : t ≡ def = ground (arith, hit, e) in
      (ap (λ (x : ToolDef). x.name) (sym same) ∙ n ∙ (bytes_eq_iff k name).0 hit, subst P same p)
  | inr miss ↦ lookup-Named P name m h (ground (arith, miss, e))
]

catalogue-Named :
    (P : ToolDef → Type 0) (ts : List ToolDef) (m : Map ToolDef)
    → Each P ts
    → Named P m
    → Named P (catalogue ts m)
unfolding catalogue Named
catalogue-Named P [] m each h = h
catalogue-Named P (t ∷ ts) m (p, each) h = catalogue-Named P ts ((t.name, t) ∷ m) each (refl, p, h)

module _ ⦃api : Cedar⦄ ⦃serde : SerdeJson⦄ where
  abbrev pub Validated : Bytes → ToolDef → Type 0
  Validated format t = validate_arg_specs t format ≡ ok tt

  validate_tools-Validated :
      (ts : List ToolDef) (format : Bytes)
      → validate_tools ts format ≡ ok tt
      → Each (Validated format) ts
  unfolding validate_tools
  validate_tools-Validated [] format h = tt
  validate_tools-Validated (t ∷ ts) format h =
      let (this, later) = >>-eq-ok (validate_arg_specs t format) _ h in
      (this, validate_tools-Validated ts format later)

  -- If a bundle is loaded, then the engine has the version and the fail mode of the bundle, and every
  -- tool that it finds under a name has that name and passed the validation of its declared
  -- arguments under the format of the bundle.
  pub load_sound :
      (b : Bundle) {engine : Engine}
      → load b ≡ ok engine
      → (engine.version ≡ b.version)
        × (engine.fail_mode ≡ b.fail_mode)
        × ((name : Bytes) (def : ToolDef)
            → lookup name engine.tools ≡ some def
            → (def.name ≡ name) × Validated b.format def)
  unfolding load Named
  load_sound b {engine} h =
      let (parsed, e1, h1) =
        >>=-eq-ok (cedar_says (codes "unreadable policies: ") (api.policy_set_from_str b.cedar)) _
          h in
      let (renamed, e2, h2) = >>=-eq-ok (rename (api.policies parsed)) _ h1 in
      let (policies, e3, h3) =
        >>=-eq-ok
          (cedar_says (codes "conflicting or invalid @id values: ") (api.from_policies renamed)) _
          h2 in
      let (valid, h4) = >>-eq-ok (validate_tools b.tools b.format) _ h3 in
      let each = validate_tools-Validated b.tools b.format valid in
      let named = catalogue-Named (Validated b.format) b.tools [] each tt in
      let made : Engine = record {
        policies = policies;
        tools = catalogue b.tools [];
        version = b.version;
        fail_mode = b.fail_mode;
      } in
      let same : made ≡ engine = cc in
      subst
        (λ (x : Engine).
          (x.version ≡ b.version)
          × (x.fail_mode ≡ b.fail_mode)
          × ((name : Bytes) (def : ToolDef)
              → lookup name x.tools ≡ some def
              → (def.name ≡ name) × Validated b.format def))
        same (refl, refl, λ name def e. lookup-Named (Validated b.format) name made.tools named e)
