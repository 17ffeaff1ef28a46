-- ===== src/Policy/Bundle.antt =====
-- crates/obsign-policy/src/bundle.rs: the bundle, the message that is signed for it, and its
-- verification. The overrides of a fail mode are a `BTreeMap`: its entries in the order of the keys.
use obsign.Prelude.{
  ℕ, Bytes, codes, Bool, true, false, not, ◌&&◌, ◌||◌, ◌==◌, Option, none, some, List, [], ◌∷◌,
  ◌++◌, length, bytes_eq, ok, ◌>>=◌, ◌>>◌, refuse_if, ok_or, if◌then◌else◌, Map, lookup,
}
use obsign.Crypto.{Crypto, try_into}
use obsign.Audit.Hash.{Hash, digest, domain_policy_bundle}
use obsign.Audit.Canonical.{Encoder, new, ◌▸◌, u8, u64, str, opt_str, finish}
use obsign.Audit.Json.{Json}
use obsign.Policy.Cedar.{SerdeJson}
use obsign.Policy.{Result, bad_signature, unknown_format, bundle}

abbrev pub format_v1 : Bytes
format_v1 = codes "obsign-policy/1"

abbrev pub format_v2 : Bytes
format_v2 = codes "obsign-policy/2"

pub data ArgKind : Type 0 where
  string long bool string_set : ArgKind

abbrev pub arg_kind_str : ArgKind → Bytes
arg_kind_str string = codes "string"
arg_kind_str long = codes "long"
arg_kind_str bool = codes "bool"
arg_kind_str string_set = codes "string_set"

pub record ArgSpec : Type 0 where
  pub name : Bytes
  pub at : Option Bytes
  pub kind : ArgKind
  pub default : Option Json

pub record ToolDef : Type 0 where
  pub name : Bytes
  pub server : Bytes
  pub destructive : Bool
  pub required_scope : Option Bytes
  pub policy_args : List ArgSpec

pub data FailBehaviour : Type 0 where
  closed open_ : FailBehaviour

pub record FailMode : Type 0 where
  pub default : FailBehaviour
  pub tools : Map FailBehaviour

pub record Bundle : Type 0 where
  pub format : Bytes
  pub version : Bytes
  pub cedar : Bytes
  pub tools : List ToolDef
  pub fail_mode : FailMode

pub record SignedBundle : Type 0 where
  pub bundle : Bundle
  pub key_id : Bytes
  pub signature : Bytes

-- `str::replace` of one ASCII character, by a text.
unfoldable pub replace : ℕ → Bytes → Bytes → Bytes
replace c by [] = []
replace c by (x ∷ xs) = if x == c then by ++ replace c by xs else x ∷ replace c by xs

-- `~` becomes `~0` before `/` becomes `~1`.
unfoldable pub escape : Bytes → Bytes
escape name = replace 47 (codes "~1") (replace 126 (codes "~0") name)

unfoldable pub spec_pointer : ArgSpec → Bytes
spec_pointer spec = elim spec.at [ some p ↦ p | none ↦ codes "/" ++ escape spec.name ]

unfoldable pub for_tool : FailMode → Bytes → FailBehaviour
for_tool m tool = elim (lookup tool m.tools) [ some b ↦ b | none ↦ m.default ]

abbrev pub fail_str : FailBehaviour → Bytes
fail_str closed = codes "closed"
fail_str open_ = codes "open"

abbrev pub flag : Bool → ℕ
flag true = 1
flag false = 0

abbrev pub is_empty {ℓ} : {A : Type ℓ} → List A → Bool
is_empty [] = true
is_empty _ = false

-- `tools.iter().any(|t| !t.policy_args.is_empty())`
unfoldable pub any_args : List ToolDef → Bool
any_args [] = false
any_args (t ∷ ts) = not (is_empty t.policy_args) || any_args ts

unfoldable pub encode_overrides : Map FailBehaviour → Encoder → Encoder
encode_overrides [] e = e
encode_overrides ((k, v) ∷ m) e = encode_overrides m (e ▸ str k ▸ str (fail_str v))

module _ ⦃serde : SerdeJson⦄ where
  unfoldable pub default_text : Option Json → Option Bytes
  default_text none = none
  default_text (some d) = some (serde.to_string d)

  unfoldable pub encode_args : List ArgSpec → Encoder → Encoder
  encode_args [] e = e
  encode_args (a ∷ xs) e =
      encode_args xs (
        e
        ▸ str a.name
        ▸ opt_str a.at
        ▸ str (arg_kind_str a.kind)
        ▸ opt_str (default_text a.default))

  abbrev pub encode_declared : Bool → List ArgSpec → Encoder → Encoder
  encode_declared false xs e = e
  encode_declared true xs e = e ▸ u64 (length xs) ▸ encode_args xs

  unfoldable pub encode_tools : Bool → List ToolDef → Encoder → Encoder
  encode_tools with_args [] e = e
  encode_tools with_args (t ∷ ts) e = encode_tools with_args ts (
      e
      ▸ str t.name
      ▸ str t.server
      ▸ u8 (flag t.destructive)
      ▸ opt_str t.required_scope
      ▸ encode_declared with_args t.policy_args)

  unfoldable pub bundle_bytes : Bundle → Bytes
  bundle_bytes b = finish (
      new
      ▸ str b.format
      ▸ str b.version
      ▸ str b.cedar
      ▸ u64 (length b.tools)
      ▸ encode_tools (not (bytes_eq b.format format_v1)) b.tools
      ▸ str (fail_str b.fail_mode.default)
      ▸ u64 (length b.fail_mode.tools)
      ▸ encode_overrides b.fail_mode.tools)

  module _ ⦃c : Crypto⦄ where
    unfoldable pub policy_signing_bytes : Bundle → Bytes
    policy_signing_bytes b = digest domain_policy_bundle (bundle_bytes b)

    unfoldable pub bundle_hash : Bundle → Hash
    bundle_hash b = policy_signing_bytes b

    unfoldable pub sign_bundle : Bundle → Bytes → Bytes → SignedBundle
    sign_bundle b key_id key = record {
      bundle = b;
      key_id = key_id;
      signature = c.hex_encode (c.ed25519_sign key (policy_signing_bytes b));
    }

    -- `SignedBundle::verify`.
    unfoldable pub verify_bundle : SignedBundle → Bytes → Result Bundle
    verify_bundle sb key = do
      refuse_if
          (not (bytes_eq sb.bundle.format format_v1) && not (bytes_eq sb.bundle.format format_v2))
          (unknown_format sb.bundle.format)
      raw ← ok_or (c.hex_decode sb.signature) bad_signature
      sig ← ok_or (try_into 64 raw) bad_signature
      refuse_if (not (c.ed25519_verify key (policy_signing_bytes sb.bundle) sig)) bad_signature
      refuse_if (bytes_eq sb.bundle.format format_v1 && any_args sb.bundle.tools)
          (bundle (codes "policy_args requires obsign-policy/2"))
      ok sb.bundle
