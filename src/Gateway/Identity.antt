-- ===== src/Gateway/Identity.antt =====
-- crates/obsign-identity/src/verifier.rs: the delegation that a verified token proves.
pub mod Equal
use obsign.Prelude.{
  ℕ, ◌+◌, ◌-◌, ◌/◌, Bytes, ℤ, pos, negsuc, Bool, true, false, Option, none, some, List, [], ◌∷◌,
  ◌&&◌, length, leb, bytes_eq,
}
use obsign.Audit.Payload.{PrincipalKind, human, delegated_human, machine}

pub record Delegation : Type 0 where
  pub subject : Bytes
  pub issuer : Bytes
  pub scopes : List Bytes
  pub groups : List Bytes
  pub expires_at_ms : ℤ
  pub issued_at_ms : Option ℤ
  pub actor_chain : List Bytes
  pub kind : PrincipalKind
  pub label : Option (Bytes × Bytes)

-- `a <= b` of two `i64`.
unfoldable pub int_leb : ℤ → ℤ → Bool
int_leb (pos a) (pos b) = leb a b
int_leb (pos a) (negsuc b) = false
int_leb (negsuc a) (pos b) = true
int_leb (negsuc a) (negsuc b) = leb b a

-- `a - b` where this is not negative, and 0 elsewhere.
unfoldable pub int_gap : ℤ → ℤ → ℕ
int_gap (pos a) (pos b) = a - b
int_gap (pos a) (negsuc b) = a + b + 1
int_gap (negsuc a) (pos b) = 0
int_gap (negsuc a) (negsuc b) = b - a

unfoldable pub is_expired : Delegation → ℤ → Bool
is_expired d now = int_leb d.expires_at_ms now

-- `-remaining_secs(now)` of an expired delegation: a division of `i64` rounds to zero.
unfoldable pub expired_secs : Delegation → ℤ → ℕ
expired_secs d now = int_gap now d.expires_at_ms / 1000

unfoldable pub delegation_depth : Delegation → ℕ
delegation_depth d = length d.actor_chain - 1

-- `PrincipalKind::has_human`.
abbrev pub kind_has_human : PrincipalKind → Bool
kind_has_human human = true
kind_has_human delegated_human = true
kind_has_human machine = false

abbrev pub has_human : Delegation → Bool
has_human d = kind_has_human d.kind

-- The derived `PartialEq`.
unfoldable pub list_eq : List Bytes → List Bytes → Bool
list_eq [] [] = true
list_eq (a ∷ as_) (b ∷ bs) = bytes_eq a b && list_eq as_ bs
list_eq _ _ = false

abbrev pub int_eq : ℤ → ℤ → Bool
int_eq a b = int_leb a b && int_leb b a

abbrev pub maybe_int_eq : Option ℤ → Option ℤ → Bool
maybe_int_eq none none = true
maybe_int_eq (some a) (some b) = int_eq a b
maybe_int_eq _ _ = false

abbrev pub kind_eq : PrincipalKind → PrincipalKind → Bool
kind_eq human human = true
kind_eq delegated_human delegated_human = true
kind_eq machine machine = true
kind_eq _ _ = false

abbrev pub label_eq : Option (Bytes × Bytes) → Option (Bytes × Bytes) → Bool
label_eq none none = true
label_eq (some (a, b)) (some (c, d)) = bytes_eq a c && bytes_eq b d
label_eq _ _ = false

unfoldable pub delegation_eq : Delegation → Delegation → Bool
unfolding list_eq int_leb
delegation_eq d e =
    bytes_eq d.subject e.subject
    && bytes_eq d.issuer e.issuer
    && list_eq d.scopes e.scopes
    && list_eq d.groups e.groups
    && int_eq d.expires_at_ms e.expires_at_ms
    && maybe_int_eq d.issued_at_ms e.issued_at_ms
    && list_eq d.actor_chain e.actor_chain
    && kind_eq d.kind e.kind
    && label_eq d.label e.label
