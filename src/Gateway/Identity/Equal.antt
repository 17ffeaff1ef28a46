-- ===== src/Gateway/Identity/Equal.antt =====
-- crates/obsign-identity/src/verifier.rs: the derived equality of delegations is equality.
use obsign.Prelude.{
  ◌≡◌, refl, ap, subst, ◌↔◌, Bytes, ℤ, pos, negsuc, Bool, true, Option, none, some, List, [], ◌∷◌,
  ◌&&◌, arith, bytes_eq, bytes_eq_iff,
}
use obsign.Audit.Payload.{PrincipalKind, human, delegated_human, machine}
use obsign.Gateway.Identity.{
  Delegation, int_leb, list_eq, int_eq, maybe_int_eq, kind_eq, label_eq, delegation_eq,
}

both : {a b : Bool} → (a && b) ≡ true → (a ≡ true) × (b ≡ true)
both h = ground (arith, h)

bytes_same : (a : Bytes) → bytes_eq a a ≡ true
bytes_same a = (bytes_eq_iff a a).1 refl

list_eq_sound : (xs ys : List Bytes) → list_eq xs ys ≡ true → xs ≡ ys
unfolding list_eq
list_eq_sound [] [] h = refl
list_eq_sound [] (y ∷ ys) h = absurd cc
list_eq_sound (x ∷ xs) [] h = absurd cc
list_eq_sound (x ∷ xs) (y ∷ ys) h =
    let (heads, tails) = both {a = bytes_eq x y} h in
    cc ((bytes_eq_iff x y).0 heads, list_eq_sound xs ys tails)

list_same : (xs : List Bytes) → list_eq xs xs ≡ true
unfolding list_eq
list_same [] = refl
list_same (x ∷ xs) = rw (bytes_same x, list_same xs) refl

int_eq_sound : (a b : ℤ) → int_eq a b ≡ true → a ≡ b
unfolding int_leb
int_eq_sound (pos a) (pos b) h = ap pos (ground (arith, h))
int_eq_sound (pos a) (negsuc b) h = absurd cc
int_eq_sound (negsuc a) (pos b) h = absurd cc
int_eq_sound (negsuc a) (negsuc b) h = ap negsuc (ground (arith, h))

int_same : (a : ℤ) → int_eq a a ≡ true
unfolding int_leb
int_same (pos a) = ground arith
int_same (negsuc a) = ground arith

maybe_int_eq_sound : (a b : Option ℤ) → maybe_int_eq a b ≡ true → a ≡ b
maybe_int_eq_sound none none h = refl
maybe_int_eq_sound none (some b) h = absurd cc
maybe_int_eq_sound (some a) none h = absurd cc
maybe_int_eq_sound (some a) (some b) h = ap some (int_eq_sound a b h)

maybe_int_same : (a : Option ℤ) → maybe_int_eq a a ≡ true
maybe_int_same none = refl
maybe_int_same (some a) = int_same a

kind_eq_sound : (a b : PrincipalKind) → kind_eq a b ≡ true → a ≡ b
kind_eq_sound human human h = refl
kind_eq_sound human delegated_human h = absurd cc
kind_eq_sound human machine h = absurd cc
kind_eq_sound delegated_human human h = absurd cc
kind_eq_sound delegated_human delegated_human h = refl
kind_eq_sound delegated_human machine h = absurd cc
kind_eq_sound machine human h = absurd cc
kind_eq_sound machine delegated_human h = absurd cc
kind_eq_sound machine machine h = refl

kind_same : (a : PrincipalKind) → kind_eq a a ≡ true
kind_same human = refl
kind_same delegated_human = refl
kind_same machine = refl

label_eq_sound : (a b : Option (Bytes × Bytes)) → label_eq a b ≡ true → a ≡ b
label_eq_sound none none h = refl
label_eq_sound none (some b) h = absurd cc
label_eq_sound (some a) none h = absurd cc
label_eq_sound (some (a, b)) (some (c, d)) h =
    let (labels, claims) = both {a = bytes_eq a c} h in
    cc ((bytes_eq_iff a c).0 labels, (bytes_eq_iff b d).0 claims)

label_same : (a : Option (Bytes × Bytes)) → label_eq a a ≡ true
label_same none = refl
label_same (some (a, b)) = rw (bytes_same a, bytes_same b) refl

-- Two delegations with the same fields are one.
same_fields :
    (d e : Delegation)
    → d.subject ≡ e.subject
    → d.issuer ≡ e.issuer
    → d.scopes ≡ e.scopes
    → d.groups ≡ e.groups
    → d.expires_at_ms ≡ e.expires_at_ms
    → d.issued_at_ms ≡ e.issued_at_ms
    → d.actor_chain ≡ e.actor_chain
    → d.kind ≡ e.kind
    → d.label ≡ e.label
    → d ≡ e
same_fields d e a b c f g h i j k = λ t. record {
  subject = a t;
  issuer = b t;
  scopes = c t;
  groups = f t;
  expires_at_ms = g t;
  issued_at_ms = h t;
  actor_chain = i t;
  kind = j t;
  label = k t;
}

delegation_eq_sound : (d e : Delegation) → delegation_eq d e ≡ true → d ≡ e
unfolding delegation_eq
delegation_eq_sound d e h =
    let (h8, label) = both h in
    let (h7, kind) = both h8 in
    let (h6, chain) = both h7 in
    let (h5, issued) = both h6 in
    let (h4, expires) = both h5 in
    let (h3, groups) = both h4 in
    let (h2, scopes) = both h3 in
    let (subject, issuer) = both h2 in
    same_fields d e ((bytes_eq_iff d.subject e.subject).0 subject)
      ((bytes_eq_iff d.issuer e.issuer).0 issuer) (list_eq_sound d.scopes e.scopes scopes)
      (list_eq_sound d.groups e.groups groups)
      (int_eq_sound d.expires_at_ms e.expires_at_ms expires)
      (maybe_int_eq_sound d.issued_at_ms e.issued_at_ms issued)
      (list_eq_sound d.actor_chain e.actor_chain chain) (kind_eq_sound d.kind e.kind kind)
      (label_eq_sound d.label e.label label)

delegation_same : (d : Delegation) → delegation_eq d d ≡ true
unfolding delegation_eq
delegation_same d =
    rw
      (
        bytes_same d.subject,
        bytes_same d.issuer,
        list_same d.scopes,
        list_same d.groups,
        int_same d.expires_at_ms,
        maybe_int_same d.issued_at_ms,
        list_same d.actor_chain,
        kind_same d.kind,
        label_same d.label,
      )
      refl

pub delegation_eq_iff : (d e : Delegation) → (delegation_eq d e ≡ true) ↔ (d ≡ e)
delegation_eq_iff d e = (
  delegation_eq_sound d e,
  λ same. subst (λ (x : Delegation). delegation_eq d x ≡ true) same (delegation_same d),
)
