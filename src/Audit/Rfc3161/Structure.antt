-- ===== src/Audit/Rfc3161/Structure.antt =====
-- crates/obsign-audit-core/src/rfc3161.rs: what the reader takes is a part of what it was given.
use obsign.Prelude.{
  ◌≡◌, refl, sym, ap, subst, ◌∙◌, ℕ, suc, ◌⊎◌, inl, inr, ◌+◌, ◌-◌, ◌%◌, ◌≤◌, ◌<◌, Bytes, Bool, true,
  false, not, ◌||◌, [], ◌∷◌, ◌++◌, append_assoc, append-nil, arith, ok, err, >>=-eq-ok, >>-eq-ok,
  refuse_if-eq-ok, ltb, if◌then◌else◌, ◌==◌, length, take, drop, take-drop, length-take,
  length-drop,
}
use obsign.Audit.Error.{Error}
use obsign.Audit.Rfc3161.{fold_be, split_at, tlv, length_of, long_length, expect, finish_der, only}

-- What the bytes of a header behind its tag say of the length of the content: a byte below 128 is the
-- length, and a greater one counts the bytes of the length, four at most. 128 is the indefinite form.
abbrev pub SaysLength : ℕ → ℕ → Bytes → Type 0
SaysLength len n more =
    (n < 128) × (more ≡ []) × (n ≡ len)
    ⊎ (128 < n) × (length more ≡ n % 128) × (length more ≤ 4) × (fold_be 0 more ≡ len)

-- The header of an element with the tag and a content of the length.
abbrev pub IsHeader : ℕ → ℕ → Bytes → Type 0
IsHeader tag len h = (n : ℕ) × (more : Bytes) × (h ≡ tag ∷ n ∷ more) × SaysLength len n more

pub header_length : (tag len : ℕ) (h : Bytes) → IsHeader tag len h → length h ≤ 6
header_length tag len h (n, more, is, inl (small, none_more, value)) =
    omega (arith, ap length is, ap length none_more)
header_length tag len h (n, more, is, inr (large, count, few, value)) =
    omega (arith, ap length is, few)

-- What `length_of` makes of the second byte `n` and the bytes behind it.
abbrev Sizes : ℕ → Bytes → ℕ × ℕ → Type 0
Sizes n more sizes =
    (sizes.1 ≤ suc (suc (length more)))
    × ((h : Bytes) × ((tag : ℕ) → take sizes.1 (tag ∷ n ∷ more) ≡ tag ∷ n ∷ h)
        × SaysLength sizes.0 n h)

long_length-Sizes :
    (tag n : ℕ) (more : Bytes) {sizes : ℕ × ℕ}
    → 128 < n
    → long_length (n % 128) (tag ∷ n ∷ more) ≡ ok sizes
    → Sizes n more sizes
unfolding long_length
long_length-Sizes tag n more {sizes} large h =
    let k = n % 128 in
    let (fits, made) = refuse_if-eq-ok (ltb 4 k || ltb (length (tag ∷ n ∷ more)) (2 + k)) _ _ h in
    let header : 2 + k ≡ sizes.1 = cc in
    let value : fold_be 0 (take k more) ≡ sizes.0 = cc in
    let whole : suc (suc k) ≡ sizes.1 = omega (arith, header) in
    let few : k ≤ 4 = ground (arith, fits) in
    let there : k ≤ length more = ground (arith, fits) in
    let exact = length-take k more there in
    (
      omega (arith, header, there),
      (
        take k more,
        λ tag. ap (λ (m : ℕ). take m (tag ∷ n ∷ more)) (sym whole),
        inr (large, exact, omega (arith, exact, few), value),
      ),
    )

length_of-Sizes :
    (tag n : ℕ) (more : Bytes) (short indefinite : Bool) (e : Error) {sizes : ℕ × ℕ}
    → ltb n 0x80 ≡ short
    → (n == 0x80) ≡ indefinite
    → (if short
        then ok (n, 2)
        else if indefinite
        then err e
        else long_length (n % 0x80) (tag ∷ n ∷ more))
      ≡ ok sizes
    → Sizes n more sizes
length_of-Sizes tag n more true indefinite e {sizes} s i h =
    let two : 2 ≡ sizes.1 = cc in
    let value : n ≡ sizes.0 = cc in
    (
      omega (arith, two),
      (
        [],
        λ tag. ap (λ (m : ℕ). take m (tag ∷ n ∷ more)) (sym two),
        inl (ground (arith, s), refl, value),
      ),
    )
length_of-Sizes tag n more false true e s i h = absurd cc
length_of-Sizes tag n more false false e s i h =
    long_length-Sizes tag n more (ground (arith, s, i)) h

-- The header of an element stands before its content, and the rest behind it.
abbrev pub Element : ℕ → Bytes → Bytes → Bytes → Type 0
Element tag b v rest = (h : Bytes) × (b ≡ h ++ v ++ rest) × IsHeader tag (length v) h

split_at-Element :
    (tag n : ℕ) (more : Bytes) (sizes : ℕ × ℕ) {t : ℕ} {v rest : Bytes}
    → Sizes n more sizes
    → split_at tag sizes.0 sizes.1 (tag ∷ n ∷ more) ≡ ok ((t, v), rest)
    → (t ≡ tag) × Element tag (tag ∷ n ∷ more) v rest
unfolding split_at
split_at-Element tag n more (len, header) {t} {v} {rest} (there, (more_h, is, says)) h =
    let b = tag ∷ n ∷ more in
    let (room, made) = refuse_if-eq-ok (ltb (length b - header) len) _ _ h in
    let content : take len (drop header b) ≡ v = cc in
    let behind : drop len (drop header b) ≡ rest = cc in
    let same_tag : tag ≡ t = cc in
    let fits : len ≤ length (drop header b) = ground (arith, room, length-drop header b) in
    let size : len ≡ length v = sym (length-take len (drop header b) fits) ∙ ap length content in
    let parts : b ≡ take header b ++ v ++ rest =
      sym (take-drop header b)
      ∙ ap (λ (x : Bytes). take header b ++ x)
          (sym (take-drop len (drop header b))
            ∙ ap (λ (x : Bytes). x ++ drop len (drop header b)) content
            ∙ ap (λ (x : Bytes). v ++ x) behind)
      ∙ sym (append_assoc (take header b) v rest) in
    (
      sym same_tag,
      (
        take header b,
        parts,
        (n, more_h, is tag, subst (λ (x : ℕ). SaysLength x n more_h) size says),
      ),
    )

tlv-Element : (b : Bytes) {t : ℕ} {v rest : Bytes} → tlv b ≡ ok ((t, v), rest) → Element t b v rest
unfolding tlv length_of
tlv-Element [] h = absurd cc
tlv-Element (tag ∷ []) h = absurd cc
tlv-Element (tag ∷ n ∷ more) {t} {v} {rest} h =
    let b = tag ∷ n ∷ more in
    let (single, h1) = refuse_if-eq-ok (tag % 32 == 31) _ _ h in
    let (sizes, e, h2) = >>=-eq-ok (length_of n b) _ h1 in
    let found = length_of-Sizes tag n more (ltb n 0x80) (n == 0x80) _ refl refl e in
    let (same, element) = split_at-Element tag n more sizes found h2 in
    subst (λ (x : ℕ). Element x b v rest) (sym same) element

pub expect-Element :
    (tag : ℕ) (what b : Bytes) {v rest : Bytes}
    → expect tag what b ≡ ok (v, rest)
    → Element tag b v rest
unfolding expect
expect-Element tag what b {v} {rest} h =
    let (element, e, h1) = >>=-eq-ok (tlv b) _ h in
    let (is_tag, made) = refuse_if-eq-ok (not (element.0.0 == tag)) _ _ h1 in
    let content : element.0.1 ≡ v = cc in
    let behind : element.1 ≡ rest = cc in
    let tagged : element.0.0 ≡ tag = ground (arith, is_tag) in
    subst (λ (t : ℕ). Element t b v rest) tagged
      (subst (λ (x : Bytes). Element element.0.0 b v x) behind
        (subst (λ (x : Bytes). Element element.0.0 b x element.1) content (tlv-Element b e)))

-- A part of a byte string.
abbrev pub Inside : Bytes → Bytes → Type 0
Inside v b = (before : Bytes) × (after : Bytes) × (b ≡ before ++ v ++ after)

pub Inside-trans : (u v w : Bytes) → Inside u v → Inside v w → Inside u w
Inside-trans u v w (b, a, e) (b2, a2, e2) =
    (b2 ++ b, a ++ a2, e2 ∙ ap (λ (x : Bytes). b2 ++ x ++ a2) e ∙ simp append_assoc refl)

pub content-Inside : {tag : ℕ} (b v rest : Bytes) → Element tag b v rest → Inside v b
content-Inside b v rest (h, e, is) = (h, rest, e)

pub rest-Inside : {tag : ℕ} (b v rest : Bytes) → Element tag b v rest → Inside rest b
rest-Inside b v rest (h, e, is) = (h ++ v, [], e ∙ sym (append-nil (h ++ v ++ rest)))

finish_der_empty : (what rest : Bytes) → finish_der what rest ≡ ok tt → rest ≡ []
unfolding finish_der
finish_der_empty what [] h = refl
finish_der_empty what (x ∷ rest) h = absurd cc

-- A container that is closed is a header and its content.
abbrev pub Whole : ℕ → Bytes → Bytes → Type 0
Whole tag b v = (h : Bytes) × (b ≡ h ++ v) × IsHeader tag (length v) h

pub only-Whole :
    (tag : ℕ) (what closing b : Bytes) {v : Bytes} → only tag what closing b ≡ ok v → Whole tag b v
only-Whole tag what closing b {v} h =
    let (r, e, h1) = >>=-eq-ok (expect tag what b) _ h in
    let (closed, h2) = >>-eq-ok (finish_der closing r.1) _ h1 in
    let same : r.0 ≡ v = cc in
    let (header, parts, is) = expect-Element tag what b e in
    let whole : b ≡ header ++ r.0 =
      parts
      ∙ ap (λ (x : Bytes). header ++ r.0 ++ x) (finish_der_empty closing r.1 closed)
      ∙ append-nil (header ++ r.0) in
    subst (λ (x : Bytes). Whole tag b x) same (header, whole, is)

pub only-Inside :
    (tag : ℕ) (what closing b : Bytes) {v : Bytes} → only tag what closing b ≡ ok v → Inside v b
only-Inside tag what closing b {v} h =
    let (header, parts, is) = only-Whole tag what closing b h in
    (header, [], parts ∙ sym (append-nil (header ++ v)))
