-- ===== src/Audit/Attestation/Signed.antt =====
-- crates/obsign-audit-core/src/attestation.rs: what a parsed statement is a part of.
use obsign.Prelude.{
  ◌≡◌, refl, sym, ap, subst, ◌∙◌, ℕ, zero, suc, Bytes, Bool, true, false, not, List, [], ◌++◌,
  append_assoc, arith, ok, err, >>=-eq-ok, refuse_if-eq-ok, ltb, ◌==◌, length, take, drop,
  take-drop, length-take, if◌then◌else◌,
}
use obsign.Audit.Attestation.{
  Attested, quoted, certified, tpm_generated, st_attest_certify, st_attest_quote, from_be,
  take_bytes, read_uint, tpm2b, bitmap_of, selections, read_certify, read_quote, read_statement,
  skip_header, parse_attest, not_genuine,
}
use obsign.Audit.Error.{Error}

-- The bytes taken stand in front of the rest, and there are as many as asked.
take_bytes_split :
    (n : ℕ) (b : Bytes) {got : Bytes × Bytes}
    → take_bytes n b ≡ ok got
    → (b ≡ got.0 ++ got.1) × (length got.0 ≡ n)
unfolding take_bytes
take_bytes_split n b {got} h =
    let (there, made) = refuse_if-eq-ok (ltb (length b) n) _ (ok (take n b, drop n b)) h in
    let front : take n b ≡ got.0 = cc in
    let back : drop n b ≡ got.1 = cc in
    let whole : b ≡ take n b ++ drop n b = sym (take-drop n b) in
    let long = length-take n b (ground (arith, there)) in (cc, cc)

-- A number stands as its bytes, the high one first.
read_uint_split :
    (n : ℕ) (b : Bytes) {got : ℕ × Bytes}
    → read_uint n b ≡ ok got
    → (raw : Bytes) × (b ≡ raw ++ got.1) × (length raw ≡ n) × (from_be 0 raw ≡ got.0)
unfolding read_uint
read_uint_split n b {got} h =
    let (mid, taken, made) = >>=-eq-ok (take_bytes n b) _ h in
    let (whole, long) = take_bytes_split n b taken in
    let rest : mid.1 ≡ got.1 = cc in
    let value : from_be 0 mid.0 ≡ got.0 = cc in (mid.0, cc, long, value)

-- The second stands at the end of the first.
abbrev EndsIn : Bytes → Bytes → Type 0
EndsIn b rest = (before : Bytes) × (b ≡ before ++ rest)

ends_joined : (b c d : Bytes) → EndsIn b c → EndsIn c d → EndsIn b d
ends_joined b c d (x, p) (y, q) =
    (x ++ y, p ∙ ap (λ (t : Bytes). x ++ t) q ∙ sym (append_assoc x y d))

-- The value stands somewhere in the bytes, behind the two bytes of its length.
abbrev pub Sized : Bytes → Bytes → Type 0
Sized v b =
    (size : Bytes) × (after : Bytes) × EndsIn b (size ++ (v ++ after))
    × (length size ≡ 2)
    × (length v ≡ from_be 0 size)

size_later : (v b c : Bytes) → EndsIn b c → Sized v c → Sized v b
size_later v b c ends (size, after, there, two, long) =
    (size, after, ends_joined b c (size ++ (v ++ after)) ends there, two, long)

take_bytes_ends :
    (n : ℕ) (b : Bytes) {got : Bytes × Bytes} → take_bytes n b ≡ ok got → EndsIn b got.1
take_bytes_ends n b {got} h = (got.0, (take_bytes_split n b h).0)

read_uint_ends : (n : ℕ) (b : Bytes) {got : ℕ × Bytes} → read_uint n b ≡ ok got → EndsIn b got.1
read_uint_ends n b h = let (raw, whole, long, value) = read_uint_split n b h in (raw, whole)

tpm2b-Sized : (b : Bytes) {got : Bytes × Bytes} → tpm2b b ≡ ok got → Sized got.0 b
unfolding tpm2b
tpm2b-Sized b {got} h =
    let (n, sized, taken) = >>=-eq-ok (read_uint 2 b) _ h in
    let (size, whole, two, value) = read_uint_split 2 b sized in
    let (rest, long) = take_bytes_split n.0 n.1 taken in
    let all : b ≡ size ++ (got.0 ++ got.1) = whole ∙ ap (λ (t : Bytes). size ++ t) rest in
    (size, got.1, ([], all), two, long ∙ sym value)

tpm2b_ends : (b : Bytes) {got : Bytes × Bytes} → tpm2b b ≡ ok got → EndsIn b got.1
unfolding tpm2b
tpm2b_ends b {got} h =
    let (n, sized, taken) = >>=-eq-ok (read_uint 2 b) _ h in
    ends_joined b n.1 got.1 (read_uint_ends 2 b sized) (take_bytes_ends n.0 n.1 taken)

skip_header_ends : (b : Bytes) {body : Bytes} → skip_header b ≡ ok body → EndsIn b body
unfolding skip_header
skip_header_ends b {body} h =
    let (signer, s, h1) = >>=-eq-ok (tpm2b b) _ h in
    let (extra, e, h2) = >>=-eq-ok (tpm2b signer.1) _ h1 in
    let (clock, c, h3) = >>=-eq-ok (take_bytes 17 extra.1) _ h2 in
    let (firmware, f, h4) = >>=-eq-ok (take_bytes 8 clock.1) _ h3 in
    let same : firmware.1 ≡ body = cc in
    let last =
      ends_joined extra.1 clock.1 firmware.1 (take_bytes_ends 17 extra.1 c)
        (take_bytes_ends 8 clock.1 f) in
    let two = ends_joined signer.1 extra.1 firmware.1 (tpm2b_ends signer.1 e) last in
    subst (EndsIn b) same (ends_joined b signer.1 firmware.1 (tpm2b_ends b s) two)

selections_ends :
    (n : ℕ) (found : List (ℕ × ℕ)) (b : Bytes) {got : List (ℕ × ℕ) × Bytes}
    → selections n found b ≡ ok got
    → EndsIn b got.1
unfolding selections
selections_ends zero found b {got} h = let same : b ≡ got.1 = cc in ([], same)
selections_ends (suc n) found b {got} h =
    let (alg, a, h1) = >>=-eq-ok (read_uint 2 b) _ h in
    let (size, z, h2) = >>=-eq-ok (read_uint 1 alg.1) _ h1 in
    let (bitmap, m, h3) = >>=-eq-ok (take_bytes size.0 size.1) _ h2 in
    let later = selections_ends n (found ++ bitmap_of alg.0 0 bitmap.0) bitmap.1 h3 in
    let front = ends_joined size.1 bitmap.1 got.1 (take_bytes_ends size.0 size.1 m) later in
    let two = ends_joined alg.1 size.1 got.1 (read_uint_ends 1 alg.1 z) front in
    ends_joined b alg.1 got.1 (read_uint_ends 2 b a) two

-- What a statement of the type `st` says is part of its body.
abbrev pub Backed : Attested → ℕ → Bytes → Type 0
Backed (certified name) st b = (st ≡ st_attest_certify) × Sized name b
Backed (quoted pcr_digest selected) st b = (st ≡ st_attest_quote) × Sized pcr_digest b

back_later :
    (said : Attested) (st : ℕ) (b c : Bytes) → EndsIn b c → Backed said st c → Backed said st b
back_later (certified name) st b c ends (is, held) = (is, size_later name b c ends held)
back_later (quoted pcr selected) st b c ends (is, held) = (is, size_later pcr b c ends held)

read_certify-Backed :
    (st : ℕ) (b : Bytes) {said : Attested}
    → st ≡ st_attest_certify
    → read_certify b ≡ ok said
    → Backed said st b
unfolding read_certify
read_certify-Backed st b {said} is h =
    let (name, n, h1) = >>=-eq-ok (tpm2b b) _ h in
    let (qualified, q, h2) = >>=-eq-ok (tpm2b name.1) _ h1 in
    let same : certified name.0 ≡ said = cc in
    subst (λ (a : Attested). Backed a st b) same (is, tpm2b-Sized b n)

read_quote-Backed :
    (st : ℕ) (b : Bytes) {said : Attested}
    → st ≡ st_attest_quote
    → read_quote b ≡ ok said
    → Backed said st b
unfolding read_quote
read_quote-Backed st b {said} is h =
    let (count, c, h1) = >>=-eq-ok (read_uint 4 b) _ h in
    let (selected, s, h2) = >>=-eq-ok (selections count.0 [] count.1) _ h1 in
    let (pcr, p, h3) = >>=-eq-ok (tpm2b selected.1) _ h2 in
    let same : quoted pcr.0 selected.0 ≡ said = cc in
    let ends =
      ends_joined b count.1 selected.1 (read_uint_ends 4 b c)
        (selections_ends count.0 [] count.1 s) in
    subst (λ (a : Attested). Backed a st b) same
      (is, size_later pcr.0 b selected.1 ends (tpm2b-Sized selected.1 p))

statement_cases :
    (c q : Bool) (st : ℕ) (b : Bytes) (e : Error) {said : Attested}
    → (st == st_attest_certify) ≡ c
    → (st == st_attest_quote) ≡ q
    → (if c then read_certify b else if q then read_quote b else err e) ≡ ok said
    → Backed said st b
statement_cases true q st b e p r h = read_certify-Backed st b (ground (arith, p)) h
statement_cases false true st b e p r h = read_quote-Backed st b (ground (arith, r)) h
statement_cases false false st b e p r h = absurd cc

read_statement-Backed :
    (st : ℕ) (b : Bytes) {said : Attested} → read_statement st b ≡ ok said → Backed said st b
unfolding read_statement
read_statement-Backed st b h =
    statement_cases (st == st_attest_certify) (st == st_attest_quote) st b _ refl refl h

-- A number of `n` bytes, the high one first.
abbrev pub Number : ℕ → ℕ → Bytes → Type 0
Number n value raw = (length raw ≡ n) × (from_be 0 raw ≡ value)

-- If a statement parses, then its bytes begin with the four of the number TPM_GENERATED and the two
-- of its type; it is a certify exactly where this type is 0x8017, and a quote where it is 0x8018; and
-- the name, or the digest of the registers, stands in the bytes behind them as it is, after the two
-- bytes of its length.
pub parse_attest_sound :
    (b : Bytes) {said : Attested}
    → parse_attest b ≡ ok said
    → (magic : Bytes) × (kind : Bytes) × (rest : Bytes) × (b ≡ magic ++ (kind ++ rest))
      × Number 4 tpm_generated magic
      × (length kind ≡ 2)
      × Backed said (from_be 0 kind) rest
unfolding parse_attest
parse_attest_sound b {said} h =
    let (magic, m, h1) = >>=-eq-ok (read_uint 4 b) _ h in
    let (genuine, h2) = refuse_if-eq-ok (not (magic.0 == tpm_generated)) not_genuine _ h1 in
    let (st, s, h3) = >>=-eq-ok (read_uint 2 magic.1) _ h2 in
    let (body, k, h4) = >>=-eq-ok (skip_header st.1) _ h3 in
    let (raw, front, four, value) = read_uint_split 4 b m in
    let (kind, next, two, type) = read_uint_split 2 magic.1 s in
    let ends = skip_header_ends st.1 k in
    let all : b ≡ raw ++ (kind ++ st.1) = front ∙ ap (λ (t : Bytes). raw ++ t) next in
    let is : magic.0 ≡ tpm_generated = ground (arith, genuine) in
    let held =
      subst (λ (n : ℕ). Backed said n body) (sym type) (read_statement-Backed st.0 body h4) in
    (
      raw,
      kind,
      st.1,
      all,
      (four, value ∙ is),
      two,
      back_later said (from_be 0 kind) st.1 body ends held,
    )
