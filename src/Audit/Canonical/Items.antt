-- ===== src/Audit/Canonical/Items.antt =====
-- The pieces that the encoder writes, as data, and that a sequence of them is read back from its
-- bytes whenever the reader knows which kinds of piece to expect.
use obsign.Prelude.{
  ℕ, ◌^◌, ◌<◌, ◌≡◌, refl, ◌∙◌, sym, ap, Bytes, ℤ, FitsI64, i64_bits, i64_bits-lt,
  i64_bits-injective, Option, none, some, List, [], ◌∷◌, ◌++◌, append-nil, append_assoc, length,
  append-injective, arith,
}
use obsign.Audit.Hash.{Hash, IsHash}
use obsign.Audit.Canonical.{to_be_bytes}
use obsign.Audit.Canonical.Words.{word-injective, prefixed, prefixed-injective}

pub data Item : Type 0 where
  byte : ℕ → Item
  word : ℕ → Item
  signed : ℤ → Item
  text : Bytes → Item
  raw : Hash → Item
  maybe_text : Option Bytes → Item
  maybe_word : Option ℕ → Item
  maybe_raw : Option Hash → Item
  maybe_pair : Option (Bytes × Bytes) → Item
  texts : List Bytes → Item

abbrev pub FitsText : Bytes → Type 0
FitsText b = length b < 2 ^ 32

abbrev pub FitsU64 : ℕ → Type 0
FitsU64 n = n < 2 ^ 64

abbrev pub Each {ℓ κ} : {A : Type ℓ} → (A → Type κ) → List A → Type κ
Each P [] = Unit
Each P (x ∷ xs) = P x × Each P xs

abbrev pub Maybe {ℓ κ} : {A : Type ℓ} → (A → Type κ) → Option A → Type κ
Maybe P none = Unit
Maybe P (some x) = P x

abbrev pub FitsPair : Bytes × Bytes → Type 0
FitsPair (a, b) = FitsText a × FitsText b

abbrev pub FitsTexts : List Bytes → Type 0
FitsTexts ts = (length ts < 2 ^ 64) × Each FitsText ts

-- The value is one of its Rust type, and its length prefix does not wrap.
abbrev pub Fits : Item → Type 0
Fits (byte n) = Unit
Fits (word n) = FitsU64 n
Fits (signed z) = FitsI64 z
Fits (text b) = FitsText b
Fits (raw h) = IsHash h
Fits (maybe_text o) = Maybe FitsText o
Fits (maybe_word o) = Maybe FitsU64 o
Fits (maybe_raw o) = Maybe IsHash o
Fits (maybe_pair o) = Maybe FitsPair o
Fits (texts ts) = FitsTexts ts

-- The two items are of one kind.
abbrev pub SameKind : Item → Item → Type 0
SameKind (byte _) (byte _) = Unit
SameKind (word _) (word _) = Unit
SameKind (signed _) (signed _) = Unit
SameKind (text _) (text _) = Unit
SameKind (raw _) (raw _) = Unit
SameKind (maybe_text _) (maybe_text _) = Unit
SameKind (maybe_word _) (maybe_word _) = Unit
SameKind (maybe_raw _) (maybe_raw _) = Unit
SameKind (maybe_pair _) (maybe_pair _) = Unit
SameKind (texts _) (texts _) = Unit
SameKind _ _ = ⊥

abbrev pub flat_texts : List Bytes → Bytes
flat_texts [] = []
flat_texts (t ∷ ts) = prefixed t ++ flat_texts ts

abbrev pub flat_pair : Bytes × Bytes → Bytes
flat_pair (a, b) = prefixed a ++ prefixed b

-- A presence byte, then the value if there is one.
abbrev pub flat_maybe {ℓ} : {A : Type ℓ} → (A → Bytes) → Option A → Bytes
flat_maybe f none = 0 ∷ []
flat_maybe f (some a) = 1 ∷ f a

abbrev pub flat : Item → Bytes
flat (byte n) = n ∷ []
flat (word n) = to_be_bytes 8 n
flat (signed z) = to_be_bytes 8 (i64_bits z)
flat (text b) = prefixed b
flat (raw h) = h
flat (maybe_text o) = flat_maybe prefixed o
flat (maybe_word o) = flat_maybe (to_be_bytes 8) o
flat (maybe_raw o) = flat_maybe (λ h. h) o
flat (maybe_pair o) = flat_maybe flat_pair o
flat (texts ts) = to_be_bytes 8 (length ts) ++ flat_texts ts

flat_texts-injective :
    (a b : List Bytes) {r s : Bytes}
    → length a ≡ length b
    → Each FitsText a
    → Each FitsText b
    → flat_texts a ++ r ≡ flat_texts b ++ s
    → (a ≡ b) × (r ≡ s)
flat_texts-injective [] [] n fa fb e = (refl, e)
flat_texts-injective [] (y ∷ b) n fa fb e = absurd (omega arith)
flat_texts-injective (x ∷ a) [] n fa fb e = absurd (omega arith)
flat_texts-injective (x ∷ a) (y ∷ b) {r} {s} n fa fb e =
    let head : (x ≡ y) × (flat_texts a ++ r ≡ flat_texts b ++ s) =
      prefixed-injective x y fa.0 fb.0
        (sym (append_assoc (prefixed x) _ r) ∙ e ∙ append_assoc (prefixed y) _ s) in
    let rest : (a ≡ b) × (r ≡ s) = flat_texts-injective a b (omega arith) fa.1 fb.1 head.1 in
    (cc (head.0, rest.0), rest.1)

abbrev IsCode {ℓ κ} : {A : Type ℓ} → (A → Type κ) → (A → Bytes) → Type (ℓ ⊔ κ)
IsCode {A} P f = (a b : A) (r s : Bytes) → P a → P b → f a ++ r ≡ f b ++ s → (a ≡ b) × (r ≡ s)

flat_maybe-IsCode {ℓ κ} :
    {A : Type ℓ} (P : A → Type κ) (f : A → Bytes) → IsCode P f → IsCode (Maybe P) (flat_maybe f)
flat_maybe-IsCode P f inj none none r s p q e = (refl, cc)
flat_maybe-IsCode P f inj none (some b) r s p q e = absurd (ground arith)
flat_maybe-IsCode P f inj (some a) none r s p q e = absurd (ground arith)
flat_maybe-IsCode P f inj (some a) (some b) r s p q e =
    let rest = inj a b r s p q cc in (ap some rest.0, rest.1)

prefixed-IsCode : IsCode FitsText prefixed
prefixed-IsCode a b r s fa fb e = prefixed-injective a b fa fb e

u64-IsCode : IsCode FitsU64 (to_be_bytes 8)
u64-IsCode a b r s fa fb e = word-injective 8 a b fa fb e

IsHash-IsCode : IsCode IsHash (λ h. h)
IsHash-IsCode a b r s fa fb e = append-injective a b (fa ∙ sym fb) e

flat_pair-IsCode : IsCode FitsPair flat_pair
flat_pair-IsCode (a, b) (x, y) r s fa fx e =
    let one : (a ≡ x) × (prefixed b ++ r ≡ prefixed y ++ s) =
      prefixed-injective a x fa.0 fx.0
        (sym (append_assoc (prefixed a) _ r) ∙ e ∙ append_assoc (prefixed x) _ s) in
    let two : (b ≡ y) × (r ≡ s) = prefixed-injective b y fa.1 fx.1 one.1 in
    (cc (one.0, two.0), two.1)

-- One item in front of two buffers.
pub flat-injective :
    (i j : Item) (r s : Bytes)
    → SameKind i j
    → Fits i
    → Fits j
    → flat i ++ r ≡ flat j ++ s
    → (i ≡ j) × (r ≡ s)
flat-injective (byte m) (byte n) r s k fi fj e = (cc, cc)
flat-injective (word m) (word n) r s k fi fj e =
    let p = u64-IsCode m n r s fi fj e in (ap word p.0, p.1)
flat-injective (signed y) (signed z) r s k fi fj e =
    let p = word-injective 8 (i64_bits y) (i64_bits z) (i64_bits-lt y fi) (i64_bits-lt z fj) e in
    (ap signed (i64_bits-injective y z fi fj p.0), p.1)
flat-injective (text a) (text b) r s k fi fj e =
    let p = prefixed-injective a b fi fj e in (ap text p.0, p.1)
flat-injective (raw a) (raw b) r s k fi fj e =
    let p = IsHash-IsCode a b r s fi fj e in (ap raw p.0, p.1)
flat-injective (maybe_text a) (maybe_text b) r s k fi fj e =
    let p = flat_maybe-IsCode FitsText prefixed prefixed-IsCode a b r s fi fj e in
    (ap maybe_text p.0, p.1)
flat-injective (maybe_word a) (maybe_word b) r s k fi fj e =
    let p = flat_maybe-IsCode FitsU64 (to_be_bytes 8) u64-IsCode a b r s fi fj e in
    (ap maybe_word p.0, p.1)
flat-injective (maybe_raw a) (maybe_raw b) r s k fi fj e =
    let p = flat_maybe-IsCode IsHash (λ h. h) IsHash-IsCode a b r s fi fj e in
    (ap maybe_raw p.0, p.1)
flat-injective (maybe_pair a) (maybe_pair b) r s k fi fj e =
    let p = flat_maybe-IsCode FitsPair flat_pair flat_pair-IsCode a b r s fi fj e in
    (ap maybe_pair p.0, p.1)
flat-injective (texts a) (texts b) r s k fi fj e =
    let size : (length a ≡ length b) × (flat_texts a ++ r ≡ flat_texts b ++ s) =
      u64-IsCode (length a) (length b) _ _ fi.0 fj.0 (
        sym (append_assoc (to_be_bytes 8 (length a)) _ r)
        ∙ e
        ∙ append_assoc (to_be_bytes 8 (length b)) _ s) in
    let p : (a ≡ b) × (r ≡ s) = flat_texts-injective a b size.0 fi.1 fj.1 size.1 in
    (ap texts p.0, p.1)
flat-injective _ _ r s k fi fj e = absurd k

abbrev pub SameKinds : List Item → List Item → Type 0
SameKinds [] [] = Unit
SameKinds (i ∷ is) (j ∷ js) = SameKind i j × SameKinds is js
SameKinds _ _ = ⊥

abbrev pub flat_all : List Item → Bytes
flat_all [] = []
flat_all (i ∷ is) = flat i ++ flat_all is

-- A sequence of items in front of two buffers.
pub flat_all-injective :
    (is js : List Item) (r s : Bytes)
    → SameKinds is js
    → Each Fits is
    → Each Fits js
    → flat_all is ++ r ≡ flat_all js ++ s
    → (is ≡ js) × (r ≡ s)
flat_all-injective [] [] r s k fi fj e = (refl, e)
flat_all-injective (i ∷ is) (j ∷ js) r s k fi fj e =
    let one : (i ≡ j) × (flat_all is ++ r ≡ flat_all js ++ s) =
      flat-injective i j _ _ k.0 fi.0 fj.0
        (sym (append_assoc (flat i) _ r) ∙ e ∙ append_assoc (flat j) _ s) in
    let rest : (is ≡ js) × (r ≡ s) = flat_all-injective is js r s k.1 fi.1 fj.1 one.1 in
    (cc (one.0, rest.0), rest.1)
flat_all-injective _ _ r s k fi fj e = absurd k

-- Two sequences of items of the same kinds with one text are one sequence.
pub eq_of_flat_all :
    (is js : List Item)
    → SameKinds is js
    → Each Fits is
    → Each Fits js
    → flat_all is ≡ flat_all js
    → is ≡ js
eq_of_flat_all is js k fi fj e =
    (flat_all-injective is js [] [] k fi fj (append-nil _ ∙ e ∙ sym (append-nil _))).0
