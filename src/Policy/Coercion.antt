-- ===== src/Policy/Coercion.antt =====
-- crates/obsign-policy/src/engine.rs: the values that `coerce` accepts.
use obsign.Prelude.{
  ◌≡◌, refl, subst, sym, ap, ◌∙◌, ℕ, ◌≤◌, Bytes, ℤ, FitsI64, Bool, Option, none, some, List, [],
  ◌∷◌, map, arith, ltb, length, ok, >>=-eq-ok, >>-eq-ok, refuse_if,
}
use obsign.Audit.Json.{Json, Elements, null, bool, number, string, array, object, nil, cons, count}
use obsign.Policy.Cedar.{Cedar, SerdeJson, SerdeJsonLaws}
use obsign.Policy.Bundle.{ArgKind}
use obsign.Policy.Args.{
  coerce_elements, coerce_string, coerce_bool, coerce_set, coerce_integer, coerce, max_string_bytes,
  max_set_elements,
}

refuse_if_over : (m n : ℕ) (why : Bytes) → refuse_if (ltb m n) why ≡ ok tt → n ≤ m
refuse_if_over m n why e = ground arith

-- The strings of an array, where it has only strings.
abbrev pub Strings : Elements → List Bytes → Type 0
Strings nil [] = Unit
Strings (cons (string s) vs) (t ∷ ts) = (s ≡ t) × Strings vs ts
Strings _ _ = ⊥

abbrev pub AllShort : List Bytes → Type 0
AllShort [] = Unit
AllShort (s ∷ ss) = (length s ≤ max_string_bytes) × AllShort ss

length-Strings : (items : Elements) (ss : List Bytes) → Strings items ss → length ss ≡ count items
length-Strings nil [] h = refl
length-Strings (cons (string s) vs) (t ∷ ts) (e, h) = omega (arith, length-Strings vs ts h)
length-Strings nil (t ∷ ts) h = absurd h
length-Strings (cons null vs) ts h = absurd h
length-Strings (cons (bool b) vs) ts h = absurd h
length-Strings (cons (number b) vs) ts h = absurd h
length-Strings (cons (array b) vs) ts h = absurd h
length-Strings (cons (object b) vs) ts h = absurd h
length-Strings (cons (string s) vs) [] h = absurd h

module _ ⦃api : Cedar⦄ where
  coerce_elements_sound :
      (items : Elements) {out : List api.Expression}
      → coerce_elements items ≡ ok out
      → (ss : List Bytes) × Strings items ss × AllShort ss × (out ≡ map api.new_string ss)
  unfolding coerce_elements
  coerce_elements_sound nil {out} e = ([], tt, tt, cc)
  coerce_elements_sound (cons (string s) vs) {out} e =
      let (short, h) = >>-eq-ok (refuse_if (ltb max_string_bytes (length s)) _) _ e in
      let (set, rest, made) = >>=-eq-ok (coerce_elements vs) _ h in
      let (ss, strings, all_short, same) = coerce_elements_sound vs rest in
      let front : api.new_string s ∷ set ≡ out = cc in
      (
        s ∷ ss,
        (refl, strings),
        (refuse_if_over max_string_bytes (length s) _ short, all_short),
        sym front ∙ ap (◌∷◌ (api.new_string s)) same,
      )
  coerce_elements_sound (cons null vs) e = absurd cc
  coerce_elements_sound (cons (bool b) vs) e = absurd cc
  coerce_elements_sound (cons (number b) vs) e = absurd cc
  coerce_elements_sound (cons (array b) vs) e = absurd cc
  coerce_elements_sound (cons (object b) vs) e = absurd cc

  module _ ⦃serde : SerdeJson⦄ where
    -- The values of each kind, with their caps, and what Cedar gets for them.
    pub data Typed : ArgKind → Json → api.Expression → Type 0 where
      typed_string :
          (s : Bytes)
          → length s ≤ max_string_bytes
          → Typed ArgKind.string (string s) (api.new_string s)
      typed_long :
          (v : Json) (n : ℤ)
          → serde.as_i64 v ≡ some n
          → FitsI64 n
          → Typed ArgKind.long v (api.new_long n)
      typed_bool : (b : Bool) → Typed ArgKind.bool (bool b) (api.new_bool b)
      typed_set :
          (items : Elements) (ss : List Bytes)
          → Strings items ss
          → length ss ≤ max_set_elements
          → AllShort ss
          → Typed ArgKind.string_set (array items) (api.new_set (map api.new_string ss))

    retype :
        (kind : ArgKind) (v : Json) {e f : api.Expression} → e ≡ f → Typed kind v e → Typed kind v f
    retype kind v same t = subst (Typed kind v) same t

    string_sound :
        (v : Json) {e : api.Expression} → coerce_string v ≡ ok e → Typed ArgKind.string v e
    unfolding coerce_string
    string_sound (string s) {e} h =
        let (short, made) = >>-eq-ok (refuse_if (ltb max_string_bytes (length s)) _) _ h in
        let same : api.new_string s ≡ e = cc in
        retype ArgKind.string (string s) same
          (typed_string s (refuse_if_over max_string_bytes (length s) _ short))
    string_sound null h = absurd cc
    string_sound (bool b) h = absurd cc
    string_sound (number b) h = absurd cc
    string_sound (array b) h = absurd cc
    string_sound (object b) h = absurd cc

    bool_sound : (v : Json) {e : api.Expression} → coerce_bool v ≡ ok e → Typed ArgKind.bool v e
    unfolding coerce_bool
    bool_sound (bool b) {e} h =
        let same : api.new_bool b ≡ e = cc in retype ArgKind.bool (bool b) same (typed_bool b)
    bool_sound null h = absurd cc
    bool_sound (string b) h = absurd cc
    bool_sound (number b) h = absurd cc
    bool_sound (array b) h = absurd cc
    bool_sound (object b) h = absurd cc

    set_sound : (v : Json) {e : api.Expression} → coerce_set v ≡ ok e → Typed ArgKind.string_set v e
    unfolding coerce_set
    set_sound (array items) {e} h =
        let (few, h1) = >>-eq-ok (refuse_if (ltb max_set_elements (count items)) _) _ h in
        let (set, elements, made) = >>=-eq-ok (coerce_elements items) _ h1 in
        let (ss, strings, all_short, same) = coerce_elements_sound items elements in
        let whole : api.new_set set ≡ e = cc in
        let fits = refuse_if_over max_set_elements (count items) _ few in
        retype ArgKind.string_set (array items) (ap api.new_set (sym same) ∙ whole) (
          typed_set items ss strings (omega (arith, length-Strings items ss strings, fits))
            all_short)
    set_sound null h = absurd cc
    set_sound (bool b) h = absurd cc
    set_sound (string b) h = absurd cc
    set_sound (number b) h = absurd cc
    set_sound (object b) h = absurd cc

    integer_sound :
        (l : SerdeJsonLaws serde) (v : Json) (o : Option ℤ) {e : api.Expression}
        → serde.as_i64 v ≡ o
        → coerce_integer o ≡ ok e
        → Typed ArgKind.long v e
    unfolding coerce_integer
    integer_sound l v (some n) {e} read h =
        let same : api.new_long n ≡ e = cc in
        retype ArgKind.long v same (typed_long v n read (l.as_i64-FitsI64 v read))
    integer_sound l v none read h = absurd cc

    -- A value that `coerce` accepts has the JSON type of its kind: a string of at most 4096 bytes, an
    -- integer in the range of an `i64`, a boolean, or an array of at most 64 strings of at most 4096
    -- bytes each; and Cedar gets this value itself.
    pub coerce_bounds :
        (l : SerdeJsonLaws serde) (kind : ArgKind) (v : Json) {e : api.Expression}
        → coerce kind v ≡ ok e
        → Typed kind v e
    unfolding coerce
    coerce_bounds l ArgKind.string v h = string_sound v h
    coerce_bounds l ArgKind.long v h = integer_sound l v _ refl h
    coerce_bounds l ArgKind.bool v h = bool_sound v h
    coerce_bounds l ArgKind.string_set v h = set_sound v h
