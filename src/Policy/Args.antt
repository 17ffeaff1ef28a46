-- ===== src/Policy/Args.antt =====
-- crates/obsign-policy/src/engine.rs: the declared arguments of a call. Their declarations are checked
-- when a bundle is loaded, and their values are taken from the call and given a Cedar type.
use obsign.Prelude.{
  ℕ, Bytes, codes, ℤ, Bool, true, false, not, ◌||◌, Option, none, some, List, [], ◌∷◌, ◌++◌, ltb,
  ◌==◌, length, bytes_eq, ok, err, Fallible, ◌>>=◌, decimal, ◌>>◌, refuse_if, if◌then◌else◌,
}
use obsign.Audit.Json.{Json, Elements, null, bool, string, array, nil, cons, count}
use obsign.Policy.Cedar.{Cedar, SerdeJson}
use obsign.Policy.{Result, bundle}
use obsign.Policy.Bundle.{ArgKind, ArgSpec, ToolDef, spec_pointer, is_empty, format_v2}

abbrev pub max_declared_args : ℕ
max_declared_args = 16

abbrev pub max_string_bytes : ℕ
max_string_bytes = 4096

abbrev pub max_set_elements : ℕ
max_set_elements = 64

-- The messages.
unfoldable long_string : Bytes
long_string =
    codes "string exceeds 4096 bytes "
    ++ (226 ∷ 128 ∷ 148 ∷ [])
    ++ codes " policy-relevant arguments are identifiers, not payloads"

unfoldable not_a_string : Bytes
not_a_string = codes "expected a string"

unfoldable not_an_integer : Bytes
not_an_integer = codes "expected an integer (i64 range, floats refused)"

unfoldable not_a_boolean : Bytes
not_a_boolean = codes "expected a boolean"

unfoldable not_strings : Bytes
not_strings = codes "expected an array of strings"

unfoldable long_element : Bytes
long_element = codes "an element exceeds 4096 bytes"

unfoldable many_elements : ℕ → Bytes
unfolding decimal
many_elements n = decimal 20 n ++ codes " elements, maximum is 64"

unfoldable pub absent_arg : Bytes → Bytes
absent_arg name = codes "args: " ++ name ++ codes ": required by policy, absent from the call"

unfoldable pub bad_arg : Bytes → Bytes → Bytes
bad_arg name why = codes "args: " ++ name ++ codes ": " ++ why

unfoldable pub bad_default : Bytes → Bytes → Bytes
bad_default name why = codes "args: " ++ name ++ codes ": default: " ++ why

unfoldable pub unfit_default : Bytes → Bytes → Bytes
unfit_default name why = codes "arg \"" ++ name ++ codes "\": default: " ++ why

-- The `complain` of `validate_arg_specs`.
unfoldable pub complaint : Bytes → Bytes → Bytes
complaint tool why = codes "tool \"" ++ tool ++ codes "\": policy_args: " ++ why

abbrev pub map_err {ℓ} : {A : Type ℓ} → (Bytes → Bytes) → Fallible Bytes A → Fallible Bytes A
map_err text (err why) = err (text why)
map_err text (ok a) = ok a

-- `seen.insert(name)` is false for a name that is there.
unfoldable pub seen_before : Bytes → List Bytes → Bool
seen_before name [] = false
seen_before name (s ∷ seen) = bytes_eq s name || seen_before name seen

abbrev pub is_pointer : Option Bytes → Bool
is_pointer none = true
is_pointer (some []) = false
is_pointer (some (c ∷ rest)) = c == 47

-- The tests on the name and the pointer of a declaration.
unfoldable pub check_shape : ArgSpec → List Bytes → Fallible Bytes (Unit {0})
check_shape spec seen = do
  refuse_if (is_empty spec.name) (codes "an arg has an empty name")
  refuse_if (seen_before spec.name seen) (codes "duplicate arg \"" ++ spec.name ++ codes "\"")
  refuse_if (not (is_pointer spec.at)) (
      codes "arg \""
      ++ spec.name
      ++ codes "\": \""
      ++ elim spec.at [ some at ↦ at | none ↦ [] ]
      ++ codes "\" is not a JSON pointer (must start with '/')")

module _ ⦃cedar : Cedar⦄ where
  -- The loop of `coerce` over the elements of an array.
  unfoldable pub coerce_elements : Elements → Fallible Bytes (List cedar.Expression)
  unfolding long_element not_strings
  coerce_elements nil = ok []
  coerce_elements (cons (string s) vs) = do
    refuse_if (ltb max_string_bytes (length s)) long_element
    set ← coerce_elements vs
    ok (cedar.new_string s ∷ set)
  coerce_elements (cons _ vs) = err not_strings

  unfoldable pub coerce_string : Json → Fallible Bytes cedar.Expression
  unfolding long_string not_a_string
  coerce_string (string s) = do
    refuse_if (ltb max_string_bytes (length s)) long_string
    ok (cedar.new_string s)
  coerce_string _ = err not_a_string

  unfoldable pub coerce_bool : Json → Fallible Bytes cedar.Expression
  unfolding not_a_boolean
  coerce_bool (bool b) = ok (cedar.new_bool b)
  coerce_bool _ = err not_a_boolean

  unfoldable pub coerce_set : Json → Fallible Bytes cedar.Expression
  unfolding coerce_elements many_elements not_strings
  coerce_set (array items) = do
    refuse_if (ltb max_set_elements (count items)) (many_elements (count items))
    set ← coerce_elements items
    ok (cedar.new_set set)
  coerce_set _ = err not_strings

  unfoldable pub coerce_integer : Option ℤ → Fallible Bytes cedar.Expression
  unfolding not_an_integer
  coerce_integer (some n) = ok (cedar.new_long n)
  coerce_integer none = err not_an_integer

  module _ ⦃serde : SerdeJson⦄ where
    unfoldable pub coerce : ArgKind → Json → Fallible Bytes cedar.Expression
    unfolding coerce_string coerce_bool coerce_set coerce_integer
    coerce ArgKind.string v = coerce_string v
    coerce ArgKind.long v = coerce_integer (serde.as_i64 v)
    coerce ArgKind.bool v = coerce_bool v
    coerce ArgKind.string_set v = coerce_set v

    -- `.filter(|v| !v.is_null())`
    abbrev pub not_null : Option Json → Option Json
    not_null none = none
    not_null (some null) = none
    not_null (some v) = some v

    unfoldable pub present : ArgSpec → Json → Option Json
    present spec args = not_null (serde.pointer (spec_pointer spec) args)

    -- The value of one declared argument.
    abbrev pub pick : ArgSpec → Option Json → Option Json → Fallible Bytes cedar.Expression
    pick spec (some v) default = map_err (bad_arg spec.name) (coerce spec.kind v)
    pick spec none (some d) = map_err (bad_default spec.name) (coerce spec.kind d)
    pick spec none none = err (absent_arg spec.name)

    unfoldable pub extract_loop :
        List ArgSpec → Json → Fallible Bytes (List (Bytes × cedar.Expression))
    extract_loop [] args = ok []
    extract_loop (spec ∷ specs) args = do
      expr ← pick spec (present spec args) spec.default
      out ← extract_loop specs args
      ok ((spec.name, expr) ∷ out)

    abbrev pub extract_args : ToolDef → Json → Fallible Bytes (List (Bytes × cedar.Expression))
    extract_args def args = extract_loop def.policy_args args

    abbrev pub check_default : ArgKind → Option Json → Fallible Bytes (Unit {0})
    check_default kind none = ok tt
    check_default kind (some d) = coerce kind d >>= λ e. ok tt

    -- One round of the loop of `validate_arg_specs`, with the names before.
    unfoldable pub check_spec : ArgSpec → List Bytes → Fallible Bytes (Unit {0})
    check_spec spec seen =
        check_shape spec seen
        >> map_err (unfit_default spec.name) (check_default spec.kind spec.default)

    unfoldable pub check_specs : List ArgSpec → List Bytes → Fallible Bytes (Unit {0})
    check_specs [] seen = ok tt
    check_specs (spec ∷ specs) seen = check_spec spec seen >> check_specs specs (spec.name ∷ seen)

    abbrev pub complain : ToolDef → Fallible Bytes (Unit {0}) → Result (Unit {0})
    complain def (ok done) = ok done
    complain def (err why) = err (bundle (complaint def.name why))

    unfoldable pub check_declared : ToolDef → Bytes → Fallible Bytes (Unit {0})
    unfolding decimal
    check_declared def format = do
      refuse_if (not (bytes_eq format format_v2))
          (codes "requires obsign-policy/2, bundle is " ++ format)
      refuse_if (ltb max_declared_args (length def.policy_args))
          (decimal 20 (length def.policy_args) ++ codes " declared args, maximum is 16")
      check_specs def.policy_args []

    unfoldable pub validate_arg_specs : ToolDef → Bytes → Result (Unit {0})
    unfolding check_declared
    validate_arg_specs def format =
        if is_empty def.policy_args then ok tt else complain def (check_declared def format)
