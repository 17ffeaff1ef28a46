-- ===== src/Policy/Extract.antt =====
-- crates/obsign-policy/src/engine.rs: what the extraction of the declared arguments gives, and when it
-- refuses a call.
use obsign.Prelude.{
  ◌≡◌, refl, subst, inl, inr, Bytes, not, Option, none, some, List, [], ◌∷◌, ltb, length, ok, err,
  Fallible, ◌>>=◌, >>=-eq-ok, >>-eq-ok, Fallible-cases, refuse_if, bytes_eq, if◌then◌else◌,
}
use obsign.Audit.Json.{Json}
use obsign.Policy.Cedar.{Cedar, SerdeJson, SerdeJsonLaws}
use obsign.Policy.Bundle.{ArgSpec, ToolDef, is_empty, format_v2}
use obsign.Policy.Args.{
  max_declared_args, coerce, present, pick, bad_arg, bad_default, map_err, extract_loop,
  extract_args, check_default, check_shape, unfit_default, check_spec, check_specs, check_declared,
  complain, validate_arg_specs,
}
use obsign.Policy.Coercion.{Typed, coerce_bounds}

map_err-eq-ok {ℓ} :
    {A : Type ℓ} (text : Bytes → Bytes) (r : Fallible Bytes A) {a : A}
    → map_err text r ≡ ok a
    → r ≡ ok a
map_err-eq-ok text (ok b) e = e
map_err-eq-ok text (err why) e = absurd cc

-- The value of the call, or else the default.
abbrev pub chosen : Option Json → Option Json → Option Json
chosen (some v) default = some v
chosen none default = default

module _ ⦃api : Cedar⦄ ⦃serde : SerdeJson⦄ where
  -- One typed value for each declared argument, in order, under its name.
  abbrev pub Extracted : Json → List ArgSpec → List (Bytes × api.Expression) → Type 0
  Extracted args [] [] = Unit
  Extracted args (spec ∷ specs) ((name, e) ∷ out) =
      (name ≡ spec.name)
      × ((v : Json) × (chosen (present spec args) spec.default ≡ some v) × Typed spec.kind v e)
      × Extracted args specs out
  Extracted args _ _ = ⊥

  pick_sound :
      (l : SerdeJsonLaws serde) (spec : ArgSpec) (found default : Option Json) {e : api.Expression}
      → pick spec found default ≡ ok e
      → (v : Json) × (chosen found default ≡ some v) × Typed spec.kind v e
  pick_sound l spec (some v) default h =
      (v, refl, coerce_bounds l spec.kind v (map_err-eq-ok _ (coerce spec.kind v) h))
  pick_sound l spec none (some d) h =
      (d, refl, coerce_bounds l spec.kind d (map_err-eq-ok _ (coerce spec.kind d) h))
  pick_sound l spec none none h = absurd cc

  loop_sound :
      (l : SerdeJsonLaws serde) (specs : List ArgSpec) (args : Json)
      {out : List (Bytes × api.Expression)}
      → extract_loop specs args ≡ ok out
      → Extracted args specs out
  unfolding extract_loop
  loop_sound l [] args {out} h = let same : [] ≡ out = cc in subst (Extracted args []) same tt
  loop_sound l (spec ∷ specs) args {out} h =
      let (e, picked, h1) = >>=-eq-ok (pick spec (present spec args) spec.default) _ h in
      let (rest, later, h2) = >>=-eq-ok (extract_loop specs args) _ h1 in
      let same : (spec.name, e) ∷ rest ≡ out = cc in
      subst (Extracted args (spec ∷ specs)) same
        (refl, pick_sound l spec _ _ picked, loop_sound l specs args later)

  -- If the extraction succeeds, then it gives each declared argument once, in the order of the
  -- declarations and under its name, with the value that the call has at its pointer, or else its
  -- default, of the JSON type and within the caps of its kind; and nothing else of the call.
  pub extract_args_sound :
      (l : SerdeJsonLaws serde) (def : ToolDef) (args : Json) {out : List (Bytes × api.Expression)}
      → extract_args def args ≡ ok out
      → Extracted args def.policy_args out
  extract_args_sound l def args h = loop_sound l def.policy_args args h

  -- The default of an argument, where there is one, has its kind.
  abbrev pub DefaultFits : ArgSpec → Type 0
  DefaultFits spec = check_default spec.kind spec.default ≡ ok tt

  abbrev pub AllDefaultsFit : List ArgSpec → Type 0
  AllDefaultsFit [] = Unit
  AllDefaultsFit (spec ∷ specs) = DefaultFits spec × AllDefaultsFit specs

  check_spec-DefaultFits :
      (spec : ArgSpec) (seen : List Bytes) → check_spec spec seen ≡ ok tt → DefaultFits spec
  unfolding check_spec
  check_spec-DefaultFits spec seen h =
      let (shape, fits) = >>-eq-ok (check_shape spec seen) _ h in
      map_err-eq-ok (unfit_default spec.name) (check_default spec.kind spec.default) fits

  check_specs-AllDefaultsFit :
      (specs : List ArgSpec) (seen : List Bytes)
      → check_specs specs seen ≡ ok tt
      → AllDefaultsFit specs
  unfolding check_specs
  check_specs-AllDefaultsFit [] seen h = tt
  check_specs-AllDefaultsFit (spec ∷ specs) seen h =
      let (this, later) = >>-eq-ok (check_spec spec seen) _ h in
      (
        check_spec-DefaultFits spec seen this,
        check_specs-AllDefaultsFit specs (spec.name ∷ seen) later,
      )

  -- Why a call is refused: a declared argument that the call leaves out or has as `null`, and that has
  -- no default; or a value of the call that its kind does not accept.
  pub data Refused (args : Json) : List ArgSpec → Type 0 where
    missing :
        (spec : ArgSpec) (specs : List ArgSpec)
        → present spec args ≡ none
        → spec.default ≡ none
        → Refused args (spec ∷ specs)
    unfit :
        (spec : ArgSpec) (specs : List ArgSpec) (v : Json) (why : Bytes)
        → present spec args ≡ some v
        → coerce spec.kind v ≡ err why
        → Refused args (spec ∷ specs)
    later :
        (spec : ArgSpec) (specs : List ArgSpec) → Refused args specs → Refused args (spec ∷ specs)

  pick_refused :
      (args : Json) (spec : ArgSpec) (specs : List ArgSpec) (found default : Option Json)
      {why : Bytes}
      → present spec args ≡ found
      → spec.default ≡ default
      → check_default spec.kind default ≡ ok tt
      → pick spec found default ≡ err why
      → Refused args (spec ∷ specs)
  pick_refused args spec specs (some v) default at d fits h = value (coerce spec.kind v) refl h
    where
      value :
          (r : Fallible Bytes api.Expression) {why : Bytes}
          → coerce spec.kind v ≡ r
          → map_err (bad_arg spec.name) r ≡ err why
          → Refused args (spec ∷ specs)
      value (ok e) c h = absurd cc
      value (err w) c h = unfit spec specs v w at c
  pick_refused args spec specs none (some d) at e fits h =
      absurd (default_fits (coerce spec.kind d) fits h)
    where
      default_fits :
          (r : Fallible Bytes api.Expression) {why : Bytes}
          → ◌≡◌ {0} (r >>= λ x. ok (tt {0})) (ok tt)
          → map_err (bad_default spec.name) r ≡ err why
          → ⊥
      default_fits (ok x) fits h = cc
      default_fits (err w) fits h = cc
  pick_refused args spec specs none none at e fits h = missing spec specs at e

  loop_refused :
      (specs : List ArgSpec) (args : Json) {why : Bytes}
      → AllDefaultsFit specs
      → extract_loop specs args ≡ err why
      → Refused args specs
  unfolding extract_loop
  loop_refused [] args fits h = absurd cc
  loop_refused (spec ∷ specs) args {why} (fits, rest_fit) h =
      elim (Fallible-cases (pick spec (present spec args) spec.default)) [
        | inr (w, at) ↦ pick_refused args spec specs _ _ refl refl fits at
        | inl (e, at) ↦ elim (Fallible-cases (extract_loop specs args)) [
          | inr (w, rest) ↦ later spec specs (loop_refused specs args rest_fit rest)
          | inl (out, rest) ↦ absurd (cc)
        ]
      ]

  complain-eq-ok :
      (def : ToolDef) (r : Fallible Bytes (Unit {0})) → complain def r ≡ ok tt → r ≡ ok tt
  complain-eq-ok def (ok tt) h = refl
  complain-eq-ok def (err why) h = absurd cc

  validated_defaults :
      (def : ToolDef) (format : Bytes)
      → validate_arg_specs def format ≡ ok tt
      → AllDefaultsFit def.policy_args
  unfolding validate_arg_specs check_declared
  validated_defaults def format h = declared def.policy_args refl h
    where
      declared :
          (specs : List ArgSpec)
          → def.policy_args ≡ specs
          → (if is_empty specs then ok tt else complain def (check_declared def format)) ≡ ok tt
          → AllDefaultsFit specs
      declared [] same h = tt
      declared (spec ∷ specs) same h =
          let checked = complain-eq-ok def (check_declared def format) h in
          let (known, h1) = >>-eq-ok (refuse_if (not (bytes_eq format format_v2)) _) _ checked in
          let (few, h2) =
            >>-eq-ok (refuse_if (ltb max_declared_args (length def.policy_args)) _) _ h1 in
          subst AllDefaultsFit same (check_specs-AllDefaultsFit def.policy_args [] h2)

  -- For a tool whose declarations passed the validation, the extraction refuses a call only for what
  -- the call itself has: an argument that it leaves out, or has as `null`, without a default, or a
  -- value that the kind does not accept; never for a default.
  pub extract_args_refused :
      (def : ToolDef) (format : Bytes) (args : Json) {why : Bytes}
      → validate_arg_specs def format ≡ ok tt
      → extract_args def args ≡ err why
      → Refused args def.policy_args
  extract_args_refused def format args valid h =
      loop_refused def.policy_args args (validated_defaults def format valid) h
