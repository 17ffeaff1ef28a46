-- ===== src/Policy/Load.antt =====
-- crates/obsign-policy/src/engine.rs: loading a verified bundle into an engine.
use obsign.Prelude.{Bytes, codes, List, [], ◌∷◌, ◌++◌, ok, err, Fallible, ◌>>=◌, ◌>>◌, ok_or, Map}
use obsign.Policy.Cedar.{Cedar, SerdeJson}
use obsign.Policy.{Error, Result, cedar}
use obsign.Policy.Bundle.{ToolDef, Bundle}
use obsign.Policy.Args.{validate_arg_specs}
use obsign.Policy.Engine.{Engine}

-- `map_err(|e| Error::Cedar(format!(...)))`, with the text before the error.
abbrev pub cedar_says {ℓ} : {A : Type ℓ} → Bytes → Fallible Bytes A → Result A
cedar_says before (ok a) = ok a
cedar_says before (err why) = err (cedar (before ++ why))

unfoldable no_id : Bytes → Error
no_id id = cedar (
    codes "rule \""
    ++ id
    ++ codes "\" has no @id annotation: a stable identifier is mandatory "
    ++ codes "for the audit log to stay usable")

-- Collected into a `HashMap`: a later tool replaces an earlier one of its name.
unfoldable pub catalogue : List ToolDef → Map ToolDef → Map ToolDef
catalogue [] m = m
catalogue (t ∷ ts) m = catalogue ts ((t.name, t) ∷ m)

module _ ⦃api : Cedar⦄ where
  -- The rules under the ids of their `@id` annotations.
  unfoldable pub rename : List api.Policy → Result (List api.Policy)
  unfolding no_id
  rename [] = ok []
  rename (p ∷ ps) = do
    stable ← ok_or (api.annotation p (codes "id")) (no_id (api.id p))
    id ←
        cedar_says (codes "invalid @id(\"" ++ stable ++ codes "\"): ")
          (api.policy_id_from_str stable)
    renamed ← rename ps
    ok (api.new_id p id ∷ renamed)

  module _ ⦃serde : SerdeJson⦄ where
    unfoldable pub validate_tools : List ToolDef → Bytes → Result (Unit {0})
    validate_tools [] format = ok tt
    validate_tools (t ∷ ts) format = validate_arg_specs t format >> validate_tools ts format

    unfoldable pub load : Bundle → Result Engine
    load b = do
      parsed ← cedar_says (codes "unreadable policies: ") (api.policy_set_from_str b.cedar)
      renamed ← rename (api.policies parsed)
      policies ←
          cedar_says (codes "conflicting or invalid @id values: ") (api.from_policies renamed)
      validate_tools b.tools b.format
      ok (record {
        policies = policies;
        tools = catalogue b.tools [];
        version = b.version;
        fail_mode = b.fail_mode;
      })
