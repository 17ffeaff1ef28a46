-- ===== src/Audit/Payload/Binding.antt =====
-- The encoding of an understood payload names the payload.
use obsign.Prelude.{◌≡◌, true, Bytes, ◌∷◌, ◌++◌, arith, Option}
use obsign.Audit.Canonical.Items.{byte, SameKinds, flat_all, flat_all-injective}
use obsign.Audit.Payload.Items.{fields, FitsPayload, sealed_pair}
use obsign.Audit.Payload.{
  ApprovalMode, PrincipalKind, Outcome, EffectStatus, ConfigKind, ReloadStatus, SealedRef, Payload,
  delegation, actor, agent_session, llm_turn, tool_call, mcp_access, principal_label, unknown,
  decision, effect, config_reload, session_cert, approval_mode_str, principal_kind_str, outcome_str,
  effect_status_str, config_kind_str, reload_status_str, tag, is_understood,
}

approval_mode_str-injective :
    (a b : ApprovalMode) → approval_mode_str a ≡ approval_mode_str b → a ≡ b
approval_mode_str-injective a b e = ground arith

principal_kind_str-injective :
    (a b : PrincipalKind) → principal_kind_str a ≡ principal_kind_str b → a ≡ b
principal_kind_str-injective a b e = ground arith

outcome_str-injective : (a b : Outcome) → outcome_str a ≡ outcome_str b → a ≡ b
outcome_str-injective a b e = ground arith

effect_status_str-injective :
    (a b : EffectStatus) → effect_status_str a ≡ effect_status_str b → a ≡ b
effect_status_str-injective a b e = ground arith

config_kind_str-injective : (a b : ConfigKind) → config_kind_str a ≡ config_kind_str b → a ≡ b
config_kind_str-injective a b e = ground arith

reload_status_str-injective :
    (a b : ReloadStatus) → reload_status_str a ≡ reload_status_str b → a ≡ b
reload_status_str-injective a b e = ground arith

sealed_pair-injective : (a b : Option SealedRef) → sealed_pair a ≡ sealed_pair b → a ≡ b
sealed_pair-injective a b e = ground arith

-- Payloads of one discriminant have fields of the same kinds.
SameKinds-of_tag :
    (p q : Payload) → is_understood p ≡ true → tag p ≡ tag q → SameKinds (fields p) (fields q)
SameKinds-of_tag (unknown u) q h e = absurd (ground arith)
SameKinds-of_tag (delegation d) (delegation x) h e = omega arith
SameKinds-of_tag (actor d) (actor x) h e = omega arith
SameKinds-of_tag (agent_session d) (agent_session x) h e = omega arith
SameKinds-of_tag (llm_turn d) (llm_turn x) h e = omega arith
SameKinds-of_tag (tool_call d) (tool_call x) h e = omega arith
SameKinds-of_tag (decision d) (decision x) h e = omega arith
SameKinds-of_tag (effect d) (effect x) h e = omega arith
SameKinds-of_tag (config_reload d) (config_reload x) h e = omega arith
SameKinds-of_tag (session_cert d) (session_cert x) h e = omega arith
SameKinds-of_tag (mcp_access d) (mcp_access x) h e = omega arith
SameKinds-of_tag (principal_label d) (principal_label x) h e = omega arith
SameKinds-of_tag _ _ h e = absurd (omega arith)

eq_of_fields :
    (p q : Payload) → is_understood p ≡ true → tag p ≡ tag q → fields p ≡ fields q → p ≡ q
eq_of_fields (unknown u) q h e f = absurd (ground arith)
eq_of_fields (delegation d) (delegation x) h e f =
    ground (arith, approval_mode_str-injective d.approval_mode x.approval_mode)
eq_of_fields (actor d) (actor x) h e f =
    ground (arith, principal_kind_str-injective d.principal_kind x.principal_kind)
eq_of_fields (agent_session d) (agent_session x) h e f = ground arith
eq_of_fields (llm_turn d) (llm_turn x) h e f = ground arith
eq_of_fields (tool_call d) (tool_call x) h e f =
    ground (arith, sealed_pair-injective d.args_sealed x.args_sealed)
eq_of_fields (decision d) (decision x) h e f =
    ground (arith, outcome_str-injective d.outcome x.outcome)
eq_of_fields (effect d) (effect x) h e f =
    ground (arith, effect_status_str-injective d.status x.status)
eq_of_fields (config_reload d) (config_reload x) h e f = ground (
  arith,
  config_kind_str-injective d.config_kind x.config_kind,
  reload_status_str-injective d.status x.status,
)
eq_of_fields (session_cert d) (session_cert x) h e f = ground arith
eq_of_fields (mcp_access d) (mcp_access x) h e f = ground arith
eq_of_fields (principal_label d) (principal_label x) h e f = ground arith
eq_of_fields _ _ h e f = absurd (omega arith)

-- The items of a payload in front of two buffers.
pub payload-injective :
    (p q : Payload) {r s : Bytes}
    → is_understood p ≡ true
    → FitsPayload p
    → FitsPayload q
    → flat_all (byte (tag p) ∷ fields p) ++ r ≡ flat_all (byte (tag q) ∷ fields q) ++ s
    → (p ≡ q) × (r ≡ s)
payload-injective p q {r} {s} h fp fq e =
    let tags : tag p ≡ tag q = ground arith in
    let parts =
      flat_all-injective (fields p) (fields q) r s (SameKinds-of_tag p q h tags) fp fq cc in
    (eq_of_fields p q h tags parts.0, parts.1)
