-- ===== src/Audit/Payload.antt =====
-- crates/obsign-audit-core/src/record.rs: the payloads of a record, their discriminants and their
-- canonical encoding.
pub mod Items
pub mod Binding
use obsign.Prelude.{ℕ, Bytes, codes, ℤ, Bool, true, false, Option, none, some, List}
use obsign.Audit.Hash.{Hash}
use obsign.Audit.Canonical.{
  Encoder, ◌▸◌, u8, u64, i64, str, hash, opt_str, opt_u64, opt_hash, str_seq,
}
use obsign.Audit.Json.{Fields, object, encode_json}

pub data ApprovalMode : Type 0 where
  implicit interactive four_eyes : ApprovalMode

abbrev pub approval_mode_str : ApprovalMode → Bytes
approval_mode_str implicit = codes "implicit"
approval_mode_str interactive = codes "interactive"
approval_mode_str four_eyes = codes "four_eyes"

pub record Delegation : Type 0 where
  pub principal_sub : Bytes
  pub principal_issuer : Bytes
  pub scopes : List Bytes
  pub expires_at_ms : ℤ
  pub approved_by : Option Bytes
  pub approval_mode : ApprovalMode

pub data PrincipalKind : Type 0 where
  human delegated_human machine : PrincipalKind

abbrev pub principal_kind_str : PrincipalKind → Bytes
principal_kind_str human = codes "human"
principal_kind_str delegated_human = codes "delegated_human"
principal_kind_str machine = codes "machine"

pub record Actor : Type 0 where
  pub chain : List Bytes
  pub principal_kind : PrincipalKind

pub record AgentSession : Type 0 where
  pub agent_id : Bytes
  pub agent_version : Bytes
  pub config_hash : Hash

pub record LlmTurn : Type 0 where
  pub provider : Bytes
  pub model : Bytes
  pub prompt_hash : Hash
  pub response_hash : Hash
  pub input_tokens : Option ℕ
  pub output_tokens : Option ℕ
  pub cost_micros : Option ℕ

pub record SealedRef : Type 0 where
  pub key_id : Bytes
  pub blob_ref : Bytes

pub record ToolCall : Type 0 where
  pub server : Bytes
  pub tool : Bytes
  pub args_hash : Hash
  pub args_sealed : Option SealedRef

pub record PrincipalLabel : Type 0 where
  pub issuer : Bytes
  pub subject : Bytes
  pub label : Bytes
  pub claim : Bytes

pub record McpAccess : Type 0 where
  pub server : Bytes
  pub method : Bytes
  pub target : Bytes
  pub params_hash : Hash

pub data Outcome : Type 0 where
  allow deny allow_fail_open : Outcome

abbrev pub outcome_str : Outcome → Bytes
outcome_str allow = codes "allow"
outcome_str deny = codes "deny"
outcome_str allow_fail_open = codes "allow_fail_open"

pub record Decision : Type 0 where
  pub outcome : Outcome
  pub policy_id : Option Bytes
  pub bundle_version : Bytes
  pub reason : Option Bytes

pub data EffectStatus : Type 0 where
  ok error blocked timeout : EffectStatus

abbrev pub effect_status_str : EffectStatus → Bytes
effect_status_str ok = codes "ok"
effect_status_str error = codes "error"
effect_status_str blocked = codes "blocked"
effect_status_str timeout = codes "timeout"

pub record Effect : Type 0 where
  pub status : EffectStatus
  pub result_hash : Option Hash
  pub latency_ms : ℕ

pub data ConfigKind : Type 0 where
  identity_bundle policy_bundle deployment_bundle : ConfigKind

abbrev pub config_kind_str : ConfigKind → Bytes
config_kind_str identity_bundle = codes "identity_bundle"
config_kind_str policy_bundle = codes "policy_bundle"
config_kind_str deployment_bundle = codes "deployment_bundle"

pub data ReloadStatus : Type 0 where
  applied rejected : ReloadStatus

abbrev pub reload_status_str : ReloadStatus → Bytes
reload_status_str applied = codes "applied"
reload_status_str rejected = codes "rejected"

pub record ConfigReload : Type 0 where
  pub config_kind : ConfigKind
  pub status : ReloadStatus
  pub bundle_version : Bytes
  pub bundle_hash : Option Hash
  pub reason : Option Bytes

pub record SessionCert : Type 0 where
  pub session_pubkey : Bytes
  pub identity_key_id : Bytes
  pub gateway_id : Bytes
  pub not_before_ms : ℤ
  pub not_after_ms : ℤ
  pub identity_sig : Bytes

pub record UnknownPayload : Type 0 where
  pub kind : Bytes
  pub raw : Fields

pub data Payload : Type 0 where
  delegation : Delegation → Payload
  actor : Actor → Payload
  agent_session : AgentSession → Payload
  llm_turn : LlmTurn → Payload
  tool_call : ToolCall → Payload
  mcp_access : McpAccess → Payload
  principal_label : PrincipalLabel → Payload
  unknown : UnknownPayload → Payload
  decision : Decision → Payload
  effect : Effect → Payload
  config_reload : ConfigReload → Payload
  session_cert : SessionCert → Payload

-- False when this build has no schema for the payload.
abbrev pub is_understood : Payload → Bool
is_understood (unknown _) = false
is_understood _ = true

-- The `kind` discriminant as it stands in JSON.
abbrev pub kind_str : Payload → Bytes
kind_str (delegation _) = codes "delegation"
kind_str (actor _) = codes "actor"
kind_str (agent_session _) = codes "agent_session"
kind_str (llm_turn _) = codes "llm_turn"
kind_str (tool_call _) = codes "tool_call"
kind_str (mcp_access _) = codes "mcp_access"
kind_str (principal_label _) = codes "principal_label"
kind_str (decision _) = codes "decision"
kind_str (effect _) = codes "effect"
kind_str (config_reload _) = codes "config_reload"
kind_str (session_cert _) = codes "session_cert"
kind_str (unknown u) = u.kind

-- The frozen discriminants.
abbrev pub tag : Payload → ℕ
tag (delegation _) = 1
tag (agent_session _) = 2
tag (llm_turn _) = 3
tag (tool_call _) = 4
tag (decision _) = 5
tag (effect _) = 6
tag (actor _) = 7
tag (config_reload _) = 8
tag (session_cert _) = 9
tag (mcp_access _) = 10
tag (principal_label _) = 11
tag (unknown _) = 0

encode_sealed : Option SealedRef → Encoder → Encoder
encode_sealed none e = e ▸ u8 0
encode_sealed (some s) e = e ▸ u8 1 ▸ str s.key_id ▸ str s.blob_ref

-- The `match` of `encode`, after the discriminant.
encode_body : Payload → Encoder → Encoder
unfolding encode_sealed
encode_body (delegation d) e =
    e
    ▸ str d.principal_sub
    ▸ str d.principal_issuer
    ▸ str_seq d.scopes
    ▸ i64 d.expires_at_ms
    ▸ opt_str d.approved_by
    ▸ str (approval_mode_str d.approval_mode)
encode_body (actor a) e = e ▸ str_seq a.chain ▸ str (principal_kind_str a.principal_kind)
encode_body (agent_session a) e = e ▸ str a.agent_id ▸ str a.agent_version ▸ hash a.config_hash
encode_body (llm_turn t) e =
    e
    ▸ str t.provider
    ▸ str t.model
    ▸ hash t.prompt_hash
    ▸ hash t.response_hash
    ▸ opt_u64 t.input_tokens
    ▸ opt_u64 t.output_tokens
    ▸ opt_u64 t.cost_micros
encode_body (tool_call t) e =
    e ▸ str t.server ▸ str t.tool ▸ hash t.args_hash ▸ encode_sealed t.args_sealed
encode_body (decision d) e =
    e ▸ str (outcome_str d.outcome) ▸ opt_str d.policy_id ▸ str d.bundle_version ▸ opt_str d.reason
encode_body (effect x) e =
    e ▸ str (effect_status_str x.status) ▸ opt_hash x.result_hash ▸ u64 x.latency_ms
encode_body (config_reload r) e =
    e
    ▸ str (config_kind_str r.config_kind)
    ▸ str (reload_status_str r.status)
    ▸ str r.bundle_version
    ▸ opt_hash r.bundle_hash
    ▸ opt_str r.reason
encode_body (session_cert s) e =
    e
    ▸ str s.session_pubkey
    ▸ str s.identity_key_id
    ▸ str s.gateway_id
    ▸ i64 s.not_before_ms
    ▸ i64 s.not_after_ms
    ▸ str s.identity_sig
encode_body (mcp_access a) e = e ▸ str a.server ▸ str a.method ▸ str a.target ▸ hash a.params_hash
encode_body (principal_label p) e = e ▸ str p.issuer ▸ str p.subject ▸ str p.label ▸ str p.claim
encode_body (unknown u) e = e ▸ str u.kind ▸ encode_json (object u.raw)

unfoldable pub encode : Payload → Encoder → Encoder
unfolding encode_body
encode p e = encode_body p (e ▸ u8 (tag p))
