-- ===== src/Gateway/Acts.antt =====
-- crates/obsign-proxy/src/gateway.rs: the messages of the two directions, what the gateway arbitrates
-- of them, and the answers that it gives itself.
use obsign.Prelude.{
  ◌%◌, ◌^◌, Bytes, codes, Bool, true, false, not, ◌||◌, Option, none, some, List, [], ◌∷◌, bytes_eq,
  if◌then◌else◌,
}
use obsign.Crypto.{Crypto}
use obsign.Audit.Json.{Json, null, bool, number, string, array, object, nil, cons, field, end}
use obsign.Audit.Payload.{
  Payload, Outcome, EffectStatus, decision, effect, mcp_access, principal_kind_str,
}
use obsign.Audit.Chain.{content_hash}
use obsign.Policy.Cedar.{Cedar, SerdeJson}
use obsign.Policy.Question.{ToolRequest, Capability}
use obsign.Policy.Engine.{Engine, Verdict}
use obsign.Gateway.Identity.{Delegation, has_human, delegation_depth}

pub record Ctx ⦃api : Cedar⦄ : Type 0 where
  pub engine : Engine
  pub env : Bytes
  pub agent_id : Bytes
  pub bundle_version : Bytes
  pub server_id : Bytes
  -- `CARGO_PKG_VERSION`
  pub version : Bytes

pub data Forward : Type 0 where
  pass : Bytes → Forward
  reply : Bytes → Forward

pub data Act : Type 0 where
  tool : Bytes → Act
  -- the capability, the method and the target
  capability : Capability → Bytes → Bytes → Act
  out_of_scope : Bytes → Act

pub data Downstream : Type 0 where
  forward : Json → Downstream
  answer : Json → Downstream
  drop_ : Downstream

unfoldable pub any_eq : Bytes → List Bytes → Bool
any_eq m [] = false
any_eq m (k ∷ ks) = bytes_eq m k || any_eq m ks

unfoldable pub machinery : Bytes → Bool
machinery m = any_eq m (
    codes "initialize"
    ∷ codes "ping"
    ∷ codes "tools/list"
    ∷ codes "resources/list"
    ∷ codes "resources/templates/list"
    ∷ codes "prompts/list"
    ∷ codes "logging/setLevel"
    ∷ codes "notifications/initialized"
    ∷ codes "notifications/cancelled"
    ∷ codes "notifications/progress"
    ∷ codes "notifications/roots/list_changed"
    ∷ [])

unfoldable pub server_notification : Bytes → Bool
server_notification m = any_eq m (
    codes "notifications/progress"
    ∷ codes "notifications/cancelled"
    ∷ codes "notifications/resources/updated"
    ∷ codes "notifications/resources/list_changed"
    ∷ codes "notifications/tools/list_changed"
    ∷ codes "notifications/prompts/list_changed"
    ∷ [])

abbrev pub arbitrated : Option Bytes → Bool
arbitrated none = false
arbitrated (some m) = not (machinery m)

abbrev pub or_default : Option Bytes → Bytes
or_default none = []
or_default (some s) = s

abbrev pub or_null : Option Json → Json
or_null none = null
or_null (some v) = v

abbrev pub is_null : Json → Bool
is_null null = true
is_null _ = false

abbrev pub blocked : Payload
blocked = effect (record { status = EffectStatus.blocked; result_hash = none; latency_ms = 0 })

abbrev pub decided : Bytes → Verdict → Payload
decided bundle_version v = decision (record {
  outcome = v.outcome;
  policy_id = v.policy_id;
  bundle_version = bundle_version;
  reason = v.reason;
})

abbrev pub denied : Bytes → Verdict
denied why = record { outcome = Outcome.deny; policy_id = none; reason = some why }

-- `{"jsonrpc": "2.0", "id": id, "error": {"code": code, "message": text}}`
abbrev pub json_error : Json → Bytes → Bytes → Json
json_error id code text = object (
    field (codes "jsonrpc") (string (codes "2.0")) (
      field (codes "id") id (
        field (codes "error")
          (object (field (codes "code") (number code) (field (codes "message") (string text) end)))
          end)))

abbrev pub json_refused : Json → Bytes → Json
json_refused id text = object (
    field (codes "jsonrpc") (string (codes "2.0")) (
      field (codes "id") id (
        field (codes "result")
          (object (
            field (codes "content")
              (array (
                cons
                  (object (
                    field (codes "type") (string (codes "text"))
                      (field (codes "text") (string text) end)))
                  nil))
              (field (codes "isError") (bool true) end)))
          end)))

abbrev pub refusal : Act → Json → Bytes → Json
refusal (tool t) id text = json_refused id text
refusal (capability c m t) id text = json_error id (codes "-32000") text
refusal (out_of_scope m) id text = json_error id (codes "-32601") text

module _ ⦃api : Cedar⦄ where
  -- The policy request for one act.
  abbrev pub request : Delegation → Ctx → Bytes → Bytes → Json → ToolRequest
  request deleg ctx session_id target args = record {
    principal = deleg.subject;
    groups = deleg.groups;
    scopes = deleg.scopes;
    server = ctx.server_id;
    tool = target;
    env = ctx.env;
    session_id = session_id;
    actor_chain = deleg.actor_chain;
    has_human_delegation = has_human deleg;
    delegation_depth = delegation_depth deleg % 2 ^ 32;
    principal_kind = principal_kind_str deleg.kind;
    args = args;
  }

  abbrev pub access : ⦃c : Crypto⦄ → Ctx → Bytes → Bytes → Bytes → Payload
  access ctx method target params = mcp_access (record {
    server = ctx.server_id;
    method = method;
    target = target;
    params_hash = content_hash params;
  })

  abbrev pub self_access : ⦃c : Crypto⦄ → Ctx → Bytes → Bytes → Payload
  self_access ctx method params = access ctx method ctx.server_id params

module _ ⦃serde : SerdeJson⦄ where
  abbrev pub refusal_reply : Act → Json → Bytes → Bytes
  refusal_reply act id text = serde.to_string (refusal act id text)

  -- `v.get(key).and_then(Value::as_str)`
  abbrev pub str_in : Bytes → Option Json → Option Bytes
  str_in key none = none
  str_in key (some v) = elim (serde.get key v) [ none ↦ none | some u ↦ serde.as_str u ]

  abbrev pub text_at : Json → Bytes → Bytes
  text_at v key = or_default (str_in key (some v))

  abbrev pub text_of_ref : Option Json → Bytes → Bytes
  text_of_ref r key = or_default (str_in key r)

  -- The act of a completion, by the type of what it refers to.
  abbrev pub completion : Bytes → Option Json → Act
  completion method reference =
      if bytes_eq (or_default (str_in (codes "type") reference)) (codes "ref/prompt")
      then capability Capability.prompt_get method (text_of_ref reference (codes "name"))
      else if bytes_eq (or_default (str_in (codes "type") reference)) (codes "ref/resource")
      then capability Capability.resource_read method (text_of_ref reference (codes "uri"))
      else out_of_scope method

  -- The act of a method, `none` for the machinery.
  unfoldable pub act_of : Bytes → Json → Option Act
  act_of method params =
      if bytes_eq method (codes "tools/call")
      then some (tool (text_at params (codes "name")))
      else if any_eq method (
          codes "resources/read" ∷ codes "resources/subscribe" ∷ codes "resources/unsubscribe" ∷ [])
      then some (capability Capability.resource_read method (text_at params (codes "uri")))
      else if bytes_eq method (codes "prompts/get")
      then some (capability Capability.prompt_get method (text_at params (codes "name")))
      else if bytes_eq method (codes "completion/complete")
      then some (completion method (serde.get (codes "ref") params))
      else if machinery method
      then none
      else some (out_of_scope method)

  -- The method of a message, `none` for a response.
  abbrev pub method_of : Option Json → Option Bytes
  method_of none = none
  method_of (some v) =
      some (elim (serde.as_str v) [ some m ↦ m | none ↦ codes "(non-string method)" ])

  -- `msg.get("id").filter(|v| !v.is_null())`
  abbrev pub answered_id : Option Json → Option Bytes
  answered_id none = none
  answered_id (some v) = if is_null v then none else some (serde.to_string v)
