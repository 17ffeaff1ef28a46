-- ===== src/Gateway/Agent.antt =====
-- crates/obsign-proxy/src/gateway.rs: `handle_from_agent`, which takes a message of the agent.
use obsign.Prelude.{
  ℕ, Bytes, codes, ℤ, Bool, false, Option, none, some, List, [], ◌++◌, Fallible, ok, err, lookup,
  insert, remove, contains, discard, if◌then◌else◌,
}
use obsign.Crypto.{Crypto}
use obsign.Audit.Json.{Json, null, object, end}
use obsign.Audit.Payload.{Payload, EffectStatus, ConfigReload, tool_call, effect}
use obsign.Audit.Chain.{content_hash}
use obsign.Audit.Record.{Record}
use obsign.Policy.Cedar.{Cedar, SerdeJson}
use obsign.Policy.Engine.{Verdict, is_allowed, evaluate, evaluate_capability}
use obsign.Gateway.{Host}
use obsign.Gateway.Identity.{Delegation}
use obsign.Gateway.Session.{
  Session, Pending, Writes, ◌>>◌, done, ignored, write, next_call_id, id_of, record_config_reloads,
  record_delegation,
}
use obsign.Gateway.Auth.{Provider, Auth, present, refresh, take_reloads}
use obsign.Gateway.Acts.{
  Ctx, Forward, pass, reply, Act, tool, capability, out_of_scope, or_null, is_null, blocked,
  decided, denied, json_error, request, access, self_access, refusal_reply, act_of, method_of,
  answered_id,
}

-- What the lock on the identity gives for one act.
pub record Authority : Type 0 where
  pub deleg : Delegation
  pub generation : ℕ
  pub renewed : Bool
  pub reloads : List ConfigReload
  pub auth_error : Option Bytes

module _ ⦃p : Provider⦄ where
  abbrev pub authority_of : Auth × Fallible Bytes Bool → Auth × Authority
  authority_of (a, ok renewed) =
      let (a', reloads) = take_reloads a in
      (
        a',
        record {
          deleg = a'.current;
          generation = a'.generation;
          renewed = renewed;
          reloads = reloads;
          auth_error = none;
        },
      )
  authority_of (a, err e) =
      let (a', reloads) = take_reloads a in
      (
        a',
        record {
          deleg = a'.current;
          generation = a'.generation;
          renewed = false;
          reloads = reloads;
          auth_error = some e;
        },
      )

  unfoldable pub authenticate : Auth → Option Bytes → ℤ → Auth × Authority
  authenticate a bearer now =
      authority_of (elim bearer [ some token ↦ present a token now | none ↦ refresh a now ])

module _ ⦃api : Cedar⦄ ⦃c : Crypto⦄ ⦃host : Host⦄ ⦃serde : SerdeJson⦄ where
  -- The effect that the answer of the agent closes.
  abbrev pub answer_effect : Json → ℕ → Payload
  answer_effect msg latency_ms = effect (record {
    status = elim (serde.get (codes "error") msg) [
      | some e ↦ EffectStatus.error
      | none ↦ EffectStatus.ok
    ];
    result_hash = elim (serde.get (codes "result") msg) [
      | some r ↦ some (content_hash (serde.to_string r))
      | none ↦ none
    ];
    latency_ms = latency_ms;
  })

  -- The three records of an unsolicited response, in a session that stands at its call.
  abbrev pub record_unsolicited : Ctx → Bytes → Bytes → Writes Record
  record_unsolicited ctx raw call_id s =
      (write call_id (some s.agent_record_id) (self_access ctx (codes "(unsolicited response)") raw)
          >> write (id_of (codes "dec-") s.counter) (some call_id) (
              decided ctx.bundle_version
                (denied (codes "response matches no in-flight server request (default-deny)")))
          >> write (id_of (codes "eff-") s.counter) (some (id_of (codes "dec-") s.counter)) blocked)
        s

  abbrev pub unsolicited_reply : Bytes
  unsolicited_reply = serde.to_string (
      json_error null (codes "-32600")
        (codes "Invalid Request: response matches no in-flight server request"))

  unfoldable pub refuse_response : Ctx → Bytes → Writes Forward
  refuse_response ctx raw s =
      let (s1, call_id) = next_call_id s in
      (record_unsolicited ctx raw call_id >> done (reply unsolicited_reply)) s1

  abbrev pub close_answered : Json → Bytes → Bytes → Pending → Session → Session
  close_answered msg raw key p s = ignored (
      write p.effect_record_id (some p.decision_record_id)
        (answer_effect msg (host.elapsed_ms s.chain.next_seq p.started))
        (record s { pending_to_agent = remove key s.pending_to_agent }))

  abbrev pub answered : Ctx → Json → Bytes → Bytes → Option Pending → Writes Forward
  answered ctx msg raw key (some p) s = (close_answered msg raw key p s, ok (pass raw))
  answered ctx msg raw key none s =
      if contains key s.relayed_to_agent
      then (record s { relayed_to_agent = discard key s.relayed_to_agent }, ok (pass raw))
      else refuse_response ctx raw s

  unfoldable pub handle_response : Ctx → Json → Bytes → Option Bytes → Writes Forward
  handle_response ctx msg raw none s = refuse_response ctx raw s
  handle_response ctx msg raw (some key) s =
      answered ctx msg raw key (lookup key s.pending_to_agent) s

  abbrev pub arguments_of : Json → Json
  arguments_of params = elim (serde.get (codes "arguments") params) [
    | some v ↦ v
    | none ↦ object end
  ]

  abbrev pub policy_verdict : Ctx → Act → Delegation → Bytes → Json → Verdict
  policy_verdict ctx (tool t) deleg session_id params =
      evaluate ctx.engine (request deleg ctx session_id t (arguments_of params))
  policy_verdict ctx (capability which method target) deleg session_id params =
      evaluate_capability ctx.engine which (request deleg ctx session_id target null)
  policy_verdict ctx (out_of_scope method) deleg session_id params =
      denied (codes "method outside the arbitrated MCP surface (default-deny)")

  unfoldable pub verdict_of : Ctx → Act → Authority → Bytes → Json → Verdict
  verdict_of ctx act auth session_id params = elim auth.auth_error [
    | some e ↦ denied e
    | none ↦ policy_verdict ctx act auth.deleg session_id params
  ]

  abbrev pub act_payload : Ctx → Act → Json → Payload
  act_payload ctx (tool t) params = tool_call (record {
    server = ctx.server_id;
    tool = t;
    args_hash = content_hash (serde.to_string (arguments_of params));
    args_sealed = none;
  })
  act_payload ctx (capability which method target) params =
      access ctx method target (serde.to_string params)
  act_payload ctx (out_of_scope method) params = access ctx method [] (serde.to_string params)

  abbrev pub in_flight : Act → Json → Bytes
  in_flight act id = refusal_reply act id (
      codes "Call refused: JSON-RPC id "
      ++ serde.to_string id
      ++ codes " is already awaiting a response on this session")

  abbrev pub reserve : Bytes → Bytes → Bytes → Bytes → Writes Forward
  reserve key raw decision_id effect_id s = (
    record s {
      pending =
          insert key
            (record {
              decision_record_id = decision_id;
              effect_record_id = effect_id;
              started = host.instant s.chain.next_seq;
            })
            s.pending;
    },
    ok (pass raw),
  )

  -- The slot of an id: a call that is in flight keeps it.
  abbrev pub claim : Act → Bytes → Json → Bytes → Bytes → Option Pending → Writes Forward
  claim act raw id decision_id effect_id (some p) =
      write effect_id (some decision_id) blocked >> done (reply (in_flight act id))
  claim act raw id decision_id effect_id none =
      reserve (serde.to_string id) raw decision_id effect_id

  abbrev pub admit : Act → Bytes → Json → Bytes → Bytes → Writes Forward
  admit act raw id decision_id effect_id s =
      if is_null id
      then (s, ok (pass raw))
      else claim act raw id decision_id effect_id (lookup (serde.to_string id) s.pending) s

  abbrev pub reason_or_default : Option Bytes → Bytes
  reason_or_default (some r) = r
  reason_or_default none = codes "refused by policy"

  abbrev pub refused_text : Ctx → Act → Json → Verdict → Bytes
  refused_text ctx act id v = refusal_reply act id (
      codes "Call refused by policy "
      ++ ctx.bundle_version
      ++ codes ": "
      ++ reason_or_default v.reason)

  abbrev pub refuse : Ctx → Act → Json → Bytes → Bytes → Verdict → Writes Forward
  refuse ctx act id decision_id effect_id v =
      write effect_id (some decision_id) blocked >> done (reply (refused_text ctx act id v))

  -- The records of an act, and its end.
  unfoldable pub carry_out : Ctx → Act → Bytes → Json → Json → Verdict → Writes Forward
  carry_out ctx act raw params id v s =
      let (s1, call_id) = next_call_id s in
      let decision_id = id_of (codes "dec-") s1.counter in
      let effect_id = id_of (codes "eff-") s1.counter in
      (write call_id (some s1.agent_record_id) (act_payload ctx act params)
          >> write decision_id (some call_id) (decided ctx.bundle_version v)
          >> (if is_allowed v
              then admit act raw id decision_id effect_id
              else refuse ctx act id decision_id effect_id v))
        s1

  abbrev pub renew : Ctx → Authority → Writes (Unit {0})
  renew ctx auth =
      if auth.renewed
      then record_delegation ctx.version auth.generation auth.deleg ctx.agent_id ctx.bundle_version
      else done tt

  abbrev pub decide : Ctx → Act → Bytes → Json → Json → Authority → Writes Forward
  decide ctx act raw params id auth s =
      carry_out ctx act raw params id (verdict_of ctx act auth s.session_id params) s

  unfoldable pub handle_act : Ctx → Act → Bytes → Json → Json → Authority → Writes Forward
  handle_act ctx act raw params id auth =
      record_config_reloads auth.reloads >> renew ctx auth >> decide ctx act raw params id auth

  module _ ⦃p : Provider⦄ where
    abbrev pub on_act :
        Ctx
        → Json
        → Bytes
        → Json
        → Option Act
        → Auth
        → Option Bytes
        → ℤ
        → Session
        → Auth × (Session × Fallible Bytes Forward)
    on_act ctx msg raw params none a bearer now s = (a, (s, ok (pass raw)))
    on_act ctx msg raw params (some act) a bearer now s =
        let (a', auth) = authenticate a bearer now in
        (a', handle_act ctx act raw params (or_null (serde.get (codes "id") msg)) auth s)

    abbrev pub on_method :
        Ctx
        → Json
        → Option Bytes
        → Auth
        → Option Bytes
        → ℤ
        → Session
        → Auth × (Session × Fallible Bytes Forward)
    on_method ctx msg none a bearer now s = (
      a,
      handle_response ctx msg (serde.to_string msg) (answered_id (serde.get (codes "id") msg)) s,
    )
    on_method ctx msg (some method) a bearer now s =
        let params = or_null (serde.get (codes "params") msg) in
        on_act ctx msg (serde.to_string msg) params (act_of method params) a bearer now s

    -- The identity and the session afterwards, and what becomes of the message.
    unfoldable pub handle_from_agent :
        Ctx → Json → Auth → Option Bytes → ℤ → Session → Auth × (Session × Fallible Bytes Forward)
    handle_from_agent ctx msg a bearer now s =
        on_method ctx msg (method_of (serde.get (codes "method") msg)) a bearer now s
