-- ===== src/Gateway/Server.antt =====
-- crates/obsign-proxy/src/gateway.rs: `handle_from_server`, which takes a message of the wrapped
-- server.
use obsign.Prelude.{
  ℕ, Bytes, codes, ℤ, Bool, true, false, not, ◌&&◌, Option, none, some, List, [], ◌∷◌, ◌++◌,
  Fallible, ok, err, ltb, length, bytes_eq, lookup, insert, remove, insert_new, if◌then◌else◌,
}
use obsign.Crypto.{Crypto}
use obsign.Audit.Json.{Json, null}
use obsign.Audit.Payload.{Payload, EffectStatus, effect}
use obsign.Audit.Chain.{content_hash}
use obsign.Audit.Record.{Record}
use obsign.Policy.Cedar.{Cedar, SerdeJson}
use obsign.Policy.Question.{
  Capability, sampling, elicitation, notify, resource_read, prompt_get, wrapped_server,
}
use obsign.Policy.Engine.{Verdict, is_allowed, evaluate_listing, evaluate_capability}
use obsign.Gateway.{Host}
use obsign.Gateway.Identity.{Delegation, is_expired}
use obsign.Gateway.Session.{Session, Pending, Writes, ◌>>◌, ignored, write, next_call_id, id_of}
use obsign.Gateway.Acts.{
  Ctx, Downstream, forward, answer, drop_, or_null, is_null, blocked, decided, denied, json_error,
  request, self_access, or_default, str_in, server_notification, answered_id,
}
use obsign.Gateway.Agent.{reason_or_default}

abbrev pub relayed_cap : ℕ
relayed_cap = 1024

-- The channel that a method of the server opens.
pub data Channel : Type 0 where
  asks : Capability → Channel
  relays : Channel
  notifies : Channel
  passes : Channel
  unknown_method : Channel

unfoldable pub channel_of : Bytes → Channel
channel_of m =
    if bytes_eq m (codes "sampling/createMessage")
    then asks sampling
    else if bytes_eq m (codes "elicitation/create")
    then asks elicitation
    else if bytes_eq m (codes "ping")
    then relays
    else if bytes_eq m (codes "roots/list")
    then relays
    else if bytes_eq m (codes "notifications/message")
    then notifies
    else if server_notification m
    then passes
    else unknown_method

-- The refusal that the server sees; a notification cannot be answered.
abbrev pub refuse_server : Json → Bytes → Bytes → Downstream
refuse_server id code text = if is_null id then drop_ else answer (json_error id code text)

unfoldable pub remember : Option Bytes → Session → Session
remember none s = s
remember (some key) s =
    if ltb (length s.relayed_to_agent) relayed_cap
    then record s { relayed_to_agent = insert_new key s.relayed_to_agent }
    else s

abbrev pub delivered : Bool → Payload
delivered allowed = effect (record {
  status = if allowed then EffectStatus.ok else EffectStatus.blocked;
  result_hash = none;
  latency_ms = 0;
})

module _ ⦃api : Cedar⦄ ⦃c : Crypto⦄ ⦃host : Host⦄ ⦃serde : SerdeJson⦄ where
  abbrev pub channel_verdict : Ctx → Capability → Delegation → Bytes → ℤ → Verdict
  channel_verdict ctx which deleg session_id now =
      if is_expired deleg now
      then denied (codes "delegation expired")
      else evaluate_capability ctx.engine which (request deleg ctx session_id wrapped_server null)

  -- The record of the access and the record of the decision.
  unfoldable pub record_access : Ctx → Bytes → Bytes → Verdict → Bytes → Bytes → Writes Record
  record_access ctx method params v call_id decision_id s =
      (write call_id (some s.agent_record_id) (self_access ctx method params)
          >> write decision_id (some call_id) (decided ctx.bundle_version v))
        s

  abbrev pub claim_back :
      Json → Json → Bytes → Bytes → Option Pending → Session → Session × Downstream
  claim_back msg id decision_id effect_id (some p) s = (
    ignored (write effect_id (some decision_id) blocked s),
    refuse_server id (codes "-32000") (
        codes "Request refused: JSON-RPC id "
        ++ serde.to_string id
        ++ codes " is already in flight"),
  )
  claim_back msg id decision_id effect_id none s = (
    record s {
      pending_to_agent =
          insert (serde.to_string id)
            (record {
              decision_record_id = decision_id;
              effect_record_id = effect_id;
              started = host.instant s.chain.next_seq;
            })
            s.pending_to_agent;
    },
    forward msg,
  )

  abbrev pub admit_back : Json → Json → Bytes → Bytes → Session → Session × Downstream
  admit_back msg id decision_id effect_id s =
      if is_null id
      then (s, forward msg)
      else claim_back msg id decision_id effect_id (lookup (serde.to_string id) s.pending_to_agent)
          s

  abbrev pub refusal_back : Ctx → Json → Bool → Verdict → Downstream
  refusal_back ctx id out_of_scope v =
      if out_of_scope
      then refuse_server id (codes "-32601")
          (codes "Method not arbitrated: " ++ reason_or_default v.reason)
      else refuse_server id (codes "-32000") (
          codes "Request refused by policy "
          ++ ctx.bundle_version
          ++ codes ": "
          ++ reason_or_default v.reason)

  -- After the two records, or the error of a write.
  abbrev pub conclude_back :
      Ctx
      → Json
      → Json
      → Bool
      → Verdict
      → Bytes
      → Bytes
      → Session × Fallible Bytes Record
      → Session × Downstream
  conclude_back ctx msg id out_of_scope v decision_id effect_id (s, err e) =
      (s, refuse_server id (codes "-32603") (codes "audit log unavailable"))
  conclude_back ctx msg id out_of_scope v decision_id effect_id (s, ok rec) =
      if is_allowed v then admit_back msg id decision_id effect_id s else (
        ignored (write effect_id (some decision_id) blocked s),
        refusal_back ctx id out_of_scope v,
      )

  unfoldable pub arbitrate_channel :
      Ctx → Json → Bytes → Bool → Verdict → Session → Session × Downstream
  arbitrate_channel ctx msg method out_of_scope v s =
      let params = serde.to_string (or_null (serde.get (codes "params") msg)) in
      let id = or_null (serde.get (codes "id") msg) in
      let (s1, call_id) = next_call_id s in
      let decision_id = id_of (codes "dec-") s1.counter in
      let effect_id = id_of (codes "eff-") s1.counter in
      conclude_back ctx msg id out_of_scope v decision_id effect_id
        (record_access ctx method params v call_id decision_id s1)

  abbrev pub conclude_notification :
      Json → Verdict → Bytes → Bytes → Session × Fallible Bytes Record → Session × Downstream
  conclude_notification msg v decision_id effect_id (s, err e) = (s, drop_)
  conclude_notification msg v decision_id effect_id (s, ok rec) = (
    ignored (write effect_id (some decision_id) (delivered (is_allowed v)) s),
    if is_allowed v then forward msg else drop_,
  )

  unfoldable pub arbitrate_notification : Ctx → Json → Verdict → Session → Session × Downstream
  arbitrate_notification ctx msg v s =
      let params = serde.to_string (or_null (serde.get (codes "params") msg)) in
      let (s1, call_id) = next_call_id s in
      let decision_id = id_of (codes "dec-") s1.counter in
      let effect_id = id_of (codes "eff-") s1.counter in
      conclude_notification msg v decision_id effect_id
        (record_access ctx (codes "notifications/message") params v call_id decision_id s1)

  abbrev pub on_channel :
      Ctx → Json → Bytes → Delegation → Bytes → ℤ → Channel → Session → Session × Downstream
  on_channel ctx msg method deleg session_id now (asks which) s =
      arbitrate_channel ctx msg method false (channel_verdict ctx which deleg session_id now) s
  on_channel ctx msg method deleg session_id now relays s =
      (remember (answered_id (serde.get (codes "id") msg)) s, forward msg)
  on_channel ctx msg method deleg session_id now notifies s =
      arbitrate_notification ctx msg (channel_verdict ctx notify deleg session_id now) s
  on_channel ctx msg method deleg session_id now passes s = (s, forward msg)
  on_channel ctx msg method deleg session_id now unknown_method s =
      arbitrate_channel ctx msg method true
        (denied (codes "server-initiated method outside the arbitrated MCP surface (default-deny)"))
        s

  unfoldable pub handle_server_initiated :
      Ctx → Json → Delegation → Bytes → ℤ → Session → Session × Downstream
  handle_server_initiated ctx msg deleg session_id now s =
      let method = or_default (str_in (codes "method") (some msg)) in
      on_channel ctx msg method deleg session_id now (channel_of method) s

  abbrev pub failed_result : Json → Bool
  failed_result msg = elim (serde.get (codes "error") msg) [
    | some e ↦ true
    | none ↦ elim (serde.get (codes "result") msg) [
      | none ↦ false
      | some r ↦ elim (serde.get (codes "isError") r) [
        | none ↦ false
        | some b ↦ elim (serde.as_bool b) [ some x ↦ x | none ↦ false ]
      ]
    ]
  ]

  abbrev pub result_effect : Json → ℕ → Payload
  result_effect msg latency_ms = effect (record {
    status = if failed_result msg then EffectStatus.error else EffectStatus.ok;
    result_hash = elim (serde.get (codes "result") msg) [
      | some r ↦ some (content_hash (serde.to_string r))
      | none ↦ none
    ];
    latency_ms = latency_ms;
  })

  -- The code takes the lock once for each of these two.
  abbrev pub take_pending : Bytes → Session → Session
  take_pending key s = record s { pending = remove key s.pending }

  abbrev pub write_effect : Json → Pending → Session → Session
  write_effect msg p s = ignored (
      write p.effect_record_id (some p.decision_record_id)
        (result_effect msg (host.elapsed_ms s.chain.next_seq p.started)) s)

  abbrev pub close_found : Json → Bytes → Option Pending → Session → Session
  close_found msg key none s = s
  close_found msg key (some p) s = write_effect msg p (take_pending key s)

  -- The effect that a response of the server closes.
  unfoldable pub close_effect : Json → Option Json → Session → Session
  close_effect msg none s = s
  close_effect msg (some id) s =
      close_found msg (serde.to_string id) (lookup (serde.to_string id) s.pending) s

  -- The listings: the pointer, the name of an item, and who may see it.
  abbrev pub Listing : Type 0
  Listing = Bytes × Bytes × (Bytes → Bool)

  abbrev pub listings : Ctx → Delegation → Bytes → List Listing
  listings ctx deleg session_id =
      (
        codes "/result/tools",
        codes "name",
        λ name. is_allowed (evaluate_listing ctx.engine (request deleg ctx session_id name null)),
      )
      ∷ (
        codes "/result/resources",
        codes "uri",
        λ uri.
            is_allowed (
              evaluate_capability ctx.engine resource_read (request deleg ctx session_id uri null)),
      )
      ∷ (
        codes "/result/prompts",
        codes "name",
        λ name.
            is_allowed
              (evaluate_capability ctx.engine prompt_get (request deleg ctx session_id name null)),
      )
      ∷ []

  unfoldable pub keep_allowed : Bytes → (Bytes → Bool) → List Json → List Json
  keep_allowed id_field allows [] = []
  keep_allowed id_field allows (item ∷ items) =
      let rest = keep_allowed id_field allows items in
      if allows (or_default (str_in id_field (some item))) then item ∷ rest else rest

  abbrev pub array_at : Bytes → Json → Option (List Json)
  array_at pointer msg = elim (serde.pointer pointer msg) [
    | none ↦ none
    | some v ↦ serde.as_array v
  ]

  -- The first listing that the message has is filtered; nothing of it is shown under an expired
  -- delegation.
  unfoldable pub filter_listings : Bool → List Listing → Json → Json
  filter_listings expired [] msg = msg
  filter_listings expired ((pointer, id_field, allows) ∷ rest) msg =
      let others = filter_listings expired rest msg in
      elim (array_at pointer msg) [
        | none ↦ others
        | some items ↦
            serde.set_array pointer
              (keep_allowed id_field (λ name. not expired && allows name) items) msg
      ]

  abbrev pub on_message :
      Ctx → Json → Delegation → Bytes → ℤ → Option Json → Session → Session × Downstream
  on_message ctx msg deleg session_id now (some method) s =
      handle_server_initiated ctx msg deleg session_id now s
  on_message ctx msg deleg session_id now none s = (
    close_effect msg (serde.get (codes "id") msg) s,
    forward (filter_listings (is_expired deleg now) (listings ctx deleg session_id) msg),
  )

  -- Under the delegation in force at a time: the session afterwards, and what becomes of the message.
  unfoldable pub handle_from_server :
      Ctx → Json → Delegation → Bytes → ℤ → Session → Session × Downstream
  handle_from_server ctx msg deleg session_id now s =
      on_message ctx msg deleg session_id now (serde.get (codes "method") msg) s
