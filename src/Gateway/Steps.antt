-- ===== src/Gateway/Steps.antt =====
-- crates/obsign-proxy/src/gateway.rs: the session as the messages of both sides move it.
use obsign.Prelude.{
  ◌≡◌, refl, ◌∙◌, ◌≤◌, ℤ, Bytes, codes, Bool, true, false, Option, none, some, List, Fallible, ok,
  err, lookup, remove, length, if◌then◌else◌, arith,
}
use obsign.Crypto.{Crypto}
use obsign.Audit.Json.{Json}
use obsign.Audit.Record.{Record}
use obsign.Audit.Chain.{ChainWriter}
use obsign.Audit.Origin.{SignedRecord}
use obsign.Policy.Cedar.{Cedar, SerdeJson}
use obsign.Policy.Engine.{Verdict, is_allowed}
use obsign.Gateway.{Host}
use obsign.Gateway.Identity.{Delegation}
use obsign.Gateway.Session.{
  Session, Pending, OriginSigner, ignored, write, next_call_id, open_session, id_of,
}
use obsign.Gateway.Auth.{Provider, Auth}
use obsign.Gateway.Acts.{
  Ctx, Downstream, or_null, answered_id, blocked, decided, self_access, is_null, or_default, str_in,
}
use obsign.Gateway.Agent.{handle_from_agent}
use obsign.Gateway.Server.{
  relayed_cap, delivered, record_access, claim_back, admit_back, refusal_back, conclude_back,
  arbitrate_channel, conclude_notification, arbitrate_notification, Channel, asks, relays, notifies,
  passes, unknown_method, channel_of, on_channel, handle_server_initiated, close_found,
  close_effect, on_message, handle_from_server, take_pending, write_effect,
}
use obsign.Gateway.Bounds.{
  IsBounded, Keeps, Keeps->>, write-Keeps, remember-IsBounded, kept-IsBounded, agent-IsBounded,
}

-- Leaves the relayed ids alone.
abbrev Same : Session → Session → Type 0
Same s s' = s'.relayed_to_agent ≡ s.relayed_to_agent

module _ ⦃api : Cedar⦄ ⦃c : Crypto⦄ ⦃host : Host⦄ ⦃serde : SerdeJson⦄ where
  record_access-Keeps :
      (ctx : Ctx) (method params : Bytes) (v : Verdict) (call_id decision_id : Bytes)
      → Keeps (record_access ctx method params v call_id decision_id)
  unfolding record_access
  record_access-Keeps ctx method params v call_id decision_id s =
      Keeps->> (write call_id (some s.agent_record_id) (self_access ctx method params))
        (write decision_id (some call_id) (decided ctx.bundle_version v)) (write-Keeps call_id _ _)
        (write-Keeps decision_id _ _) s

  claim_back-Same :
      (msg id : Json) (d e : Bytes) (o : Option Pending) (s : Session)
      → Same s (claim_back msg id d e o s).0
  claim_back-Same msg id d e (some p) s = write-Keeps e (some d) blocked s
  claim_back-Same msg id d e none s = refl

  admit_back-Same :
      (msg id : Json) (d e : Bytes) (b : Bool) (s : Session)
      → Same s
          (if b
            then (s, Downstream.forward msg)
            else claim_back msg id d e (lookup (serde.to_string id) s.pending_to_agent) s).0
  admit_back-Same msg id d e true s = refl
  admit_back-Same msg id d e false s =
      claim_back-Same msg id d e (lookup (serde.to_string id) s.pending_to_agent) s

  conclude_back-Same :
      (ctx : Ctx) (msg id : Json) (b : Bool) (v : Verdict) (d e : Bytes)
      (r : Session × Fallible Bytes Record)
      → Same r.0 (conclude_back ctx msg id b v d e r).0
  conclude_back-Same ctx msg id b v d e (s, err why) = refl
  conclude_back-Same ctx msg id b v d e (s, ok rec) = allowed (is_allowed v)
    where
      allowed :
          (a : Bool)
          → Same s
              (if a
                then admit_back msg id d e s
                else (ignored (write e (some d) blocked s), refusal_back ctx id b v)).0
      allowed true = admit_back-Same msg id d e (is_null id) s
      allowed false = write-Keeps e (some d) blocked s

  channel-Same :
      (ctx : Ctx) (msg : Json) (method : Bytes) (b : Bool) (v : Verdict) (s : Session)
      → Same s (arbitrate_channel ctx msg method b v s).0
  unfolding arbitrate_channel next_call_id
  channel-Same ctx msg method b v s =
      let (s1, call_id) = next_call_id s in
      let d = id_of (codes "dec-") s1.counter in
      let params = serde.to_string (or_null (serde.get (codes "params") msg)) in
      conclude_back-Same ctx msg _ b v d _ (record_access ctx method params v call_id d s1)
      ∙ record_access-Keeps ctx method params v call_id d s1

  concluded :
      (msg : Json) (v : Verdict) (d e : Bytes) (r : Session × Fallible Bytes Record)
      → Same r.0 (conclude_notification msg v d e r).0
  concluded msg v d e (s2, ok rec) = write-Keeps e (some d) (delivered (is_allowed v)) s2
  concluded msg v d e (s2, err why) = refl

  notification-Same :
      (ctx : Ctx) (msg : Json) (v : Verdict) (s : Session)
      → Same s (arbitrate_notification ctx msg v s).0
  unfolding arbitrate_notification next_call_id
  notification-Same ctx msg v s =
      let (s1, call_id) = next_call_id s in
      let d = id_of (codes "dec-") s1.counter in
      let e = id_of (codes "eff-") s1.counter in
      let params = serde.to_string (or_null (serde.get (codes "params") msg)) in
      let method = codes "notifications/message" in
      concluded msg v d e (record_access ctx method params v call_id d s1)
      ∙ record_access-Keeps ctx method params v call_id d s1

  on_channel-IsBounded :
      (ctx : Ctx) (msg : Json) (method : Bytes) (deleg : Delegation) (session_id : Bytes) (now : ℤ)
      (ch : Channel) (s : Session)
      → IsBounded s
      → IsBounded (on_channel ctx msg method deleg session_id now ch s).0
  on_channel-IsBounded ctx msg method deleg session_id now (asks which) s b =
      kept-IsBounded s (on_channel ctx msg method deleg session_id now (asks which) s).0
        (channel-Same ctx msg method false _ s) b
  on_channel-IsBounded ctx msg method deleg session_id now relays s b =
      remember-IsBounded (answered_id (serde.get (codes "id") msg)) s b
  on_channel-IsBounded ctx msg method deleg session_id now notifies s b =
      kept-IsBounded s (on_channel ctx msg method deleg session_id now notifies s).0
        (notification-Same ctx msg _ s) b
  on_channel-IsBounded ctx msg method deleg session_id now passes s b = b
  on_channel-IsBounded ctx msg method deleg session_id now unknown_method s b =
      kept-IsBounded s (on_channel ctx msg method deleg session_id now unknown_method s).0
        (channel-Same ctx msg method true _ s) b

  close_effect-Same : (msg : Json) (o : Option Json) (s : Session) → Same s (close_effect msg o s)
  unfolding close_effect
  close_effect-Same msg none s = refl
  close_effect-Same msg (some id) s = closed (lookup (serde.to_string id) s.pending)
    where
      closed : (o : Option Pending) → Same s (close_found msg (serde.to_string id) o s)
      closed none = refl
      closed (some p) =
          write-Keeps p.effect_record_id (some p.decision_record_id) _
            (record s { pending = remove (serde.to_string id) s.pending })

  message-IsBounded :
      (ctx : Ctx) (msg : Json) (deleg : Delegation) (session_id : Bytes) (now : ℤ) (o : Option Json)
      (s : Session)
      → IsBounded s
      → IsBounded (on_message ctx msg deleg session_id now o s).0
  unfolding handle_server_initiated
  message-IsBounded ctx msg deleg session_id now none s b =
      kept-IsBounded s (close_effect msg (serde.get (codes "id") msg) s)
        (close_effect-Same msg (serde.get (codes "id") msg) s) b
  message-IsBounded ctx msg deleg session_id now (some m) s b =
      let method = or_default (str_in (codes "method") (some msg)) in
      on_channel-IsBounded ctx msg method deleg session_id now (channel_of method) s b

  module _ ⦃p : Provider⦄ where
    -- A message of one side, at any time, with any identity of the agent. The last two are the halves
    -- of `handle_from_server` on the result of a call: the lock is free between them, so that other
    -- steps come in between. They are let in for any entry.
    pub data Step (ctx : Ctx) : Session → Session → Type 0 where
      from_agent :
          (msg : Json) (a : Auth) (bearer : Option Bytes) (now : ℤ) (s : Session)
          → Step ctx s (handle_from_agent ctx msg a bearer now s).1.0
      from_server :
          (msg : Json) (deleg : Delegation) (session_id : Bytes) (now : ℤ) (s : Session)
          → Step ctx s (handle_from_server ctx msg deleg session_id now s).0
      pending_taken : (key : Bytes) (s : Session) → Step ctx s (take_pending key s)
      effect_written :
          (msg : Json) (entry : Pending) (s : Session) → Step ctx s (write_effect msg entry s)

    pub data Steps (ctx : Ctx) (s : Session) : Session → Type 0 where
      here : Steps ctx s s
      then_ : (t u : Session) → Steps ctx s t → Step ctx t u → Steps ctx s u

    Step-IsBounded : (ctx : Ctx) {s s' : Session} → Step ctx s s' → IsBounded s → IsBounded s'
    unfolding handle_from_server
    Step-IsBounded ctx (from_agent msg a bearer now s) b = agent-IsBounded ctx msg a bearer now s b
    Step-IsBounded ctx (from_server msg deleg session_id now s) b =
        message-IsBounded ctx msg deleg session_id now (serde.get (codes "method") msg) s b
    Step-IsBounded ctx (pending_taken key s) b = b
    Step-IsBounded ctx (effect_written msg entry s) b =
        kept-IsBounded s (write_effect msg entry s)
          (write-Keeps entry.effect_record_id (some entry.decision_record_id) _ s) b

    -- After any run of messages of both sides from a session that was just opened, also one in which
    -- the two halves of the handling of a result stand apart, at most 1024 ids of relayed requests of
    -- the server are held.
    pub Steps-IsBounded :
        (ctx : Ctx) (chain : ChainWriter) (log : List SignedRecord) (session_id : Bytes)
        (origin : Option OriginSigner) {s : Session}
        → Steps ctx (open_session chain log session_id origin) s
        → length s.relayed_to_agent ≤ relayed_cap
    Steps-IsBounded ctx chain log session_id origin here = omega arith
    Steps-IsBounded ctx chain log session_id origin (then_ t u before last) =
        Step-IsBounded ctx last (Steps-IsBounded ctx chain log session_id origin before)
