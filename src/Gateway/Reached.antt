-- ===== src/Gateway/Reached.antt =====
-- crates/obsign-proxy/src/gateway.rs: why a message that the server opens reaches the agent.
use obsign.Prelude.{◌≡◌, refl, ap, ◌⊎◌, inl, inr, ℤ, Bytes, codes, true, false, some}
use obsign.Audit.Checkpoint.{next_u64}
use obsign.Crypto.{Crypto}
use obsign.Audit.Json.{Json}
use obsign.Policy.Cedar.{Cedar, SerdeJson}
use obsign.Policy.Question.{Capability, notify}
use obsign.Policy.Engine.{is_allowed}
use obsign.Gateway.{Host}
use obsign.Gateway.Identity.{Delegation}
use obsign.Gateway.Session.{Session, id_of}
use obsign.Gateway.Acts.{Ctx, Downstream, forward, or_default, str_in, or_null}
use obsign.Gateway.Server.{
  Channel, asks, relays, notifies, passes, unknown_method, channel_of, channel_verdict, on_channel,
  handle_server_initiated,
}
use obsign.Gateway.Served.{
  Accessed, Reserved, arbitrate_channel_sound, arbitrate_notification_sound,
}

module _ ⦃api : Cedar⦄ ⦃c : Crypto⦄ ⦃host : Host⦄ ⦃serde : SerdeJson⦄ where
  -- The two arbitrated ways, and the two relayed ones.
  pub data Reached (ctx : Ctx) (msg : Json) (method : Bytes) (deleg : Delegation)
      (session_id : Bytes) (now : ℤ) (s s' : Session) : Type 0 where
    asked :
        (which : Capability)
        → channel_of method ≡ asks which
        → is_allowed (channel_verdict ctx which deleg session_id now) ≡ true
        → Accessed ctx method
            (serde.to_string (or_null (serde.get (codes "params") msg)))
            (channel_verdict ctx which deleg session_id now)
            s
            s'
        → Reserved
            (or_null (serde.get (codes "id") msg))
            (id_of (codes "dec-") (next_u64 s.counter))
            (id_of (codes "eff-") (next_u64 s.counter))
            s
            s'
        → Reached ctx msg method deleg session_id now s s'
    notified :
        channel_of method ≡ notifies
        → is_allowed (channel_verdict ctx notify deleg session_id now) ≡ true
        → Accessed ctx
            (codes "notifications/message")
            (serde.to_string (or_null (serde.get (codes "params") msg)))
            (channel_verdict ctx notify deleg session_id now)
            s
            s'
        → Reached ctx msg method deleg session_id now s s'
    relayed :
        (channel_of method ≡ relays) ⊎ (channel_of method ≡ passes)
        → Reached ctx msg method deleg session_id now s s'

  channel-Reached :
      (ctx : Ctx) (msg : Json) (method : Bytes) (deleg : Delegation) (session_id : Bytes) (now : ℤ)
      (s : Session) (ch : Channel) {s' : Session} {m : Json}
      → channel_of method ≡ ch
      → on_channel ctx msg method deleg session_id now ch s ≡ (s', forward m)
      → (m ≡ msg) × Reached ctx msg method deleg session_id now s s'
  channel-Reached ctx msg method deleg session_id now s (asks which) k h =
      let (a, same, accessed, slots) = arbitrate_channel_sound ctx msg method false _ s h in
      (same, asked which k a accessed slots)
  channel-Reached ctx msg method deleg session_id now s relays {s'} {m} k h =
      let same : forward msg ≡ forward m = ap (λ (x : Session × Downstream). x.1) h in
      (cc, relayed (inl k))
  channel-Reached ctx msg method deleg session_id now s notifies k h =
      let (a, same, accessed) = arbitrate_notification_sound ctx msg _ s h in
      (same, notified k a accessed)
  channel-Reached ctx msg method deleg session_id now s passes {s'} {m} k h =
      let same : forward msg ≡ forward m = ap (λ (x : Session × Downstream). x.1) h in
      (cc, relayed (inr k))
  channel-Reached ctx msg method deleg session_id now s unknown_method k h =
      let (a, same, accessed, slots) = arbitrate_channel_sound ctx msg method true _ s h in
      absurd cc

  -- If a message that the server opens is forwarded to the agent, then it is forwarded as it came, and
  -- either its method asks for a capability, or is that of a log message, the verdict on that
  -- capability allows it, and the log has a record of the access and behind it one of the decision,
  -- where a request with a JSON-RPC id has a slot that was free; or its method is one that is relayed.
  pub handle_server_initiated_sound :
      (ctx : Ctx) (msg : Json) (deleg : Delegation) (session_id : Bytes) (now : ℤ) (s : Session)
      {s' : Session} {m : Json}
      → handle_server_initiated ctx msg deleg session_id now s ≡ (s', forward m)
      → (m ≡ msg)
        × Reached ctx msg
            (or_default (str_in (codes "method") (some msg)))
            deleg
            session_id
            now
            s
            s'
  unfolding handle_server_initiated
  handle_server_initiated_sound ctx msg deleg session_id now s h =
      let method = or_default (str_in (codes "method") (some msg)) in
      channel-Reached ctx msg method deleg session_id now s (channel_of method) refl h
