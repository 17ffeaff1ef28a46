-- ===== src/Gateway/Passed.antt =====
-- crates/obsign-proxy/src/gateway.rs: why a message of the agent reaches the server.
use obsign.Prelude.{
  ◌≡◌, refl, ap, subst, ℤ, Bytes, codes, Bool, true, false, Option, none, some, Fallible, ok,
  lookup, contains, discard, if◌then◌else◌,
}
use obsign.Crypto.{Crypto}
use obsign.Audit.Json.{Json}
use obsign.Policy.Cedar.{Cedar, SerdeJson}
use obsign.Policy.Engine.{Verdict}
use obsign.Gateway.{Host}
use obsign.Gateway.Session.{Session, Pending, done, next_call_id}
use obsign.Gateway.Auth.{Provider, Auth}
use obsign.Gateway.Acts.{
  Ctx, Forward, pass, reply, Act, or_null, machinery, act_of, method_of, answered_id,
}
use obsign.Gateway.Agent.{
  authenticate, on_act, on_method, handle_response, answered, record_unsolicited, unsolicited_reply,
  refuse_response, handle_from_agent,
}
use obsign.Gateway.Writes.{>>-eq-ok}
use obsign.Gateway.Audited.{Ended, passed, awaited, refused}
use obsign.Gateway.Forwarded.{Audited, handle_act_sound, machinery_of_none}

reply_is_no_pass :
    {text out : Bytes} {s s' : Session} → ◌≡◌ {0} (done (reply text) s) (s', ok (pass out)) → ⊥
reply_is_no_pass h = cc

module _ ⦃api : Cedar⦄ ⦃c : Crypto⦄ ⦃host : Host⦄ ⦃serde : SerdeJson⦄ where
  -- An unsolicited response never passes.
  refuse_response-reply :
      (ctx : Ctx) (raw : Bytes) (s : Session) {s' : Session} {out : Bytes}
      → refuse_response ctx raw s ≡ (s', ok (pass out))
      → ⊥
  unfolding refuse_response
  refuse_response-reply ctx raw s h =
      let (s1, call_id) = next_call_id s in
      let (s2, r, before, last) =
        >>-eq-ok (record_unsolicited ctx raw call_id) (done (reply unsolicited_reply)) s1 h in
      reply_is_no_pass last

  -- An act that passes, passes as it came.
  Ended-pass :
      {raw : Bytes} {id : Json} {decision_id effect_id out : Bytes} {v : Verdict} (s s' : Session)
      (f : Forward)
      → pass out ≡ f
      → Ended raw id decision_id effect_id v s s' f
      → out ≡ raw
  Ended-pass s s' f e (passed allowed null_id g log) = cc
  Ended-pass s s' f e (awaited slot allowed free slots d x log) = cc
  Ended-pass s s' f e (refused text sr why is log slots) = absurd cc

  module _ ⦃p : Provider⦄ where
    -- Why a message passes: it answers an arbitrated request or a relayed one of the server; or it is
    -- protocol machinery; or it is an act that was audited.
    pub data Passed (ctx : Ctx) (msg : Json) (a : Auth) (bearer : Option Bytes) (now : ℤ)
        (s s' : Session) : Type 0 where
      answers :
          (key : Bytes) (slot : Pending)
          → method_of (serde.get (codes "method") msg) ≡ none
          → answered_id (serde.get (codes "id") msg) ≡ some key
          → lookup key s.pending_to_agent ≡ some slot
          → Passed ctx msg a bearer now s s'
      answers_relayed :
          (key : Bytes)
          → method_of (serde.get (codes "method") msg) ≡ none
          → answered_id (serde.get (codes "id") msg) ≡ some key
          → contains key s.relayed_to_agent ≡ true
          → Passed ctx msg a bearer now s s'
      by_machinery :
          (m : Bytes)
          → method_of (serde.get (codes "method") msg) ≡ some m
          → machinery m ≡ true
          → Passed ctx msg a bearer now s s'
      by_act :
          (m : Bytes) (act : Act)
          → method_of (serde.get (codes "method") msg) ≡ some m
          → act_of m (or_null (serde.get (codes "params") msg)) ≡ some act
          → Audited ctx act
              (serde.to_string msg)
              (or_null (serde.get (codes "params") msg))
              (or_null (serde.get (codes "id") msg))
              (authenticate a bearer now).1
              s
              s'
              (pass (serde.to_string msg))
          → Passed ctx msg a bearer now s s'

    module _ (ctx : Ctx) (msg : Json) (a : Auth) (bearer : Option Bytes) (now : ℤ)
        (s : Session) where
      relayed-Passed :
          (key : Bytes) (known : Bool) {s' : Session} {out : Bytes}
          → method_of (serde.get (codes "method") msg) ≡ none
          → answered_id (serde.get (codes "id") msg) ≡ some key
          → contains key s.relayed_to_agent ≡ known
          → (if known
              then (
                record s { relayed_to_agent = discard key s.relayed_to_agent },
                ok (pass (serde.to_string msg)),
              )
              else refuse_response ctx (serde.to_string msg) s)
            ≡ (s', ok (pass out))
          → (out ≡ serde.to_string msg) × Passed ctx msg a bearer now s s'
      relayed-Passed key true m k known h = (cc, answers_relayed key m k known)
      relayed-Passed key false m k known h =
          absurd (refuse_response-reply ctx (serde.to_string msg) s h)

      answered-Passed :
          (key : Bytes) (o : Option Pending) {s' : Session} {out : Bytes}
          → method_of (serde.get (codes "method") msg) ≡ none
          → answered_id (serde.get (codes "id") msg) ≡ some key
          → lookup key s.pending_to_agent ≡ o
          → answered ctx msg (serde.to_string msg) key o s ≡ (s', ok (pass out))
          → (out ≡ serde.to_string msg) × Passed ctx msg a bearer now s s'
      answered-Passed key (some slot) m k found h = (cc, answers key slot m k found)
      answered-Passed key none m k found h =
          relayed-Passed key (contains key s.relayed_to_agent) m k refl h

      response-Passed :
          (o : Option Bytes) {s' : Session} {out : Bytes}
          → method_of (serde.get (codes "method") msg) ≡ none
          → answered_id (serde.get (codes "id") msg) ≡ o
          → handle_response ctx msg (serde.to_string msg) o s ≡ (s', ok (pass out))
          → (out ≡ serde.to_string msg) × Passed ctx msg a bearer now s s'
      unfolding handle_response
      response-Passed none m k h = absurd (refuse_response-reply ctx (serde.to_string msg) s h)
      response-Passed (some key) m k h =
          answered-Passed key (lookup key s.pending_to_agent) m k refl h

      act-Passed :
          (m : Bytes) (o : Option Act) {a' : Auth} {s' : Session} {out : Bytes}
          → method_of (serde.get (codes "method") msg) ≡ some m
          → act_of m (or_null (serde.get (codes "params") msg)) ≡ o
          → on_act ctx msg
              (serde.to_string msg)
              (or_null (serde.get (codes "params") msg))
              o
              a
              bearer
              now
              s
            ≡ (a', (s', ok (pass out)))
          → (out ≡ serde.to_string msg) × Passed ctx msg a bearer now s s'
      act-Passed m none is n h =
          (cc, by_machinery m is (machinery_of_none m (or_null (serde.get (codes "params") msg)) n))
      act-Passed m (some act) {a'} {s'} {out} is n h =
          let raw = serde.to_string msg in
          let params = or_null (serde.get (codes "params") msg) in
          let id = or_null (serde.get (codes "id") msg) in
          let auth = (authenticate a bearer now).1 in
          let handled = ap (λ (x : Auth × (Session × Fallible Bytes Forward)). x.1) h in
          let audited = handle_act_sound ctx act raw params id auth s handled in
          let same = Ended-pass audited.carried.mid s' (pass out) refl audited.carried.ended in
          (
            same,
            by_act m act is n (
                subst (λ (x : Bytes). Audited ctx act raw params id auth s s' (pass x)) same
                  audited),
          )

      method-Passed :
          (o : Option Bytes) {a' : Auth} {s' : Session} {out : Bytes}
          → method_of (serde.get (codes "method") msg) ≡ o
          → on_method ctx msg o a bearer now s ≡ (a', (s', ok (pass out)))
          → (out ≡ serde.to_string msg) × Passed ctx msg a bearer now s s'
      method-Passed none m h =
          response-Passed (answered_id (serde.get (codes "id") msg)) m refl
            (ap (λ (x : Auth × (Session × Fallible Bytes Forward)). x.1) h)
      method-Passed (some m) is h =
          act-Passed m (act_of m (or_null (serde.get (codes "params") msg))) is refl h

    -- If a message of the agent is passed to the server, then it is passed as it came, and either it
    -- is a response whose id is that of an arbitrated request of the server that is in flight, or of
    -- one that was relayed; or its method is on the machinery allowlist; or it is an act that was
    -- handled under the identity in force, so that the log has its two records and the verdict
    -- allows it.
    pub handle_from_agent_sound :
        (ctx : Ctx) (msg : Json) (a : Auth) (bearer : Option Bytes) (now : ℤ) (s : Session)
        {a' : Auth} {s' : Session} {out : Bytes}
        → handle_from_agent ctx msg a bearer now s ≡ (a', (s', ok (pass out)))
        → (out ≡ serde.to_string msg) × Passed ctx msg a bearer now s s'
    unfolding handle_from_agent
    handle_from_agent_sound ctx msg a bearer now s h =
        method-Passed ctx msg a bearer now s (method_of (serde.get (codes "method") msg)) refl h
