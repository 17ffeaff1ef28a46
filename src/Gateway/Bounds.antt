-- ===== src/Gateway/Bounds.antt =====
-- crates/obsign-proxy/src/session.rs: the ids of relayed requests stay bounded, whatever the two sides
-- send.
use obsign.Prelude.{
  ◌≡◌, refl, sym, subst, ◌∙◌, inl, inr, ◌+◌, ◌≤◌, ◌<◌, ℤ, Bytes, codes, Bool, true, false, Option,
  none, some, List, [], ◌∷◌, Fallible, ok, err, lookup, remove, contains, discard, insert_new, ltb,
  length, if◌then◌else◌, arith, Bool-cases,
}
use obsign.Crypto.{Crypto}
use obsign.Audit.Json.{Json}
use obsign.Audit.Payload.{Payload}
use obsign.Policy.Cedar.{Cedar, SerdeJson}
use obsign.Policy.Engine.{Verdict, is_allowed}
use obsign.Gateway.{Host}
use obsign.Gateway.Session.{
  Session, Pending, Writes, ◌>>◌, continue_, done, write, next_call_id, record_config_reloads,
  id_of,
}
use obsign.Gateway.Auth.{Provider, Auth}
use obsign.Gateway.Acts.{
  Ctx, pass, reply, Act, or_null, act_of, method_of, answered_id, blocked, decided, is_null,
}
use obsign.Gateway.Agent.{
  Authority, authenticate, act_payload, verdict_of, record_unsolicited, unsolicited_reply,
  refuse_response, answered, handle_response, in_flight, claim, admit, refuse, refused_text,
  carry_out, renew, decide, handle_act, on_act, on_method, handle_from_agent,
}
use obsign.Gateway.Server.{relayed_cap, remember}
use obsign.Gateway.Writes.{write-Grows, OnlyWrites}
use obsign.Gateway.Forwarded.{record_config_reloads-OnlyWrites, renew-OnlyWrites}

abbrev pub IsBounded : Session → Type 0
IsBounded s = length s.relayed_to_agent ≤ relayed_cap

length-discard : (k : Bytes) (set : List Bytes) → length (discard k set) ≤ length set
unfolding discard
length-discard k [] = omega arith
length-discard k (j ∷ set) = ground (arith, length-discard k set)

length-insert_new : (k : Bytes) (set : List Bytes) → length (insert_new k set) ≤ length set + 1
unfolding insert_new
length-insert_new k set = ground arith

pub remember-IsBounded : (o : Option Bytes) (s : Session) → IsBounded s → IsBounded (remember o s)
unfolding remember
remember-IsBounded none s b = b
remember-IsBounded (some key) s b =
    elim (Bool-cases (ltb (length s.relayed_to_agent) relayed_cap)) [
      | inl room ↦
          let grown = length-insert_new key s.relayed_to_agent in
          let below : length s.relayed_to_agent < relayed_cap = ground (arith, room) in
          rw room (omega (arith, grown, below))
      | inr full ↦ rw full b
    ]

-- A function that leaves the relayed ids alone.
abbrev pub Keeps : {A : Type 0} → Writes A → Type 0
Keeps m = (s : Session) → (m s).0.relayed_to_agent ≡ s.relayed_to_agent

pub Keeps->> : {A B : Type 0} (m : Writes A) (n : Writes B) → Keeps m → Keeps n → Keeps (m >> n)
Keeps->> {A = A} m n hm hn s = after (m s) (hm s)
  where
    after :
        (r : Session × Fallible Bytes A)
        → r.0.relayed_to_agent ≡ s.relayed_to_agent
        → (continue_ (λ a. n) r).0.relayed_to_agent ≡ s.relayed_to_agent
    after (s1, ok a) e = hn s1 ∙ e
    after (s1, err why) e = e

Keeps-if : {A : Type 0} (b : Bool) (m n : Writes A) → Keeps m → Keeps n → Keeps (if b then m else n)
Keeps-if true m n hm hn = hm
Keeps-if false m n hm hn = hn

module _ ⦃c : Crypto⦄ ⦃host : Host⦄ where
  Keeps-of_OnlyWrites : {A : Type 0} (m : Writes A) → OnlyWrites m → Keeps m
  Keeps-of_OnlyWrites m h s = (h s).relayed

  pub write-Keeps :
      (id : Bytes) (parent : Option Bytes) (payload : Payload) → Keeps (write id parent payload)
  write-Keeps id parent payload s = (write-Grows id parent payload s).relayed

module _ ⦃api : Cedar⦄ ⦃c : Crypto⦄ ⦃host : Host⦄ ⦃serde : SerdeJson⦄ where
  refuse_response-Keeps : (ctx : Ctx) (raw : Bytes) → Keeps (refuse_response ctx raw)
  unfolding refuse_response next_call_id
  refuse_response-Keeps ctx raw s =
      let (s1, call_id) = next_call_id s in
      Keeps->> (record_unsolicited ctx raw call_id) (done (reply unsolicited_reply))
        (λ t.
          Keeps->> (write call_id _ _ >> write _ _ _) (write _ _ _)
            (Keeps->> (write call_id _ _) (write _ _ _) (write-Keeps _ _ _) (write-Keeps _ _ _))
            (write-Keeps _ _ _) t)
        (λ t. refl) s1

  claim-Keeps :
      (act : Act) (raw : Bytes) (id : Json) (d e : Bytes) (o : Option Pending)
      → Keeps (claim act raw id d e o)
  claim-Keeps act raw id d e none s = refl
  claim-Keeps act raw id d e (some p) s =
      Keeps->> (write e (some d) blocked) (done (reply (in_flight act id)))
        (write-Keeps e (some d) blocked) (λ t. refl) s

  admit-Keeps : (act : Act) (raw : Bytes) (id : Json) (d e : Bytes) → Keeps (admit act raw id d e)
  admit-Keeps act raw id d e s = choose (is_null id)
    where
      choose :
          (b : Bool)
          → (if b
              then (s, ok (pass raw))
              else claim act raw id d e
                  (lookup (serde.to_string id) s.pending)
                  s).0.relayed_to_agent
            ≡ s.relayed_to_agent
      choose true = refl
      choose false = claim-Keeps act raw id d e (lookup (serde.to_string id) s.pending) s

  carry_out-Keeps :
      (ctx : Ctx) (act : Act) (raw : Bytes) (params id : Json) (v : Verdict)
      → Keeps (carry_out ctx act raw params id v)
  unfolding carry_out next_call_id
  carry_out-Keeps ctx act raw params id v s =
      let (s1, call_id) = next_call_id s in
      let decision_id = id_of (codes "dec-") s1.counter in
      let effect_id = id_of (codes "eff-") s1.counter in
      let w1 = write call_id (some s1.agent_record_id) (act_payload ctx act params) in
      let w2 = write decision_id (some call_id) (decided ctx.bundle_version v) in
      let yes = admit act raw id decision_id effect_id in
      let no = refuse ctx act id decision_id effect_id v in
      let no_keeps : Keeps no =
        Keeps->> (write effect_id (some decision_id) blocked)
          (done (reply (refused_text ctx act id v)))
          (write-Keeps effect_id (some decision_id) blocked) (λ t. refl) in
      Keeps->> (w1 >> w2) (if is_allowed v then yes else no)
        (Keeps->> w1 w2 (write-Keeps call_id _ _) (write-Keeps decision_id _ _))
        (Keeps-if (is_allowed v) yes no (admit-Keeps act raw id decision_id effect_id) no_keeps) s1

  handle_act-Keeps :
      (ctx : Ctx) (act : Act) (raw : Bytes) (params id : Json) (auth : Authority)
      → Keeps (handle_act ctx act raw params id auth)
  unfolding handle_act
  handle_act-Keeps ctx act raw params id auth =
      let w1 = record_config_reloads auth.reloads in
      let w2 = renew ctx auth in
      Keeps->> (w1 >> w2) (decide ctx act raw params id auth)
        (Keeps->> w1 w2 (Keeps-of_OnlyWrites w1 (record_config_reloads-OnlyWrites auth.reloads))
          (Keeps-of_OnlyWrites w2 (renew-OnlyWrites ctx auth)))
        (λ t. carry_out-Keeps ctx act raw params id (verdict_of ctx act auth t.session_id params) t)

  pub kept-IsBounded :
      (s s' : Session) → s'.relayed_to_agent ≡ s.relayed_to_agent → IsBounded s → IsBounded s'
  kept-IsBounded s s' e b = subst (λ (x : List Bytes). length x ≤ relayed_cap) (sym e) b

  answered-IsBounded :
      (ctx : Ctx) (msg : Json) (raw key : Bytes) (o : Option Pending) (s : Session)
      → IsBounded s
      → IsBounded (answered ctx msg raw key o s).0
  answered-IsBounded ctx msg raw key (some p) s b =
      kept-IsBounded s (answered ctx msg raw key (some p) s).0
        (write-Keeps p.effect_record_id (some p.decision_record_id) _
          (record s { pending_to_agent = remove key s.pending_to_agent }))
        b
  answered-IsBounded ctx msg raw key none s b =
      elim (Bool-cases (contains key s.relayed_to_agent)) [
        | inl known ↦ rw known (omega (arith, length-discard key s.relayed_to_agent, b))
        | inr unknown ↦
            rw unknown
              (kept-IsBounded s (refuse_response ctx raw s).0 (refuse_response-Keeps ctx raw s) b)
      ]

  response-IsBounded :
      (ctx : Ctx) (msg : Json) (raw : Bytes) (o : Option Bytes) (s : Session)
      → IsBounded s
      → IsBounded (handle_response ctx msg raw o s).0
  unfolding handle_response
  response-IsBounded ctx msg raw none s b =
      kept-IsBounded s (refuse_response ctx raw s).0 (refuse_response-Keeps ctx raw s) b
  response-IsBounded ctx msg raw (some key) s b =
      answered-IsBounded ctx msg raw key (lookup key s.pending_to_agent) s b

  module _ ⦃p : Provider⦄ where
    act-IsBounded :
        (ctx : Ctx) (msg : Json) (raw : Bytes) (params : Json) (o : Option Act) (a : Auth)
        (bearer : Option Bytes) (now : ℤ) (s : Session)
        → IsBounded s
        → IsBounded (on_act ctx msg raw params o a bearer now s).1.0
    act-IsBounded ctx msg raw params none a bearer now s b = b
    act-IsBounded ctx msg raw params (some act) a bearer now s b =
        let id = or_null (serde.get (codes "id") msg) in
        let auth = (authenticate a bearer now).1 in
        kept-IsBounded s (handle_act ctx act raw params id auth s).0
          (handle_act-Keeps ctx act raw params id auth s) b

    method-IsBounded :
        (ctx : Ctx) (msg : Json) (o : Option Bytes) (a : Auth) (bearer : Option Bytes) (now : ℤ)
        (s : Session)
        → IsBounded s
        → IsBounded (on_method ctx msg o a bearer now s).1.0
    method-IsBounded ctx msg none a bearer now s b =
        response-IsBounded ctx msg (serde.to_string msg) (answered_id (serde.get (codes "id") msg))
          s b
    method-IsBounded ctx msg (some method) a bearer now s b =
        let params = or_null (serde.get (codes "params") msg) in
        act-IsBounded ctx msg (serde.to_string msg) params (act_of method params) a bearer now s b

    pub agent-IsBounded :
        (ctx : Ctx) (msg : Json) (a : Auth) (bearer : Option Bytes) (now : ℤ) (s : Session)
        → IsBounded s
        → IsBounded (handle_from_agent ctx msg a bearer now s).1.0
    unfolding handle_from_agent
    agent-IsBounded ctx msg a bearer now s b =
        method-IsBounded ctx msg (method_of (serde.get (codes "method") msg)) a bearer now s b
