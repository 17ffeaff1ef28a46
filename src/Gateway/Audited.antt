-- ===== src/Gateway/Audited.antt =====
-- crates/obsign-proxy/src/gateway.rs: nothing that the agent sends is forwarded past the log.
use obsign.Prelude.{
  ◌≡◌, refl, sym, ap, subst, ◌∙◌, ◌⊎◌, inl, inr, Bytes, codes, Bool, true, false, Option, none,
  some, List, [], ◌∷◌, ◌++◌, append_assoc, Fallible, ok, lookup, insert, if◌then◌else◌,
}
use obsign.Audit.Checkpoint.{next_u64}
use obsign.Crypto.{Crypto}
use obsign.Audit.Json.{Json}
use obsign.Audit.Origin.{SignedRecord}
use obsign.Policy.Cedar.{Cedar, SerdeJson}
use obsign.Policy.Engine.{Verdict, is_allowed}
use obsign.Gateway.{Host}
use obsign.Gateway.Session.{Session, Pending, Writes, ◌>>◌, done, write, next_call_id, id_of}
use obsign.Gateway.Acts.{Ctx, Forward, pass, reply, Act, is_null, blocked, decided}
use obsign.Gateway.Agent.{act_payload, in_flight, claim, admit, refuse, carry_out}
use obsign.Gateway.Writes.{Grows, Grows-refl, IsWrite, write_ok, >>-eq-ok}

module _ ⦃api : Cedar⦄ ⦃c : Crypto⦄ ⦃host : Host⦄ ⦃serde : SerdeJson⦄ where
  -- How an act ends behind its two records: passed on without an id to wait for, passed on with a slot
  -- that was free, or answered by the gateway with an effect of its own.
  pub data Ended (raw : Bytes) (id : Json) (decision_id effect_id : Bytes) (v : Verdict)
      (s s' : Session) : Forward → Type 0 where
    passed :
        is_allowed v ≡ true
        → is_null id ≡ true
        → Grows s s'
        → s'.log ≡ s.log
        → Ended raw id decision_id effect_id v s s' (pass raw)
    awaited :
        (slot : Pending)
        → is_allowed v ≡ true
        → lookup (serde.to_string id) s.pending ≡ none
        → s'.pending ≡ insert (serde.to_string id) slot s.pending
        → slot.decision_record_id ≡ decision_id
        → slot.effect_record_id ≡ effect_id
        → s'.log ≡ s.log
        → Ended raw id decision_id effect_id v s s' (pass raw)
    refused :
        (text : Bytes) (sr : SignedRecord)
        → (is_allowed v ≡ false)
          ⊎ ((p : Pending) × (lookup (serde.to_string id) s.pending ≡ some p))
        → IsWrite effect_id (some decision_id) blocked sr
        → s'.log ≡ s.log ++ sr ∷ []
        → s'.pending ≡ s.pending
        → Ended raw id decision_id effect_id v s s' (reply text)

  pub record Carried (ctx : Ctx) (act : Act) (raw : Bytes) (params id : Json) (v : Verdict)
      (s s' : Session) (f : Forward) : Type 0 where
    pub call : SignedRecord
    pub decision : SignedRecord
    pub call_written :
        IsWrite
          (id_of (codes "call-") (next_u64 s.counter))
          (some s.agent_record_id)
          (act_payload ctx act params)
          call
    pub decision_written :
        IsWrite
          (id_of (codes "dec-") (next_u64 s.counter))
          (some (id_of (codes "call-") (next_u64 s.counter)))
          (decided ctx.bundle_version v)
          decision
    pub mid : Session
    pub mid_log : mid.log ≡ s.log ++ call ∷ decision ∷ []
    pub mid_pending : mid.pending ≡ s.pending
    pub ended :
        Ended raw id
          (id_of (codes "dec-") (next_u64 s.counter))
          (id_of (codes "eff-") (next_u64 s.counter))
          v
          mid
          s'
          f

  blocked_reply :
      (effect_id decision_id text : Bytes) (s : Session) {s' : Session} {f : Forward}
      → (write effect_id (some decision_id) blocked >> done (reply text)) s ≡ (s', ok f)
      → (sr : SignedRecord) × IsWrite effect_id (some decision_id) blocked sr
        × (s'.log ≡ s.log ++ sr ∷ [])
        × (s'.pending ≡ s.pending)
        × (reply text ≡ f)
  blocked_reply effect_id decision_id text s {s'} {f} h =
      let (s1, rec, written, rest) =
        >>-eq-ok (write effect_id (some decision_id) blocked) (done (reply text)) s h in
      let (sr, is, log, parent, g) = write_ok effect_id (some decision_id) blocked s written in
      let same : s1 ≡ s' = ap (λ (x : Session × Fallible Bytes Forward). x.0) rest in
      let text_is : reply text ≡ f = cc in
      (
        sr,
        is,
        ap (λ (x : Session). x.log) (sym same) ∙ log,
        ap (λ (x : Session). x.pending) (sym same) ∙ g.pending,
        text_is,
      )

  module _ (ctx : Ctx) (act : Act) (raw : Bytes) (id : Json) (decision_id effect_id : Bytes)
      (v : Verdict) where
    claim-Ended :
        (o : Option Pending) (s : Session) {s' : Session} {f : Forward}
        → is_allowed v ≡ true
        → lookup (serde.to_string id) s.pending ≡ o
        → claim act raw id decision_id effect_id o s ≡ (s', ok f)
        → Ended raw id decision_id effect_id v s s' f
    claim-Ended (some p) s {s'} {f} a found h =
        let (sr, is, log, slots, same) =
          blocked_reply effect_id decision_id (in_flight act id) s h in
        subst (Ended raw id decision_id effect_id v s s') same
          (refused (in_flight act id) sr (inr (p, found)) is log slots)
    claim-Ended none s {s'} {f} a free h =
        let slot : Pending = record {
          decision_record_id = decision_id;
          effect_record_id = effect_id;
          started = host.instant s.chain.next_seq;
        } in
        let state : record s { pending = insert (serde.to_string id) slot s.pending } ≡ s' =
          ap (λ (x : Session × Fallible Bytes Forward). x.0) h in
        let out : pass raw ≡ f = cc in
        subst (Ended raw id decision_id effect_id v s s') out (
          awaited slot a free (ap (λ (x : Session). x.pending) (sym state)) refl refl
            (ap (λ (x : Session). x.log) (sym state)))

    admit-Ended :
        (null_id : Bool) (s : Session) {s' : Session} {f : Forward}
        → is_allowed v ≡ true
        → is_null id ≡ null_id
        → (if null_id
            then (s, ok (pass raw))
            else claim act raw id decision_id effect_id (lookup (serde.to_string id) s.pending) s)
          ≡ (s', ok f)
        → Ended raw id decision_id effect_id v s s' f
    admit-Ended true s {s'} {f} a n h =
        let state : s ≡ s' = ap (λ (x : Session × Fallible Bytes Forward). x.0) h in
        let out : pass raw ≡ f = cc in
        subst (Ended raw id decision_id effect_id v s s') out (
          passed a n (subst (Grows s) state (Grows-refl s))
            (ap (λ (x : Session). x.log) (sym state)))
    admit-Ended false s a n h = claim-Ended (lookup (serde.to_string id) s.pending) s a refl h

    end-Ended :
        (allowed : Bool) (s : Session) {s' : Session} {f : Forward}
        → is_allowed v ≡ allowed
        → (if allowed
              then admit act raw id decision_id effect_id
              else refuse ctx act id decision_id effect_id v)
            s
          ≡ (s', ok f)
        → Ended raw id decision_id effect_id v s s' f
    end-Ended true s a h = admit-Ended (is_null id) s a refl h
    end-Ended false s {s'} {f} a h =
        let (sr, is, log, slots, same) = blocked_reply effect_id decision_id _ s h in
        subst (Ended raw id decision_id effect_id v s s') same (refused _ sr (inl a) is log slots)

  -- If the handling of an act succeeds, then the log has a record of the act, under the record of the
  -- agent session, and behind it a record of the decision, under the record of the act and with the
  -- verdict; and either the verdict allows it and the message is passed on as it came, with the ids
  -- of the decision and the effect in the slot of its JSON-RPC id, which was free, where it has one,
  -- or the gateway answers, and an effect that is blocked stands behind the decision.
  pub carry_out_sound :
      (ctx : Ctx) (act : Act) (raw : Bytes) (params id : Json) (v : Verdict) (s : Session)
      {s' : Session} {f : Forward}
      → carry_out ctx act raw params id v s ≡ (s', ok f)
      → Carried ctx act raw params id v s s' f
  unfolding carry_out next_call_id
  carry_out_sound ctx act raw params id v s {s'} {f} h =
      let (s1, call_id) = next_call_id s in
      let decision_id = id_of (codes "dec-") s1.counter in
      let effect_id = id_of (codes "eff-") s1.counter in
      let w1 = write call_id (some s1.agent_record_id) (act_payload ctx act params) in
      let w2 = write decision_id (some call_id) (decided ctx.bundle_version v) in
      let fin : Writes Forward =
        if is_allowed v
        then admit act raw id decision_id effect_id
        else refuse ctx act id decision_id effect_id v in
      let (s3, r3, both, last) = >>-eq-ok (w1 >> w2) fin s1 h in
      let (s2, r2, first, second) = >>-eq-ok w1 w2 s1 both in
      let (call, call_is, log1, parent1, g1) =
        write_ok call_id (some s1.agent_record_id) _ s1 first in
      let (dec, dec_is, log2, parent2, g2) = write_ok decision_id (some call_id) _ s2 second in
      record {
        call = call;
        decision = dec;
        call_written = call_is;
        decision_written = dec_is;
        mid = s3;
        mid_log =
            log2
            ∙ ap (λ (x : List SignedRecord). x ++ dec ∷ []) log1
            ∙ append_assoc s.log (call ∷ []) (dec ∷ []);
        mid_pending = g2.pending ∙ g1.pending;
        ended = end-Ended ctx act raw id decision_id effect_id v (is_allowed v) s3 refl last;
      }
