-- ===== src/Gateway/Served.antt =====
-- crates/obsign-proxy/src/gateway.rs: what of the server's own messages reaches the agent.
use obsign.Prelude.{
  ◌≡◌, refl, sym, ap, ◌∙◌, ◌⊎◌, inl, inr, Bytes, codes, Bool, true, false, Option, none, some, List,
  [], ◌∷◌, ◌++◌, append_assoc, append-nil, Fallible, ok, err, lookup, insert, if◌then◌else◌,
}
use obsign.Audit.Checkpoint.{next_u64}
use obsign.Crypto.{Crypto}
use obsign.Audit.Json.{Json}
use obsign.Audit.Record.{Record}
use obsign.Audit.Origin.{SignedRecord}
use obsign.Policy.Cedar.{Cedar, SerdeJson}
use obsign.Policy.Engine.{Verdict, is_allowed}
use obsign.Gateway.{Host}
use obsign.Gateway.Session.{Session, Pending, ignored, write, next_call_id, id_of}
use obsign.Gateway.Acts.{
  Ctx, Downstream, forward, answer, drop_, or_null, is_null, blocked, decided, self_access,
}
use obsign.Gateway.Server.{
  delivered, record_access, claim_back, admit_back, refusal_back, conclude_back, arbitrate_channel,
  conclude_notification, arbitrate_notification,
}
use obsign.Gateway.Writes.{IsWrite, write_ok, write-Grows, >>-eq-ok}

module _ ⦃api : Cedar⦄ ⦃c : Crypto⦄ ⦃host : Host⦄ ⦃serde : SerdeJson⦄ where
  -- The record of the access and the record of the decision stand in the log.
  pub record Accessed (ctx : Ctx) (method params : Bytes) (v : Verdict) (s s' : Session)
      : Type 0 where
    pub call : SignedRecord
    pub decision : SignedRecord
    pub call_written :
        IsWrite
          (id_of (codes "call-") (next_u64 s.counter))
          (some s.agent_record_id)
          (self_access ctx method params)
          call
    pub decision_written :
        IsWrite
          (id_of (codes "dec-") (next_u64 s.counter))
          (some (id_of (codes "call-") (next_u64 s.counter)))
          (decided ctx.bundle_version v)
          decision
    pub behind : List SignedRecord
    pub log : s'.log ≡ (s.log ++ call ∷ decision ∷ []) ++ behind

  two_records :
      (ctx : Ctx) (method params : Bytes) (v : Verdict) (s : Session) {s2 : Session} {rec : Record}
      → record_access ctx method params v
          (id_of (codes "call-") (next_u64 s.counter))
          (id_of (codes "dec-") (next_u64 s.counter))
          (next_call_id s).0
        ≡ (s2, ok rec)
      → (call : SignedRecord) × (decision : SignedRecord) × IsWrite
          (id_of (codes "call-") (next_u64 s.counter))
          (some s.agent_record_id)
          (self_access ctx method params)
          call
        × IsWrite
            (id_of (codes "dec-") (next_u64 s.counter))
            (some (id_of (codes "call-") (next_u64 s.counter)))
            (decided ctx.bundle_version v)
            decision
        × (s2.log ≡ s.log ++ call ∷ decision ∷ [])
        × (s2.pending_to_agent ≡ s.pending_to_agent)
  unfolding record_access next_call_id
  two_records ctx method params v s h =
      let call_id = id_of (codes "call-") (next_u64 s.counter) in
      let decision_id = id_of (codes "dec-") (next_u64 s.counter) in
      let s1 = (next_call_id s).0 in
      let w1 = write call_id (some s1.agent_record_id) (self_access ctx method params) in
      let w2 = write decision_id (some call_id) (decided ctx.bundle_version v) in
      let (s2, r2, first, second) = >>-eq-ok w1 w2 s1 h in
      let (call, call_is, log1, parent1, g1) =
        write_ok call_id (some s1.agent_record_id) (self_access ctx method params) s1 first in
      let (dec, dec_is, log2, parent2, g2) =
        write_ok decision_id (some call_id) (decided ctx.bundle_version v) s2 second in
      (
        call,
        dec,
        call_is,
        dec_is,
        log2
            ∙ ap (λ (x : List SignedRecord). x ++ dec ∷ []) log1
            ∙ append_assoc s.log (call ∷ []) (dec ∷ []),
        g2.pending_to_agent ∙ g1.pending_to_agent,
      )

  no_forward : (b : Bool) (j m : Json) → (if b then drop_ else answer j) ≡ forward m → ⊥
  no_forward true j m h = cc
  no_forward false j m h = cc

  abbrev pub Reserved : Json → Bytes → Bytes → Session → Session → Type 0
  Reserved id decision_id effect_id s s' =
      (is_null id ≡ true) × (s'.pending_to_agent ≡ s.pending_to_agent)
      ⊎ ((slot : Pending) × (lookup (serde.to_string id) s.pending_to_agent ≡ none)
          × (s'.pending_to_agent ≡ insert (serde.to_string id) slot s.pending_to_agent)
          × (slot.decision_record_id ≡ decision_id)
          × (slot.effect_record_id ≡ effect_id))

  module _ (ctx : Ctx) (msg id : Json) (out_of_scope : Bool) (v : Verdict)
      (decision_id effect_id : Bytes) where
    claim_forward :
        (o : Option Pending) (s : Session) {s' : Session} {m : Json}
        → lookup (serde.to_string id) s.pending_to_agent ≡ o
        → claim_back msg id decision_id effect_id o s ≡ (s', forward m)
        → (m ≡ msg) × (s'.log ≡ s.log) × Reserved id decision_id effect_id s s'
    claim_forward (some p) s {s'} {m} found h =
        absurd (no_forward (is_null id) _ m (ap (λ (x : Session × Downstream). x.1) h))
    claim_forward none s {s'} {m} free h =
        let slot : Pending = record {
          decision_record_id = decision_id;
          effect_record_id = effect_id;
          started = host.instant s.chain.next_seq;
        } in
        let state : record s {
          pending_to_agent = insert (serde.to_string id) slot s.pending_to_agent;
        }
            ≡ s' =
          ap (λ (x : Session × Downstream). x.0) h in
        (
          cc,
          ap (λ (x : Session). x.log) (sym state),
          inr (slot, free, ap (λ (x : Session). x.pending_to_agent) (sym state), refl, refl),
        )

    admit_forward :
        (null_id : Bool) (s : Session) {s' : Session} {m : Json}
        → is_null id ≡ null_id
        → (if null_id
            then (s, forward msg)
            else claim_back msg id decision_id effect_id
                (lookup (serde.to_string id) s.pending_to_agent)
                s)
          ≡ (s', forward m)
        → (m ≡ msg) × (s'.log ≡ s.log) × Reserved id decision_id effect_id s s'
    admit_forward true s {s'} {m} n h =
        let state : s ≡ s' = ap (λ (x : Session × Downstream). x.0) h in
        (
          cc,
          ap (λ (x : Session). x.log) (sym state),
          inl (n, ap (λ (x : Session). x.pending_to_agent) (sym state)),
        )
    admit_forward false s n h =
        claim_forward (lookup (serde.to_string id) s.pending_to_agent) s refl h

    refusal_no_forward : (b : Bool) (m : Json) → refusal_back ctx id b v ≡ forward m → ⊥
    refusal_no_forward true m h = no_forward (is_null id) _ m h
    refusal_no_forward false m h = no_forward (is_null id) _ m h

    allowed_forward :
        (allowed : Bool) (s : Session) {s' : Session} {m : Json}
        → is_allowed v ≡ allowed
        → (if allowed then admit_back msg id decision_id effect_id s else (
          ignored (write effect_id (some decision_id) blocked s),
          refusal_back ctx id out_of_scope v,
        ))
          ≡ (s', forward m)
        → (is_allowed v ≡ true)
          × (m ≡ msg)
          × (s'.log ≡ s.log)
          × Reserved id decision_id effect_id s s'
    allowed_forward true s a h =
        let (same, log, slots) = admit_forward (is_null id) s refl h in (a, same, log, slots)
    allowed_forward false s {s'} {m} a h =
        absurd (refusal_no_forward out_of_scope m (ap (λ (x : Session × Downstream). x.1) h))

    conclude_forward :
        (r : Session × Fallible Bytes Record) {s' : Session} {m : Json}
        → conclude_back ctx msg id out_of_scope v decision_id effect_id r ≡ (s', forward m)
        → (s2 : Session) × (rec : Record) × (r ≡ (s2, ok rec))
          × (is_allowed v ≡ true)
          × (m ≡ msg)
          × (s'.log ≡ s2.log)
          × Reserved id decision_id effect_id s2 s'
    conclude_forward (s2, ok rec) h =
        let (a, same, log, slots) = allowed_forward (is_allowed v) s2 refl h in
        (s2, rec, refl, a, same, log, slots)
    conclude_forward (s2, err e) {s'} {m} h =
        absurd (no_forward (is_null id) _ m (ap (λ (x : Session × Downstream). x.1) h))

  slots_from :
      (id : Json) (d e : Bytes) (s0 s1 s2 : Session)
      → s1.pending_to_agent ≡ s0.pending_to_agent
      → Reserved id d e s1 s2
      → Reserved id d e s0 s2
  slots_from id d e s0 s1 s2 kept (inl (n, same)) = inl (n, same ∙ kept)
  slots_from id d e s0 s1 s2 kept (inr (slot, free, put, is_d, is_e)) = inr (
    slot,
    ap (lookup (serde.to_string id)) (sym kept) ∙ free,
    put ∙ ap (insert (serde.to_string id) slot) kept,
    is_d,
    is_e,
  )

  pub arbitrate_channel_sound :
      (ctx : Ctx) (msg : Json) (method : Bytes) (out_of_scope : Bool) (v : Verdict) (s : Session)
      {s' : Session} {m : Json}
      → arbitrate_channel ctx msg method out_of_scope v s ≡ (s', forward m)
      → (is_allowed v ≡ true)
        × (m ≡ msg)
        × Accessed ctx method (serde.to_string (or_null (serde.get (codes "params") msg))) v s s'
        × Reserved
            (or_null (serde.get (codes "id") msg))
            (id_of (codes "dec-") (next_u64 s.counter))
            (id_of (codes "eff-") (next_u64 s.counter))
            s
            s'
  unfolding arbitrate_channel next_call_id
  arbitrate_channel_sound ctx msg method out_of_scope v s {s'} h =
      let id = or_null (serde.get (codes "id") msg) in
      let params = serde.to_string (or_null (serde.get (codes "params") msg)) in
      let decision_id = id_of (codes "dec-") (next_u64 s.counter) in
      let effect_id = id_of (codes "eff-") (next_u64 s.counter) in
      let (s2, rec, e, a, same, log, slots) =
        conclude_forward ctx msg id out_of_scope v decision_id effect_id _ h in
      let (call, dec, call_is, dec_is, log2, kept) = two_records ctx method params v s e in
      (
        a,
        same,
        record {
          call = call;
          decision = dec;
          call_written = call_is;
          decision_written = dec_is;
          behind = [];
          log = log ∙ log2 ∙ sym (append-nil (s.log ++ call ∷ dec ∷ []));
        },
        slots_from id decision_id effect_id s s2 s' kept slots,
      )

  delivered_forward :
      (allowed : Bool) (v : Verdict) (msg m : Json)
      → is_allowed v ≡ allowed
      → (if allowed then forward msg else drop_) ≡ forward m
      → (is_allowed v ≡ true) × (m ≡ msg)
  delivered_forward true v msg m a h = (a, cc)
  delivered_forward false v msg m a h = absurd cc

  notification_forward :
      (msg : Json) (v : Verdict) (decision_id effect_id : Bytes)
      (r : Session × Fallible Bytes Record) {s' : Session} {m : Json}
      → conclude_notification msg v decision_id effect_id r ≡ (s', forward m)
      → (s2 : Session) × (rec : Record) × (added : List SignedRecord) × (r ≡ (s2, ok rec))
        × (is_allowed v ≡ true)
        × (m ≡ msg)
        × (s'.log ≡ s2.log ++ added)
  notification_forward msg v decision_id effect_id (s2, ok rec) {s'} {m} h =
      let payload = delivered (is_allowed v) in
      let g = write-Grows effect_id (some decision_id) payload s2 in
      let state : (write effect_id (some decision_id) payload s2).0 ≡ s' =
        ap (λ (x : Session × Downstream). x.0) h in
      let (a, same) =
        delivered_forward (is_allowed v) v msg m refl (ap (λ (x : Session × Downstream). x.1) h) in
      (s2, rec, g.added, refl, a, same, ap (λ (x : Session). x.log) (sym state) ∙ g.log)
  notification_forward msg v decision_id effect_id (s2, err e) {s'} {m} h =
      let dropped : drop_ ≡ forward m = ap (λ (x : Session × Downstream). x.1) h in absurd cc

  pub arbitrate_notification_sound :
      (ctx : Ctx) (msg : Json) (v : Verdict) (s : Session) {s' : Session} {m : Json}
      → arbitrate_notification ctx msg v s ≡ (s', forward m)
      → (is_allowed v ≡ true)
        × (m ≡ msg)
        × Accessed ctx
            (codes "notifications/message")
            (serde.to_string (or_null (serde.get (codes "params") msg)))
            v
            s
            s'
  unfolding arbitrate_notification next_call_id
  arbitrate_notification_sound ctx msg v s {s'} h =
      let params = serde.to_string (or_null (serde.get (codes "params") msg)) in
      let decision_id = id_of (codes "dec-") (next_u64 s.counter) in
      let effect_id = id_of (codes "eff-") (next_u64 s.counter) in
      let (s2, rec, added, e, a, same, log) =
        notification_forward msg v decision_id effect_id _ h in
      let (call, dec, call_is, dec_is, log2, kept) =
        two_records ctx (codes "notifications/message") params v s e in
      (
        a,
        same,
        record {
          call = call;
          decision = dec;
          call_written = call_is;
          decision_written = dec_is;
          behind = added;
          log = log ∙ ap (λ (x : List SignedRecord). x ++ added) log2;
        },
      )
