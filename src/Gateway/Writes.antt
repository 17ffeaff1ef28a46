-- ===== src/Gateway/Writes.antt =====
-- crates/obsign-proxy/src/session.rs: what a write adds to the log, and what it leaves alone.
use obsign.Prelude.{
  ◌≡◌, refl, sym, ap, ◌∙◌, Bytes, Option, none, some, List, [], ◌∷◌, ◌++◌, append_assoc, append-nil,
  Fallible, ok, err,
}
use obsign.Crypto.{Crypto}
use obsign.Audit.Payload.{Payload}
use obsign.Audit.Record.{Record, record_hash}
use obsign.Audit.Chain.{append}
use obsign.Audit.Origin.{SignedRecord, signed, unsigned, origin_signing_bytes}
use obsign.Gateway.{Host}
use obsign.Gateway.Session.{
  Session, OriginSigner, Writes, ◌>>◌, continue_, done, envelope, sealed_with, acknowledged,
  made_durable, draft_of, write,
}

continue_-eq-ok :
    {A B : Type 0} (f : A → Writes B) (r : Session × Fallible Bytes A) {s' : Session} {b : B}
    → continue_ f r ≡ (s', ok b)
    → (s1 : Session) × (a : A) × (r ≡ (s1, ok a)) × (f a s1 ≡ (s', ok b))
continue_-eq-ok f (s, ok a) h = (s, a, refl, h)
continue_-eq-ok f (s, err why) h = absurd cc

pub >>-eq-ok :
    {A B : Type 0} (m : Writes A) (n : Writes B) (s : Session) {s' : Session} {b : B}
    → (m >> n) s ≡ (s', ok b)
    → (s1 : Session) × (a : A) × (m s ≡ (s1, ok a)) × (n s1 ≡ (s', ok b))
>>-eq-ok m n s h = continue_-eq-ok (λ a. n) (m s) h

-- The log grows at its end; the slots and the parent of acts stay.
pub record Grows (s s' : Session) : Type 0 where
  pub added : List SignedRecord
  pub log : s'.log ≡ s.log ++ added
  pub pending : s'.pending ≡ s.pending
  pub pending_to_agent : s'.pending_to_agent ≡ s.pending_to_agent
  pub relayed : s'.relayed_to_agent ≡ s.relayed_to_agent
  pub counter : s'.counter ≡ s.counter

pub Grows-refl : (s : Session) → Grows s s
Grows-refl s = record {
  added = [];
  log = sym (append-nil s.log);
  pending = refl;
  pending_to_agent = refl;
  relayed = refl;
  counter = refl;
}

pub Grows-trans : (s s1 s2 : Session) → Grows s s1 → Grows s1 s2 → Grows s s2
Grows-trans s s1 s2 g h = record {
  added = g.added ++ h.added;
  log =
      h.log
      ∙ ap (λ (x : List SignedRecord). x ++ h.added) g.log
      ∙ append_assoc s.log g.added h.added;
  pending = h.pending ∙ g.pending;
  pending_to_agent = h.pending_to_agent ∙ g.pending_to_agent;
  relayed = h.relayed ∙ g.relayed;
  counter = h.counter ∙ g.counter;
}

module _ ⦃c : Crypto⦄ ⦃host : Host⦄ where
  -- A record of the fields of a write, acknowledged by the log.
  pub record IsWrite (id : Bytes) (parent : Option Bytes) (payload : Payload) (sr : SignedRecord)
      : Type 0 where
    pub id_of : sr.rec.id ≡ id
    pub parent_of : sr.rec.parent_id ≡ parent
    pub payload_of : sr.rec.payload ≡ payload
    pub acknowledged : host.wal_append sr ≡ ok tt

  pub envelope-rec :
      (o : Option OriginSigner) (chain_id : Bytes) (rec : Record) {sr : SignedRecord}
      → envelope o chain_id rec ≡ ok sr
      → sr.rec ≡ rec
  unfolding unsigned signed
  envelope-rec none chain_id rec {sr} h =
      let same : unsigned rec ≡ sr = cc in ap (λ (x : SignedRecord). x.rec) (sym same)
  envelope-rec (some signer) chain_id rec h =
      go (signer.sign (origin_signing_bytes chain_id (record_hash rec))) h
    where
      go :
          (r : Fallible Bytes Bytes) {sr : SignedRecord}
          → sealed_with signer rec r ≡ ok sr
          → sr.rec ≡ rec
      go (ok sig) {sr} h =
          let same : signed rec signer.key_id sig ≡ sr = cc in
          ap (λ (x : SignedRecord). x.rec) (sym same)
      go (err why) h = absurd cc

  acknowledged_ok :
      (s : Session) (sr : SignedRecord) (r : Fallible Bytes (Unit {0})) {s' : Session}
      {rec : Record}
      → acknowledged s sr r ≡ (s', ok rec)
      → (r ≡ ok tt) × (record s { log = s.log ++ sr ∷ [] } ≡ s')
  acknowledged_ok s sr (ok tt) h = (refl, cc)
  acknowledged_ok s sr (err why) h = absurd cc

  pub durable_ok :
      (s : Session) (r : Fallible Bytes SignedRecord) {s' : Session} {rec : Record}
      → made_durable s r ≡ (s', ok rec)
      → (sr : SignedRecord) × (r ≡ ok sr)
        × (host.wal_append sr ≡ ok tt)
        × (record s { log = s.log ++ sr ∷ [] } ≡ s')
  durable_ok s (ok sr) h =
      let (done, same) = acknowledged_ok s sr (host.wal_append sr) h in (sr, refl, done, same)
  durable_ok s (err why) h = absurd cc

  grown : (s : Session) (sr : SignedRecord) → Grows s (record s { log = s.log ++ sr ∷ [] })
  grown s sr = record {
    added = sr ∷ [];
    log = refl;
    pending = refl;
    pending_to_agent = refl;
    relayed = refl;
    counter = refl;
  }

  durable-Grows : (s : Session) (r : Fallible Bytes SignedRecord) → Grows s (made_durable s r).0
  durable-Grows s (ok sr) = after (host.wal_append sr)
    where
      after : (r : Fallible Bytes (Unit {0})) → Grows s (acknowledged s sr r).0
      after (ok done) = grown s sr
      after (err why) = Grows-refl s
  durable-Grows s (err why) = Grows-refl s

  -- Whatever the outcome, a write changes the chain and the end of the log only.
  pub write-Grows :
      (id : Bytes) (parent : Option Bytes) (payload : Payload) (s : Session)
      → Grows s (write id parent payload s).0
  unfolding write append
  write-Grows id parent payload s =
      let g =
        durable-Grows (record s { chain = (append s.chain (draft_of s id parent payload)).0 })
          (envelope s.origin (append s.chain (draft_of s id parent payload)).0.chain_id
            (append s.chain (draft_of s id parent payload)).1) in
      record {
        added = g.added;
        log = g.log;
        pending = g.pending;
        pending_to_agent = g.pending_to_agent;
        relayed = g.relayed;
        counter = g.counter;
      }

  -- A write that succeeds adds its record to the log.
  pub write_ok :
      (id : Bytes) (parent : Option Bytes) (payload : Payload) (s : Session) {s' : Session}
      {rec : Record}
      → write id parent payload s ≡ (s', ok rec)
      → (sr : SignedRecord) × IsWrite id parent payload sr
        × (s'.log ≡ s.log ++ sr ∷ [])
        × (s'.agent_record_id ≡ s.agent_record_id)
        × Grows s s'
  unfolding write append
  write_ok id parent payload s {s'} h =
      let (w, rec0) = append s.chain (draft_of s id parent payload) in
      let (sr, e, acked, same) =
        durable_ok (record s { chain = w }) (envelope s.origin w.chain_id rec0) h in
      let is_rec : sr.rec ≡ rec0 = envelope-rec s.origin w.chain_id rec0 e in
      let is : IsWrite id parent payload sr = record {
        id_of = ap (λ (r : Record). r.id) is_rec;
        parent_of = ap (λ (r : Record). r.parent_id) is_rec;
        payload_of = ap (λ (r : Record). r.payload) is_rec;
        acknowledged = acked;
      } in
      (
        sr,
        is,
        ap (λ (x : Session). x.log) (sym same),
        ap (λ (x : Session). x.agent_record_id) (sym same),
        record {
          added = sr ∷ [];
          log = ap (λ (x : Session). x.log) (sym same);
          pending = ap (λ (x : Session). x.pending) (sym same);
          pending_to_agent = ap (λ (x : Session). x.pending_to_agent) (sym same);
          relayed = ap (λ (x : Session). x.relayed_to_agent) (sym same);
          counter = ap (λ (x : Session). x.counter) (sym same);
        },
      )

  -- A function that only writes.
  abbrev pub OnlyWrites : {A : Type 0} → Writes A → Type 0
  OnlyWrites m = (s : Session) → Grows s (m s).0

  pub OnlyWrites->> :
      {A B : Type 0} (m : Writes A) (n : Writes B)
      → OnlyWrites m
      → OnlyWrites n
      → OnlyWrites (m >> n)
  OnlyWrites->> {A = A} m n hm hn s = after (m s) (hm s)
    where
      after : (r : Session × Fallible Bytes A) → Grows s r.0 → Grows s (continue_ (λ a. n) r).0
      after (s1, ok a) g = Grows-trans s s1 (n s1).0 g (hn s1)
      after (s1, err why) g = g
