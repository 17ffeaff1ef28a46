-- ===== src/Gateway/Gap.antt =====
-- crates/obsign-proxy/src/session.rs with crates/obsign-wal: what a failed write leaves behind.
use obsign.Prelude.{
  ◌≡◌, refl, sym, ap, ◌∙◌, ◌≢◌, ℕ, ◌+◌, Bytes, Option, none, some, subst, length, List, [], ◌∷◌,
  ◌++◌, Fallible, ok, err, arith, ne→==,
}
use obsign.Crypto.{Crypto}
use obsign.Audit.Payload.{Payload}
use obsign.Audit.Record.{Record}
use obsign.Audit.Checkpoint.{next_u64}
use obsign.Audit.Chain.{append}
use obsign.Audit.Origin.{SignedRecord}
use obsign.Wal.{Codec, start, check_next, replay, broken_chain, unexpected_seq}
use obsign.Wal.Replay.{Prints, Chained, log_of, after, after_expected, replay-refused}
use obsign.Audit.Hash.{genesis}
use obsign.Audit.Canonical.Items.{Each}
use obsign.Gateway.{Host}
use obsign.Gateway.Session.{Session, envelope, made_durable, acknowledged, draft_of, write}
use obsign.Gateway.Writes.{durable_ok, envelope-rec}

module _ ⦃c : Crypto⦄ ⦃host : Host⦄ where
  acknowledged_fault :
      (s : Session) (sr : SignedRecord) (r : Fallible Bytes (Unit {0})) {s' : Session} {why : Bytes}
      → acknowledged s sr r ≡ (s', err why)
      → s ≡ s'
  acknowledged_fault s sr (ok done) h = absurd cc
  acknowledged_fault s sr (err e) h = ap (λ (x : Session × Fallible Bytes Record). x.0) h

  durable_fault :
      (s : Session) (r : Fallible Bytes SignedRecord) {s' : Session} {why : Bytes}
      → made_durable s r ≡ (s', err why)
      → s ≡ s'
  durable_fault s (ok sr) h = acknowledged_fault s sr (host.wal_append sr) h
  durable_fault s (err e) h = ap (λ (x : Session × Fallible Bytes Record). x.0) h

  -- A write that fails has taken its position all the same, and left nothing in the log.
  write_fault :
      (id : Bytes) (parent : Option Bytes) (payload : Payload) (s : Session) {s' : Session}
      {why : Bytes}
      → write id parent payload s ≡ (s', err why)
      → (s'.log ≡ s.log) × (s'.chain.next_seq ≡ next_u64 s.chain.next_seq)
  unfolding write append
  write_fault id parent payload s h =
      let (w, rec) = append s.chain (draft_of s id parent payload) in
      let same = durable_fault (record s { chain = w }) (envelope s.origin w.chain_id rec) h in
      (ap (λ (x : Session). x.log) (sym same), ap (λ (x : Session). x.chain.next_seq) (sym same))

  -- A write that succeeds has the position of the chain.
  write_seq :
      (id : Bytes) (parent : Option Bytes) (payload : Payload) (s : Session) {s' : Session}
      {rec : Record}
      → write id parent payload s ≡ (s', ok rec)
      → (sr : SignedRecord) × (s'.log ≡ s.log ++ sr ∷ []) × (sr.seq ≡ s.chain.next_seq)
  unfolding write append
  write_seq id parent payload s h =
      let (w, rec0) = append s.chain (draft_of s id parent payload) in
      let (sr, e, acked, same) =
        durable_ok (record s { chain = w }) (envelope s.origin w.chain_id rec0) h in
      let is_rec : sr.rec ≡ rec0 = envelope-rec s.origin w.chain_id rec0 e in
      (sr, ap (λ (x : Session). x.log) (sym same), ap (λ (r : Record). r.seq) is_rec)

  next_is_other : (n : ℕ) → next_u64 (next_u64 n) ≢ next_u64 n
  next_is_other n h = omega (arith, h)

  split-Each :
      ⦃j : Codec⦄ (rs : List SignedRecord) (r : SignedRecord)
      → Each Prints (rs ++ r ∷ [])
      → Each Prints rs × Prints r
  split-Each [] r h = (tt, h.0)
  split-Each (q ∷ rs) r h = let (each, last) = split-Each rs r h.1 in ((h.0, each), last)

  -- A session whose log is a chain that is not empty, with the writer behind its last record, fails to
  -- write one record and succeeds with the next. Then the log has the second record right behind what
  -- it had before the first, and the replay of the file of this log, each record with a text that the
  -- codec reads back, fails with a broken chain: it expects the position of the first record.
  pub write_gap :
      ⦃j : Codec⦄ (id id2 : Bytes) (parent parent2 : Option Bytes) (payload payload2 : Payload)
      (earlier : List SignedRecord) (newest : SignedRecord) (s : Session) {s1 s2 : Session}
      {why : Bytes} {rec : Record}
      → s.log ≡ earlier ++ newest ∷ []
      → Chained none genesis s.log
      → s.chain.next_seq ≡ next_u64 newest.seq
      → Each Prints s2.log
      → write id parent payload s ≡ (s1, err why)
      → write id2 parent2 payload2 s1 ≡ (s2, ok rec)
      → (sr : SignedRecord) × (s2.log ≡ s.log ++ sr ∷ [])
        × (replay (some (log_of s2.log))
            ≡ err (broken_chain (unexpected_seq s.chain.next_seq sr.seq (length s.log + 1))))
  unfolding check_next
  write_gap id id2 parent parent2 payload payload2 earlier newest s {s1} {s2} is_log chained behind
        prints failed written =
      let (log1, next) = write_fault id parent payload s failed in
      let (sr, log2, seq) = write_seq id2 parent2 payload2 s1 written in
      let log : s2.log ≡ s.log ++ sr ∷ [] =
        log2 ∙ ap (λ (x : List SignedRecord). x ++ sr ∷ []) log1 in
      let (each, last) = split-Each s.log sr (subst (Each Prints) log prints) in
      let expects : (after start s.log).expected_seq ≡ some s.chain.next_seq =
        ap (λ (x : List SignedRecord). (after start x).expected_seq) is_log
        ∙ after_expected start earlier newest
        ∙ ap some (sym behind) in
      let other : sr.seq ≢ s.chain.next_seq = λ e.
        next_is_other newest.seq (ap next_u64 (sym behind) ∙ sym next ∙ sym seq ∙ e ∙ behind) in
      let line : 0 + length s.log + 1 ≡ length s.log + 1 = omega arith in
      let refused : check_next (after start s.log) (0 + length s.log) sr
          ≡ err (broken_chain (unexpected_seq s.chain.next_seq sr.seq (length s.log + 1))) =
        rw (expects, ne→== sr.seq s.chain.next_seq other, line) refl in
      (
        sr,
        log,
        ap (λ (x : List SignedRecord). replay (some (log_of x))) log
            ∙ replay-refused s.log sr each last chained refused,
      )
