-- ===== src/Wal/Resume.antt =====
-- Restarting on a log: what is adopted, and that the chain goes on.
use obsign.Prelude.{
  ok, ℕ, ◌-◌, ◌≡◌, ◌≢◌, ne→==, refl, Bytes, true, Option, none, some, List, [], ◌∷◌, ◌++◌,
  append-nil, arith, length, length-append, take-append,
}
use obsign.Crypto.{Crypto}
use obsign.Audit.Hash.{Hash, genesis}
use obsign.Audit.Canonical.Items.{Each}
use obsign.Audit.Record.{record_hash}
use obsign.Audit.Checkpoint.{next_u64}
use obsign.Audit.Chain.{Draft, next_record}
use obsign.Audit.Origin.{SignedRecord}
use obsign.Wal.Lines.{utf8_valid, NoNewline}
use obsign.Wal.{
  Codec, replay, check_origins, last, resume_after, trim, set_len, open_impl, open_wal, append,
}
use obsign.Wal.Replay.{
  Prints, Chained, Understood, check_payloads-Understood, log_of, log_of-concat, Each-concat,
  replay-log_of,
}
use obsign.Wal.Torn.{replay-torn}

module _ ⦃c : Crypto⦄ ⦃j : Codec⦄ where
  trim-append :
      (file : Bytes) (b : ℕ) (tail : Bytes) → trim (some (file ++ b ∷ tail)) (length file) ≡ file
  unfolding trim set_len
  trim-append file b tail =
      let longer : length (file ++ b ∷ tail) ≢ length file =
        omega (arith, length-append file (b ∷ tail)) in
      let none_missing : length file - length (file ++ b ∷ tail) ≡ 0 =
        omega (arith, length-append file (b ∷ tail)) in
      rw
        (
          ne→== (length (file ++ b ∷ tail)) (length file) longer,
          take-append file (b ∷ tail),
          none_missing,
        )
        (append-nil file)

  -- After a crash in the middle of a line, `open` cuts the file back to the records before, and the
  -- writer stands behind the last of them.
  pub open_wal-torn :
      (chain_id : Bytes) (rs : List SignedRecord) (b : ℕ) (t : Bytes)
      → Each Prints rs
      → Chained none genesis rs
      → Understood rs
      → NoNewline (b ∷ t)
      → utf8_valid (b ∷ t) ≡ true
      → j.from_str (b ∷ t) ≡ none
      → open_wal chain_id (some (log_of rs ++ b ∷ t))
        ≡ (some (log_of rs), ok (resume_after chain_id (last rs)))
  unfolding open_impl check_origins
  open_wal-torn chain_id rs b t h l k n u e =
      rw (replay-torn rs b t h l n u e, open_impl)
        (rw (trim-append (log_of rs) b t, check_payloads-Understood rs k) refl)

  resume_nonempty :
      (exp : Option ℕ) (prev : Hash) (chain_id : Bytes) (r : SignedRecord) (rs : List SignedRecord)
      (s : SignedRecord) (d : Draft)
      → Chained exp prev (r ∷ rs)
      → s.rec ≡ next_record (resume_after chain_id (last (r ∷ rs))) d
      → Chained exp prev ((r ∷ rs) ++ s ∷ [])
  unfolding last resume_after
  resume_nonempty exp prev chain_id r [] s d h e = (h.0, h.1, (ground arith, ground arith, tt))
  resume_nonempty exp prev chain_id r (q ∷ rs) s d h e = (
    h.0,
    h.1,
    resume_nonempty (some (next_u64 r.seq)) (record_hash r.rec) chain_id q rs s d h.2 e,
  )

  -- The next record of the resumed writer continues the chain of the log.
  pub resume-Chained :
      (chain_id : Bytes) (rs : List SignedRecord) (s : SignedRecord) (d : Draft)
      → Chained none genesis rs
      → s.rec ≡ next_record (resume_after chain_id (last rs)) d
      → Chained none genesis (rs ++ s ∷ [])
  unfolding last resume_after
  resume-Chained chain_id [] s d h e = (tt, ground arith, tt)
  resume-Chained chain_id (r ∷ rs) s d h e = resume_nonempty none genesis chain_id r rs s d h e

  -- A file of chained records of known payload types, each with a text that the codec reads back,
  -- ends in the part of a line that is some UTF-8, has no newline and does not parse. Then `open`
  -- succeeds: it cuts the file back to the records, its writer stands behind the last of them, and
  -- the record that the writer makes next, once appended to that file, is replayed behind them all.
  pub recovery :
      (chain_id : Bytes) (rs : List SignedRecord) (b : ℕ) (t : Bytes) (s : SignedRecord) (d : Draft)
      → Each Prints rs
      → Prints s
      → Chained none genesis rs
      → Understood rs
      → NoNewline (b ∷ t)
      → utf8_valid (b ∷ t) ≡ true
      → j.from_str (b ∷ t) ≡ none
      → s.rec ≡ next_record (resume_after chain_id (last rs)) d
      → (file : Bytes) × (open_wal chain_id (some (log_of rs ++ b ∷ t))
          ≡ (some file, ok (resume_after chain_id (last rs))))
        × (replay (some (append file s)) ≡ ok (rs ++ s ∷ [], length (append file s)))
  unfolding append
  recovery chain_id rs b t s d h p l k n u e made = (
    log_of rs,
    open_wal-torn chain_id rs b t h l k n u e,
    rw (← log_of-concat rs s) (
        replay-log_of (rs ++ s ∷ []) (Each-concat rs s h p)
          (resume-Chained chain_id rs s d l made)),
  )
