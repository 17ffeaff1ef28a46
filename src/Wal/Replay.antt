-- ===== src/Wal/Replay.antt =====
-- Replaying a log gives back the records that were appended to it.
use obsign.Prelude.{
  err, ok, ◌>>=◌, ℕ, ◌+◌, ◌≡◌, ◌≢◌, refl, ap, sym, ◌∙◌, Bytes, true, Option, none, some, List, [],
  ◌∷◌, ◌++◌, append-nil, append_assoc, arith, length, length-append, bytes_eq_iff,
}
use obsign.Crypto.{Crypto}
use obsign.Audit.Hash.{Hash, genesis}
use obsign.Audit.Canonical.Items.{Each}
use obsign.Audit.Payload.{is_understood}
use obsign.Audit.Record.{record_hash}
use obsign.Audit.Checkpoint.{next_u64}
use obsign.Audit.Origin.{SignedRecord}
use obsign.Wal.Lines.{
  lines_from, read_lines, utf8_valid, NoControl, NoNewline-of_NoControl, read_lines-line,
}
use obsign.Wal.{
  WalError, Codec, Result, Replayed, start, accept, check_next, replay_lines, replay,
  check_payloads, last, line_of,
}

module _ ⦃c : Crypto⦄ ⦃j : Codec⦄ where
  -- What `serde_json` documents, at a record: its text is read back as the record, is some UTF-8, and
  -- has control characters escaped.
  pub record Prints (r : SignedRecord) : Type 0 where
    pub parsed : j.from_str (j.to_string r) ≡ some r
    pub no_control : NoControl (j.to_string r)
    pub not_empty : j.to_string r ≢ []
    pub utf8 : utf8_valid (j.to_string r) ≡ true

  -- The file that appending the records one by one to an empty file leaves.
  abbrev pub log_of : List SignedRecord → Bytes
  log_of [] = []
  log_of (r ∷ rs) = line_of r ++ log_of rs

  abbrev pub texts_of : List SignedRecord → List Bytes
  texts_of [] = []
  texts_of (r ∷ rs) = j.to_string r ∷ texts_of rs

  abbrev pub FollowsSeq : Option ℕ → ℕ → Type 0
  FollowsSeq none seq = Unit
  FollowsSeq (some exp) seq = seq ≡ exp

  -- The records form a chain: consecutive positions, and each linked to the one before.
  abbrev pub Chained : Option ℕ → Hash → List SignedRecord → Type 0
  Chained exp prev [] = Unit
  Chained exp prev (r ∷ rs) =
      FollowsSeq exp r.seq
      × (r.prev_hash ≡ prev)
      × Chained (some (next_u64 r.seq)) (record_hash r.rec) rs

  -- The loop's variables after the records.
  abbrev pub after : Replayed → List SignedRecord → Replayed
  after s [] = s
  after s (r ∷ rs) = after (accept s (length (j.to_string r) + 1) r) rs

  check_next_complete :
      (s : Replayed) (i : ℕ) (r : SignedRecord)
      → FollowsSeq s.expected_seq r.seq
      → r.prev_hash ≡ s.expected_prev
      → check_next s i r ≡ ok tt
  unfolding check_next
  check_next_complete s i r f p = ground (arith, bytes_eq_iff r.prev_hash s.expected_prev)

  pub read_lines-log_of :
      (rs : List SignedRecord) (tail : Bytes)
      → Each Prints rs
      → read_lines (log_of rs ++ tail) ≡ texts_of rs ++ read_lines tail
  read_lines-log_of [] tail h = refl
  read_lines-log_of (r ∷ rs) tail h = simp append_assoc (
      rw
        (read_lines-line (j.to_string r) (log_of rs ++ tail)
          (NoNewline-of_NoControl (j.to_string r) h.0.no_control))
        (ap (◌∷◌ (j.to_string r)) (read_lines-log_of rs tail h.1)))

  -- The loop runs through the lines of chained records and goes on behind them.
  pub replay_lines-texts_of :
      (total i : ℕ) (s : Replayed) (rs : List SignedRecord) (tail : List Bytes)
      → Each Prints rs
      → Chained s.expected_seq s.expected_prev rs
      → replay_lines total i s (texts_of rs ++ tail)
        ≡ replay_lines total (i + length rs) (after s rs) tail
  unfolding replay_lines
  replay_lines-texts_of total i s [] tail h l =
      ap (λ (n : ℕ). replay_lines total n s tail) (omega arith)
  replay_lines-texts_of total i s (r ∷ rs) tail h l =
      rw (h.0.utf8, h.0.parsed, check_next_complete s i r l.0 l.1)
        (replay_lines-texts_of total (i + 1) (accept s (length (j.to_string r) + 1) r) rs tail h.1
            l.2
          ∙ ap (λ (n : ℕ). replay_lines total n (after s (r ∷ rs)) tail) (omega arith))

  pub after_good_len :
      (s : Replayed) (rs : List SignedRecord)
      → (after s rs).good_len ≡ s.good_len + length (log_of rs)
  after_good_len s [] = omega arith
  after_good_len s (r ∷ rs) = omega (
    arith,
    after_good_len (accept s (length (j.to_string r) + 1) r) rs,
    length-append (line_of r) (log_of rs),
    length-append (j.to_string r) (b'\n' ∷ []),
  )

  pub after_records :
      (s : Replayed) (rs : List SignedRecord) → (after s rs).records ≡ s.records ++ rs
  after_records s [] = sym (append-nil s.records)
  after_records s (r ∷ rs) =
      after_records (accept s (length (j.to_string r) + 1) r) rs ∙ append_assoc s.records _ rs

  abbrev pub outcome : Replayed → Result (List SignedRecord × ℕ)
  outcome s = ok (s.records, s.good_len)

  -- Behind a log of chained records, the loop goes on with the lines of what follows.
  pub replay-log_of-append :
      (rs : List SignedRecord) (tail : Bytes)
      → Each Prints rs
      → Chained none genesis rs
      → replay (some (log_of rs ++ tail)) ≡ (
          replay_lines
            (length (log_of rs ++ tail))
            (0 + length rs)
            (after start rs)
            (read_lines tail)
          >>= outcome)
  unfolding replay
  replay-log_of-append rs tail h l = rw (read_lines-log_of rs tail h) (
      ap (λ (m : Result Replayed). m >>= outcome)
        (replay_lines-texts_of (length (log_of rs ++ tail)) 0 start rs (read_lines tail) h l))

  -- Replaying the file that appending chained records leaves, each with a text that the codec reads
  -- back, gives the records, and the whole file as its healthy prefix.
  pub replay-log_of :
      (rs : List SignedRecord)
      → Each Prints rs
      → Chained none genesis rs
      → replay (some (log_of rs)) ≡ ok (rs, length (log_of rs))
  replay-log_of rs h l =
      let good : (after start rs).good_len ≡ length (log_of rs) =
        omega (arith, after_good_len start rs) in
      ap (λ (file : Bytes). replay (some file)) (sym (append-nil (log_of rs)))
      ∙ replay-log_of-append rs [] h l
      ∙ unfold replay_lines lines_from in cc (after_records start rs, good)

  pub Chained-concat :
      (exp : Option ℕ) (prev : Hash) (rs : List SignedRecord) (r : SignedRecord)
      → Chained exp prev (rs ++ r ∷ [])
      → Chained exp prev rs
  Chained-concat exp prev [] r h = tt
  Chained-concat exp prev (s ∷ rs) r h =
      (h.0, h.1, Chained-concat (some (next_u64 s.seq)) (record_hash s.rec) rs r h.2)

  pub Each-concat :
      (rs : List SignedRecord) (r : SignedRecord)
      → Each Prints rs
      → Prints r
      → Each Prints (rs ++ r ∷ [])
  Each-concat [] r h p = (p, tt)
  Each-concat (s ∷ rs) r h p = (h.0, Each-concat rs r h.1 p)

  pub log_of-concat :
      (rs : List SignedRecord) (r : SignedRecord) → log_of (rs ++ r ∷ []) ≡ log_of rs ++ line_of r
  log_of-concat [] r = append-nil (line_of r)
  log_of-concat (s ∷ rs) r =
      ap (λ (f : Bytes). line_of s ++ f) (log_of-concat rs r) ∙ sym (append_assoc (line_of s) _ _)

  pub texts_of-concat :
      (rs : List SignedRecord) (r : SignedRecord)
      → texts_of (rs ++ r ∷ []) ≡ texts_of rs ++ j.to_string r ∷ []
  texts_of-concat [] r = refl
  texts_of-concat (s ∷ rs) r = ap (◌∷◌ (j.to_string s)) (texts_of-concat rs r)

  -- Every payload is of a type that the build knows.
  abbrev pub Understood : List SignedRecord → Type 0
  Understood rs = Each (λ (r : SignedRecord). is_understood r.payload ≡ true) rs

  pub check_payloads-Understood :
      (rs : List SignedRecord) → Understood rs → check_payloads rs ≡ ok tt
  unfolding check_payloads
  check_payloads-Understood [] h = refl
  check_payloads-Understood (r ∷ rs) h = rw h.0 (check_payloads-Understood rs h.1)

  pub last-concat : (rs : List SignedRecord) (r : SignedRecord) → last (rs ++ r ∷ []) ≡ some r
  unfolding last
  last-concat [] r = refl
  last-concat (q ∷ []) r = refl
  last-concat (q ∷ p ∷ rs) r = last-concat (p ∷ rs) r

  pub after_expected :
      (s : Replayed) (rs : List SignedRecord) (r : SignedRecord)
      → (after s (rs ++ r ∷ [])).expected_seq ≡ some (next_u64 r.seq)
  after_expected s [] r = refl
  after_expected s (q ∷ rs) r = after_expected (accept s (length (j.to_string q) + 1) q) rs r

  -- Where the last record of a log is refused behind the others, the replay ends with that error.
  pub replay-refused :
      (rs : List SignedRecord) (r : SignedRecord) {e : WalError}
      → Each Prints rs
      → Prints r
      → Chained none genesis rs
      → check_next (after start rs) (0 + length rs) r ≡ err e
      → replay (some (log_of (rs ++ r ∷ []))) ≡ err e
  unfolding replay_lines
  replay-refused rs r h p l refused = rw (log_of-concat rs r) (
      replay-log_of-append rs (line_of r) h l
      ∙ rw
          (
            read_lines-line (j.to_string r) []
                (NoNewline-of_NoControl (j.to_string r) p.no_control),
            p.utf8,
            p.parsed,
            refused,
          )
          refl)
