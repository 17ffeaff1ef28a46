-- ===== src/Wal/Torn.antt =====
-- A crash in the middle of an `append`: the file ends in a part of a line.
use obsign.Prelude.{
  err, ok, ◌>>=◌, ℕ, ◌+◌, ◌-◌, ◌≤◌, ◌≡◌, ◌≢◌, refl, le→leb, ne→==, take-eq_of_ge, ap, sym, ◌∙◌,
  Bytes, true, false, none, some, List, [], ◌∷◌, ◌++◌, append-nil, append_assoc, arith, length,
  length-append,
}
use obsign.Crypto.{Crypto}
use obsign.Audit.Hash.{genesis}
use obsign.Audit.Canonical.Items.{Each}
use obsign.Audit.Origin.{SignedRecord}
use obsign.Wal.Lines.{
  lines_from, read_lines, read_lines-end, read_lines-line, utf8_valid, utf8_valid-append,
  utf8_valid-cons_zero, NoNewline, NoNewline-append, NoNewline-of_NoControl,
}
use obsign.Wal.{
  Codec, Result, io, Replayed, start, replay_lines, replay, line_of, open_impl, open_wal,
  check_origins, resume_after, read_all, trim, set_len, append,
}
use obsign.Wal.Replay.{
  Prints, Chained, log_of, after, after_good_len, after_records, outcome, replay-log_of-append,
  texts_of, texts_of-concat, log_of-concat, Each-concat, Chained-concat, read_lines-log_of,
  replay_lines-texts_of, Understood, check_payloads-Understood, last-concat,
}

module _ ⦃c : Crypto⦄ ⦃j : Codec⦄ where
  -- The last line is dropped if it does not parse.
  replay_lines-dropped :
      (total i : ℕ) (s : Replayed) (line : Bytes)
      → utf8_valid line ≡ true
      → j.from_str line ≡ none
      → total ≤ s.good_len + (length line + 1)
      → replay_lines total i s (line ∷ []) ≡ ok s
  unfolding replay_lines
  replay_lines-dropped total i s line u e n =
      rw (u, e, le→leb total (s.good_len + (length line + 1)) n)

  good_len-after : (rs : List SignedRecord) → (after start rs).good_len ≡ length (log_of rs)
  good_len-after rs = omega (arith, after_good_len start rs)

  -- Replaying ends behind the log if the loop passes over what follows.
  outcome-after : (rs : List SignedRecord) → outcome (after start rs) ≡ ok (rs, length (log_of rs))
  outcome-after rs = cc (after_records start rs, good_len-after rs)

  -- Behind a log, a part of a line that does not parse is left out.
  pub replay-torn :
      (rs : List SignedRecord) (b : ℕ) (t : Bytes)
      → Each Prints rs
      → Chained none genesis rs
      → NoNewline (b ∷ t)
      → utf8_valid (b ∷ t) ≡ true
      → j.from_str (b ∷ t) ≡ none
      → replay (some (log_of rs ++ b ∷ t)) ≡ ok (rs, length (log_of rs))
  replay-torn rs b t h l n u e =
      replay-log_of-append rs (b ∷ t) h l
      ∙ rw
          (
            read_lines-end b t n,
            replay_lines-dropped (length (log_of rs ++ b ∷ t)) (0 + length rs) (after start rs)
                (b ∷ t) u e (omega (arith, good_len-after rs, length-append (log_of rs) (b ∷ t))),
          )
          (outcome-after rs)

  -- A file of chained records, each with a text that the codec reads back, that ends in a part of a
  -- line which is no UTF-8: the replay stops with an i/o error.
  pub replay-torn_char :
      (rs : List SignedRecord) (b : ℕ) (t : Bytes)
      → Each Prints rs
      → Chained none genesis rs
      → NoNewline (b ∷ t)
      → utf8_valid (b ∷ t) ≡ false
      → replay (some (log_of rs ++ b ∷ t)) ≡ err io
  unfolding replay_lines
  replay-torn_char rs b t h l n u =
      replay-log_of-append rs (b ∷ t) h l ∙ rw (read_lines-end b t n, u) refl

  read_lines-text : (t : Bytes) → NoNewline t → t ≢ [] → read_lines t ≡ t ∷ []
  read_lines-text [] n e = absurd (e refl)
  read_lines-text (b ∷ t) n e = read_lines-end b t n

  replay_lines-end : (total i : ℕ) (s : Replayed) → replay_lines total i s [] ≡ ok s
  unfolding replay_lines
  replay_lines-end total i s = refl

  -- A whole record without its "\n" is read back, and its line counted as one byte longer than
  -- the file.
  pub replay-no_newline :
      (rs : List SignedRecord) (r : SignedRecord)
      → Each Prints rs
      → Prints r
      → Chained none genesis (rs ++ r ∷ [])
      → replay (some (log_of rs ++ j.to_string r))
        ≡ ok (rs ++ r ∷ [], length (log_of rs ++ j.to_string r) + 1)
  unfolding replay
  replay-no_newline rs r h p l =
      let file = log_of rs ++ j.to_string r in
      let lines : read_lines file ≡ texts_of (rs ++ r ∷ []) ++ [] =
        read_lines-log_of rs (j.to_string r) h
        ∙ rw (read_lines-text (j.to_string r) (NoNewline-of_NoControl _ p.no_control) p.not_empty)
            (rw append-nil (sym (texts_of-concat rs r))) in
      let run =
        replay_lines-texts_of (length file) 0 start (rs ++ r ∷ []) [] (Each-concat rs r h p) l
        ∙ replay_lines-end (length file) _ (after start (rs ++ r ∷ [])) in
      let size : length (log_of (rs ++ r ∷ [])) ≡ length file + 1 = omega (
        arith,
        ap length (log_of-concat rs r),
        length-append (log_of rs) (line_of r),
        length-append (log_of rs) (j.to_string r),
        length-append (j.to_string r) (b'\n' ∷ []),
      ) in
      ap (λ (m : Result Replayed). m >>= outcome)
        (ap (replay_lines (length file) 0 start) lines ∙ run)
      ∙ outcome-after (rs ++ r ∷ [])
      ∙ ap (λ (n : ℕ). ok (rs ++ r ∷ [], n)) size

  -- Two texts with a zero byte between them, as one line of a file.
  glued : SignedRecord → SignedRecord → Bytes
  glued r s = j.to_string r ++ 0 ∷ j.to_string s

  glued-NoNewline : (r s : SignedRecord) → Prints r → Prints s → NoNewline (glued r s)
  unfolding glued
  glued-NoNewline r s p q =
      NoNewline-append (j.to_string r) (0 ∷ j.to_string s) (NoNewline-of_NoControl _ p.no_control)
        ((omega arith, omega arith), NoNewline-of_NoControl _ q.no_control)

  glued-utf8 : (r s : SignedRecord) → Prints r → Prints s → utf8_valid (glued r s) ≡ true
  unfolding glued
  glued-utf8 r s p q =
      utf8_valid-append (j.to_string r) (0 ∷ j.to_string s) p.utf8
      ∙ utf8_valid-cons_zero (j.to_string s)
      ∙ q.utf8

  -- Padding a file by one byte.
  set_len_one_more : (file : Bytes) → set_len (length file + 1) file ≡ file ++ 0 ∷ []
  unfolding set_len
  set_len_one_more file =
      let missing : length file + 1 - length file ≡ 1 = omega arith in
      rw (take-eq_of_ge (length file + 1) file (omega arith), missing) refl

  -- The file that `open` leaves behind a crash between a record and its "\n".
  abbrev pub padded : List SignedRecord → SignedRecord → Bytes
  padded rs r = (log_of rs ++ j.to_string r) ++ 0 ∷ []

  open_wal-no_newline :
      (chain_id : Bytes) (rs : List SignedRecord) (r : SignedRecord)
      → Each Prints rs
      → Prints r
      → Chained none genesis (rs ++ r ∷ [])
      → Understood (rs ++ r ∷ [])
      → open_wal chain_id (some (log_of rs ++ j.to_string r))
        ≡ (some (padded rs r), ok (resume_after chain_id (some r)))
  unfolding open_impl check_origins trim
  open_wal-no_newline chain_id rs r h p l k =
      let file = log_of rs ++ j.to_string r in
      let longer : length file ≢ length file + 1 = omega arith in
      rw (replay-no_newline rs r h p l, ne→== (length file) (length file + 1) longer, open_impl)
        (rw (set_len_one_more file, check_payloads-Understood (rs ++ r ∷ []) k, last-concat rs r)
          refl)

  padded-append :
      (rs : List SignedRecord) (r s : SignedRecord)
      → padded rs r ++ line_of s ≡ log_of rs ++ (glued r s ++ b'\n' ∷ [])
  unfolding glued
  padded-append rs r s = simp append_assoc

  replay-glued :
      (rs : List SignedRecord) (r s : SignedRecord)
      → Prints r
      → Prints s
      → j.from_str (j.to_string r ++ 0 ∷ j.to_string s) ≡ none
      → replay_lines
          (length (log_of rs ++ (glued r s ++ b'\n' ∷ [])))
          (0 + length rs)
          (after start rs)
          (read_lines (glued r s ++ b'\n' ∷ []))
        ≡ ok (after start rs)
  unfolding lines_from
  replay-glued rs r s p q e = rw (read_lines-line (glued r s) [] (glued-NoNewline r s p q)) (
      replay_lines-dropped _ (0 + length rs) (after start rs) (glued r s) (glued-utf8 r s p q)
        (unfold glued in e)
        (omega (
          arith,
          good_len-after rs,
          length-append (log_of rs) (glued r s ++ b'\n' ∷ []),
          length-append (glued r s) (b'\n' ∷ []),
        )))

  read_all-padded :
      (rs : List SignedRecord) (r s : SignedRecord)
      → Each Prints rs
      → Prints r
      → Prints s
      → Chained none genesis (rs ++ r ∷ [])
      → j.from_str (j.to_string r ++ 0 ∷ j.to_string s) ≡ none
      → read_all (some (append (padded rs r) s)) ≡ ok rs
  unfolding append
  read_all-padded rs r s h p q l e =
      ap (λ (f : Bytes). read_all (some f)) (padded-append rs r s)
      ∙ ap (λ (m : Result (List SignedRecord × ℕ)). m >>= λ x. ok x.0)
          (replay-log_of-append rs (glued r s ++ b'\n' ∷ []) h (Chained-concat none genesis rs r l)
            ∙ ap (λ (m : Result Replayed). m >>= outcome) (replay-glued rs r s p q e)
            ∙ outcome-after rs)

  -- A crash after a whole record and before its "\n" costs the next record. The records up to that one
  -- are chained and of known payload types, the texts of these and of a further record are read back,
  -- and the text of the last one, a zero byte and the text of the further one do not parse together.
  -- Then `open` succeeds: it pads the file with a zero byte, and its writer stands behind the last
  -- record; and when the further one is appended to that file, a replay gives neither of the two.
  pub lost_append :
      (chain_id : Bytes) (rs : List SignedRecord) (r s : SignedRecord)
      → Each Prints rs
      → Prints r
      → Prints s
      → Chained none genesis (rs ++ r ∷ [])
      → Understood (rs ++ r ∷ [])
      → j.from_str (j.to_string r ++ 0 ∷ j.to_string s) ≡ none
      → (open_wal chain_id (some (log_of rs ++ j.to_string r))
          ≡ (some (padded rs r), ok (resume_after chain_id (some r))))
        × (read_all (some (append (padded rs r) s)) ≡ ok rs)
  lost_append chain_id rs r s h p q l k e =
      (open_wal-no_newline chain_id rs r h p l k, read_all-padded rs r s h p q l e)
