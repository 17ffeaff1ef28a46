-- ===== src/Wal/Tests.antt =====
-- The theorems on the log at concrete records, with a codec that writes a record in three bytes.
use obsign.Prelude.{
  err, ok, ℕ, ◌+◌, ◌≡◌, refl, Bytes, codes, none, some, List, [], ◌∷◌, ◌++◌, length, bytes_eq,
  replicate, arith, if◌then◌else◌,
}
use obsign.Audit.Toy.{toy, toy_laws, done, draft, first}
use obsign.Audit.Hash.{genesis}
use obsign.Audit.Canonical.Items.{Each}
use obsign.Audit.Keyring.{KeyMap, get}
use obsign.Audit.Record.{record_hash}
use obsign.Audit.Chain.{next_record, resume}
use obsign.Audit.Origin.{SignedRecord, unsigned, signed, origin_signing_bytes}
use obsign.Audit.Origin.Binding.{verify_origin-signed}
use obsign.Wal.{
  Codec, io, foreign_record, no_origin_signature, replay, last, resume_after, open_impl, open_wal,
  open_authenticated, append, read_all, check_origin, check_origins, check_payloads,
}
use obsign.Wal.Lines.{utf8_valid}
use obsign.Wal.Replay.{Prints, Chained, Understood, log_of, replay-log_of}
use obsign.Wal.Torn.{padded, replay-torn_char, lost_append}
use obsign.Wal.Resume.{recovery}
use obsign.Wal.Origin.{
  SignedBy, replay-Chained, open_authenticated_sound, open_authenticated_refused,
}

abbrev c1 : Bytes
c1 = codes "c1"

abbrev key : Bytes
key = replicate 32 8

-- A record without a signature, the one that a resumed writer makes next, and a signed one.
abbrev plain : SignedRecord
plain = unsigned first

abbrev later : SignedRecord
later = unsigned (next_record (resume c1 1 (record_hash first) none) (draft done))

-- The one after that.
abbrev next : SignedRecord
next = unsigned (next_record (resume c1 2 (record_hash later.rec) none) (draft done))

abbrev vouched : SignedRecord
vouched =
    signed first (codes "og1") (toy.ed25519_sign key (origin_signing_bytes c1 (record_hash first)))

instance abbrev codec : Codec
codec = record {
  to_string = λ r. elim r.origin_key_id [
    | none ↦ b'{' ∷ (48 + r.seq) ∷ b'}' ∷ []
    | some k ↦ b'[' ∷ (48 + r.seq) ∷ b']' ∷ []
  ];
  from_str = λ t.
      if bytes_eq t (codes "{0}")
      then some plain
      else if bytes_eq t (codes "{1}")
      then some later
      else if bytes_eq t (codes "{2}")
      then some next
      else if bytes_eq t (codes "[0]")
      then some vouched
      else none;
}

plain-Prints : Prints plain
unfolding utf8_valid unsigned
plain-Prints = record {
  parsed = refl;
  no_control = omega arith;
  not_empty = λ e. absurd cc;
  utf8 = refl;
}

vouched-Prints : Prints vouched
unfolding utf8_valid signed
vouched-Prints = record {
  parsed = refl;
  no_control = omega arith;
  not_empty = λ e. absurd cc;
  utf8 = refl;
}

next-Prints : Prints next
unfolding utf8_valid unsigned
next-Prints = record {
  parsed = refl;
  no_control = omega arith;
  not_empty = λ e. absurd cc;
  utf8 = refl;
}

later-Prints : Prints later
unfolding utf8_valid unsigned
later-Prints = record {
  parsed = refl;
  no_control = omega arith;
  not_empty = λ e. absurd cc;
  utf8 = refl;
}

plain-Chained : Chained none genesis (plain ∷ [])
unfolding unsigned
plain-Chained = (tt, refl, tt)

two-Chained : Chained none genesis (plain ∷ later ∷ [])
unfolding unsigned
two-Chained = (tt, refl, (refl, refl, tt))

recovery_example :
    (file : Bytes) × (open_wal c1 (some (log_of (plain ∷ []) ++ codes "{1"))
      ≡ (some file, ok (resume_after c1 (last (plain ∷ [])))))
    × (replay (some (append file later))
        ≡ ok ((plain ∷ []) ++ later ∷ [], length (append file later)))
unfolding utf8_valid last unsigned resume_after
recovery_example =
    recovery c1 (plain ∷ []) b'{' (codes "1") later (draft done) (plain-Prints, tt) later-Prints
      plain-Chained (refl, tt) (omega arith) refl refl refl

lost_append_example :
    (open_wal c1 (some (log_of (plain ∷ []) ++ codec.to_string later))
      ≡ (some (padded (plain ∷ []) later), ok (resume_after c1 (some later))))
    × (read_all (some (append (padded (plain ∷ []) later) next)) ≡ ok (plain ∷ []))
unfolding unsigned
lost_append_example =
    lost_append c1 (plain ∷ []) later next (plain-Prints, tt) later-Prints next-Prints two-Chained
      (refl, (refl, tt)) refl

replay-torn_char_example : replay (some (log_of (plain ∷ []) ++ b'{' ∷ 0xc3 ∷ [])) ≡ err io
unfolding utf8_valid
replay-torn_char_example =
    replay-torn_char (plain ∷ []) b'{' (0xc3 ∷ []) (plain-Prints, tt) plain-Chained (omega arith)
      refl

two-replayed :
    replay (some (log_of (plain ∷ later ∷ [])))
    ≡ ok (plain ∷ later ∷ [], length (log_of (plain ∷ later ∷ [])))
two-replayed = replay-log_of (plain ∷ later ∷ []) (plain-Prints, (later-Prints, tt)) two-Chained

replay-log_of_example :
    replay (some (log_of (plain ∷ later ∷ [])))
    ≡ ok (plain ∷ later ∷ [], length (log_of (plain ∷ later ∷ [])))
replay-log_of_example =
    replay-log_of (plain ∷ later ∷ []) (plain-Prints, (later-Prints, tt)) two-Chained

replay-Chained_example : Chained none genesis (plain ∷ later ∷ [])
replay-Chained_example =
    replay-Chained (some (log_of (plain ∷ later ∷ []))) (plain ∷ later ∷ [])
      (length (log_of (plain ∷ later ∷ []))) two-replayed

abbrev trusted : KeyMap
trusted = (codes "og1", key) ∷ []

vouched-replayed :
    replay (some (log_of (vouched ∷ []))) ≡ ok (vouched ∷ [], length (log_of (vouched ∷ [])))
unfolding signed
vouched-replayed = replay-log_of (vouched ∷ []) (vouched-Prints, tt) (tt, refl, tt)

vouched-trusted : check_origins c1 (some trusted) (vouched ∷ []) ≡ ok tt
unfolding check_origins check_origin signed get
vouched-trusted = rw (verify_origin-signed toy_laws c1 (codes "og1") key first, check_origin) refl

vouched-opened :
    (open_authenticated c1 trusted (some (log_of (vouched ∷ [])))).1
    ≡ ok (resume_after c1 (last (vouched ∷ [])))
unfolding open_impl check_payloads signed
vouched-opened = rw (vouched-replayed, open_impl) (rw vouched-trusted refl)

open_authenticated_sound_example :
    (rs : List SignedRecord) × (n : ℕ) × (replay (some (log_of (vouched ∷ []))) ≡ ok (rs, n))
    × Chained none genesis rs
    × Each (SignedBy c1 trusted) rs
    × Understood rs
    × (resume_after c1 (last (vouched ∷ [])) ≡ resume_after c1 (last rs))
open_authenticated_sound_example =
    open_authenticated_sound c1 trusted (some (log_of (vouched ∷ []))) vouched-opened

plain-replayed : replay (some (log_of (plain ∷ []))) ≡ ok (plain ∷ [], length (log_of (plain ∷ [])))
plain-replayed = replay-log_of (plain ∷ []) (plain-Prints, tt) plain-Chained

plain-refused :
    (open_authenticated c1 trusted (some (log_of (plain ∷ [])))).1
    ≡ err (foreign_record 0 no_origin_signature)
unfolding open_impl check_origins check_origin unsigned
plain-refused = rw (plain-replayed, open_impl) refl

open_authenticated_refused_example :
    (open_authenticated c1 trusted (some (log_of (plain ∷ [])))).0 ≡ some (log_of (plain ∷ []))
open_authenticated_refused_example =
    open_authenticated_refused c1 trusted (some (log_of (plain ∷ []))) 0 no_origin_signature
      plain-refused
