-- ===== src/Wal.antt =====
-- crates/obsign-wal/src/lib.rs: the write-ahead log, a file of one JSON record a line. A file is
-- its bytes; `none` stands for a path where nothing is.
pub mod Lines
pub mod Replay
pub mod Torn
pub mod Resume
pub mod Origin
mod Tests
use obsign.Prelude.{
  Fallible, err, ok, refuse_if, ◌>>=◌, ◌>>◌, ℕ, ◌+◌, ◌-◌, Bytes, Bool, not, Option, none, some,
  List, [], ◌∷◌, ◌++◌, bytes_eq, ◌==◌, leb, length, take, replicate, if◌then◌else◌,
}
use obsign.Crypto.{Crypto}
use obsign.Audit.Hash.{Hash, genesis}
use obsign.Audit.Error.{Error}
use obsign.Audit.Payload.{is_understood, kind_str}
use obsign.Audit.Record.{record_hash}
use obsign.Audit.Checkpoint.{next_u64}
use obsign.Audit.Keyring.{KeyMap, get}
use obsign.Audit.Chain.{ChainWriter, new_chain, resume}
use obsign.Audit.Origin.{SignedRecord, verify_origin}
use obsign.Wal.Lines.{read_lines, utf8_valid}

-- `serde_json` at the type `SignedRecord`: `from_str` of one line, and `to_string`.
pub record Codec : Type 0 where
  pub from_str : Bytes → Option SignedRecord
  pub to_string : SignedRecord → Bytes

pub data ChainFault : Type 0 where
  -- "expected seq {}, found {} at line {}"
  unexpected_seq : ℕ → ℕ → ℕ → ChainFault
  -- "broken link at line {} (seq {})"
  broken_link : ℕ → ℕ → ChainFault

pub data ForeignReason : Type 0 where
  no_origin_signature : ForeignReason
  key_not_trusted : Bytes → ForeignReason
  origin_refused : Error → ForeignReason

pub data WalError : Type 0 where
  io : WalError
  corrupt : ℕ → WalError
  broken_chain : ChainFault → WalError
  unreadable_payload : ℕ → Bytes → WalError
  foreign_record : ℕ → ForeignReason → WalError

abbrev pub Result {ℓ} : Type ℓ → Type ℓ
Result A = Fallible WalError A

-- The variables of the loop of `replay`.
pub record Replayed : Type 0 where
  pub records : List SignedRecord
  pub good_len : ℕ
  pub expected_prev : Hash
  pub expected_seq : Option ℕ

abbrev pub start : Replayed
start = record { records = []; good_len = 0; expected_prev = genesis; expected_seq = none }

-- `File::set_len`: the file is cut, or padded with zeros.
unfoldable pub set_len : ℕ → Bytes → Bytes
set_len n file = take n file ++ replicate (n - length file) 0

module _ ⦃c : Crypto⦄ ⦃j : Codec⦄ where
  -- The two tests of a parsed line.
  unfoldable pub check_next : Replayed → ℕ → SignedRecord → Result (Unit {0})
  check_next s i rec = do
    elim s.expected_seq [
      | none ↦ ok tt
      | some exp ↦
          refuse_if (not (rec.seq == exp)) (broken_chain (unexpected_seq exp rec.seq (i + 1)))
    ]
    refuse_if (not (bytes_eq rec.prev_hash s.expected_prev))
        (broken_chain (broken_link (i + 1) rec.seq))

  abbrev pub accept : Replayed → ℕ → SignedRecord → Replayed
  accept s raw_len rec = record {
    records = s.records ++ rec ∷ [];
    good_len = s.good_len + raw_len;
    expected_prev = record_hash rec.rec;
    expected_seq = some (next_u64 rec.seq);
  }

  -- The loop over the lines, from line number `i`, in a file of `total` bytes.
  unfoldable pub replay_lines : ℕ → ℕ → Replayed → List Bytes → Result Replayed
  replay_lines total i s [] = ok s
  replay_lines total i s (line ∷ rest) =
      let raw_len = length line + 1 in
      if not (utf8_valid line) then err io else elim (j.from_str line) [
        | none ↦ if leb total (s.good_len + raw_len) then ok s else err (corrupt (i + 1))
        | some rec ↦ check_next s i rec >> replay_lines total (i + 1) (accept s raw_len rec) rest
      ]

  unfoldable pub replay : Option Bytes → Result (List SignedRecord × ℕ)
  replay none = ok ([], 0)
  replay (some file) = do
    s ← replay_lines (length file) 0 start (read_lines file)
    ok (s.records, s.good_len)

  -- One turn of the loop over the replayed records, against the trusted keys.
  unfoldable pub check_origin : Bytes → KeyMap → SignedRecord → Result (Unit {0})
  check_origin chain_id trusted rec = elim rec.origin_key_id [
    | none ↦ err (foreign_record rec.seq no_origin_signature)
    | some kid ↦ elim (get kid trusted) [
      | none ↦ err (foreign_record rec.seq (key_not_trusted kid))
      | some vk ↦ elim (verify_origin rec chain_id vk) [
        | ok u ↦ ok u
        | err e ↦ err (foreign_record rec.seq (origin_refused e))
      ]
    ]
  ]

  unfoldable pub check_origins : Bytes → Option KeyMap → List SignedRecord → Result (Unit {0})
  check_origins chain_id none recs = ok tt
  check_origins chain_id (some trusted) [] = ok tt
  check_origins chain_id (some trusted) (rec ∷ recs) =
      check_origin chain_id trusted rec >> check_origins chain_id (some trusted) recs

  -- `records.iter().find` of a payload that is not understood.
  unfoldable pub check_payloads : List SignedRecord → Result (Unit {0})
  check_payloads [] = ok tt
  check_payloads (rec ∷ recs) =
      refuse_if (not (is_understood rec.payload))
        (unreadable_payload rec.seq (kind_str rec.payload))
      >> check_payloads recs

  unfoldable pub last : List SignedRecord → Option SignedRecord
  last [] = none
  last (r ∷ []) = some r
  last (r ∷ s ∷ rs) = last (s ∷ rs)

  -- The writer after the last replayed record.
  unfoldable pub resume_after : Bytes → Option SignedRecord → ChainWriter
  resume_after chain_id none = new_chain chain_id
  resume_after chain_id (some rec) = resume chain_id (next_u64 rec.seq) (record_hash rec.rec) none

  abbrev pub contents : Option Bytes → Bytes
  contents none = []
  contents (some file) = file

  -- `OpenOptions::create`, then the trim if the length is not that of the healthy prefix.
  unfoldable pub trim : Option Bytes → ℕ → Bytes
  trim path good_len =
      let file = contents path in if length file == good_len then file else set_len good_len file

  -- `Wal::open_impl`: what is at the path afterwards, and the writer or the error.
  unfoldable pub open_impl :
      Bytes → Option KeyMap → Option Bytes → Option Bytes × Result ChainWriter
  open_impl chain_id origin path = elim (replay path) [
    | err e ↦ (path, err e)
    | ok (records, good_len) ↦ elim (check_origins chain_id origin records) [
      | err e ↦ (path, err e)
      | ok _ ↦ (
        some (trim path good_len),
        check_payloads records >> ok (resume_after chain_id (last records)),
      )
    ]
  ]

  abbrev pub open_wal : Bytes → Option Bytes → Option Bytes × Result ChainWriter
  open_wal chain_id path = open_impl chain_id none path

  abbrev pub open_authenticated : Bytes → KeyMap → Option Bytes → Option Bytes × Result ChainWriter
  open_authenticated chain_id trusted path = open_impl chain_id (some trusted) path

  -- What `append` adds to the file: a line.
  abbrev pub line_of : SignedRecord → Bytes
  line_of rec = j.to_string rec ++ b'\n' ∷ []

  unfoldable pub append : Bytes → SignedRecord → Bytes
  append file rec = file ++ line_of rec

  -- `Wal::read_all` and `read`.
  abbrev pub read_all : Option Bytes → Result (List SignedRecord)
  read_all path = do (records, good_len) ← replay path; ok records
