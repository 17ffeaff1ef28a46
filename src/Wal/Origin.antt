-- ===== src/Wal/Origin.antt =====
-- What a replay and an authenticated open have checked when they succeed.
use obsign.Prelude.{
  >>-eq-ok, >>=-eq-ok, Fallible-cases, err, ok, ◌>>◌, ℕ, ◌+◌, ◌≡◌, ◌≢◌, sym, ◌∙◌, Bytes, Bool, true,
  false, not, Option, none, some, List, [], ◌∷◌, ◌++◌, append-nil, append_assoc, arith, length,
  bytes_eq_iff, Bool-cases, ◌⊎◌, inl, inr, leb, subst, if◌then◌else◌,
}
use obsign.Crypto.{Crypto}
use obsign.Audit.Hash.{genesis}
use obsign.Audit.Canonical.Items.{Each}
use obsign.Audit.Payload.{is_understood}
use obsign.Audit.Chain.{ChainWriter}
use obsign.Audit.Keyring.{KeyMap, get}
use obsign.Audit.Origin.{SignedRecord, verify_origin}
use obsign.Wal.Lines.{utf8_valid, read_lines}
use obsign.Wal.{
  Codec, Result, io, corrupt, foreign_record, ForeignReason, Replayed, start, accept, check_next,
  replay_lines, replay, check_origin, check_origins, check_payloads, last, resume_after, open_impl,
  open_authenticated,
}
use obsign.Wal.Replay.{FollowsSeq, Chained, Understood}

module _ ⦃c : Crypto⦄ ⦃j : Codec⦄ where
  check_next_sound :
      (s : Replayed) (i : ℕ) (r : SignedRecord)
      → check_next s i r ≡ ok tt
      → FollowsSeq s.expected_seq r.seq × (r.prev_hash ≡ s.expected_prev)
  unfolding check_next
  check_next_sound s i r e = ground (arith, bytes_eq_iff r.prev_hash s.expected_prev)

  -- The loop went from one state to another over chained records.
  record Extends (s t : Replayed) : Type 0 where
    added : List SignedRecord
    is_added : t.records ≡ s.records ++ added
    chained : Chained s.expected_seq s.expected_prev added

  Extends-refl : (s : Replayed) → Extends s s
  Extends-refl s = record { added = []; is_added = sym (append-nil s.records); chained = tt }

  Extends-accept :
      (s t : Replayed) (n : ℕ) (r : SignedRecord)
      → FollowsSeq s.expected_seq r.seq
      → r.prev_hash ≡ s.expected_prev
      → Extends (accept s n r) t
      → Extends s t
  Extends-accept s t n r f p x = record {
    added = r ∷ x.added;
    is_added = x.is_added ∙ append_assoc s.records (r ∷ []) x.added;
    chained = (f, p, x.chained);
  }

  abbrev Step : ℕ → Replayed → Replayed → (SignedRecord → Result Replayed) → Type 0
  Step i s t k = (s ≡ t) ⊎ ((r : SignedRecord) × (check_next s i r ≡ ok tt) × (k r ≡ ok t))

  -- A turn of the loop that does not fail ends it, or accepts a record and goes on.
  turn :
      (i : ℕ) (s : Replayed) (valid : Bool) (parsed : Option SignedRecord) (at_end : Bool)
      (k : SignedRecord → Result Replayed) {t : Replayed}
      → (if not valid then err io else elim parsed [
        | none ↦ if at_end then ok s else err (corrupt (i + 1))
        | some r ↦ check_next s i r >> k r
      ])
        ≡ ok t
      → Step i s t k
  turn i s false parsed at_end k e = absurd cc
  turn i s true none false k e = absurd cc
  turn i s true none true k e = inl cc
  turn i s true (some r) at_end k e =
      let (checked, rest) = >>-eq-ok (check_next s i r) (k r) e in inr (r, checked, rest)

  replay_lines-Extends :
      (total i : ℕ) (s : Replayed) (lines : List Bytes) {t : Replayed}
      → replay_lines total i s lines ≡ ok t
      → Extends s t
  unfolding replay_lines
  replay_lines-Extends total i s [] {t} e =
      let same : s ≡ t = cc in subst (λ (u : Replayed). Extends s u) same (Extends-refl s)
  replay_lines-Extends total i s (line ∷ rest) {t} e =
      elim (turn i s (utf8_valid line) (j.from_str line)
        (leb total (s.good_len + (length line + 1)))
        (λ r. replay_lines total (i + 1) (accept s (length line + 1) r) rest) e) [
          | inl same ↦ subst (λ (u : Replayed). Extends s u) same (Extends-refl s)
          | inr (r, checked, later) ↦
              let (f, p) = check_next_sound s i r checked in
              Extends-accept s t (length line + 1) r f p
                (replay_lines-Extends total (i + 1) (accept s (length line + 1) r) rest later)
        ]

  -- What a replay returns is a chain from genesis, whatever the file holds.
  pub replay-Chained :
      (path : Option Bytes) (rs : List SignedRecord) (n : ℕ)
      → replay path ≡ ok (rs, n)
      → Chained none genesis rs
  unfolding replay
  replay-Chained none rs n e =
      let same : [] ≡ rs = cc in subst (λ (l : List SignedRecord). Chained none genesis l) same tt
  replay-Chained (some file) rs n e =
      let (s, ran, out) =
        >>=-eq-ok (replay_lines (length file) 0 start (read_lines file))
          (λ t. ok (t.records, t.good_len)) e in
      let x = replay_lines-Extends (length file) 0 start (read_lines file) ran in
      let same : x.added ≡ rs = cc (out, x.is_added) in
      subst (λ (l : List SignedRecord). Chained none genesis l) same x.chained

  -- The record names a trusted key, and its signature verifies under that key in this chain.
  pub record SignedBy (chain_id : Bytes) (trusted : KeyMap) (r : SignedRecord) : Type 0 where
    pub key_id : Bytes
    pub key : Bytes
    pub names : r.origin_key_id ≡ some key_id
    pub is_trusted : get key_id trusted ≡ some key
    pub verifies : verify_origin r chain_id key ≡ ok tt

  check_origin_keys :
      (chain_id : Bytes) (trusted : KeyMap) (r : SignedRecord)
      → check_origin chain_id trusted r ≡ ok tt
      → (kid vk : Bytes) × (r.origin_key_id ≡ some kid)
        × (get kid trusted ≡ some vk)
        × (verify_origin r chain_id vk ≡ ok tt)
  unfolding check_origin
  check_origin_keys chain_id trusted r e = ground arith

  check_origin-SignedBy :
      (chain_id : Bytes) (trusted : KeyMap) (r : SignedRecord)
      → check_origin chain_id trusted r ≡ ok tt
      → SignedBy chain_id trusted r
  unfolding check_origin
  check_origin-SignedBy chain_id trusted r e =
      let (kid, vk, n, g, v) = check_origin_keys chain_id trusted r e in
      record { key_id = kid; key = vk; names = n; is_trusted = g; verifies = v }

  check_origins-SignedBy :
      (chain_id : Bytes) (trusted : KeyMap) (rs : List SignedRecord)
      → check_origins chain_id (some trusted) rs ≡ ok tt
      → Each (SignedBy chain_id trusted) rs
  unfolding check_origins
  check_origins-SignedBy chain_id trusted [] e = tt
  check_origins-SignedBy chain_id trusted (r ∷ rs) e =
      let (one, rest) = >>-eq-ok (check_origin chain_id trusted r) _ e in
      (
        check_origin-SignedBy chain_id trusted r one,
        check_origins-SignedBy chain_id trusted rs rest,
      )

  check_payloads_sound : (rs : List SignedRecord) → check_payloads rs ≡ ok tt → Understood rs
  unfolding check_payloads
  check_payloads_sound [] e = tt
  check_payloads_sound (r ∷ rs) e = elim (Bool-cases (is_understood r.payload)) [
    | inl h ↦ (h, check_payloads_sound rs (ground (arith, h)))
    | inr h ↦ absurd (ground (arith, h))
  ]

  check_payloads-ne-foreign :
      (rs : List SignedRecord) (seq : ℕ) (why : ForeignReason)
      → check_payloads rs ≢ err (foreign_record seq why)
  unfolding check_payloads
  check_payloads-ne-foreign [] seq why e = absurd cc
  check_payloads-ne-foreign (r ∷ rs) seq why e = elim (Bool-cases (is_understood r.payload)) [
    | inl h ↦ check_payloads-ne-foreign rs seq why (ground (arith, h))
    | inr h ↦ absurd (ground (arith, h))
  ]

  opened :
      (chain_id : Bytes) (trusted : KeyMap) (path : Option Bytes) {w : ChainWriter}
      → (open_authenticated chain_id trusted path).1 ≡ ok w
      → (rs : List SignedRecord) × (n : ℕ) × (replay path ≡ ok (rs, n))
        × (check_origins chain_id (some trusted) rs ≡ ok tt)
        × (check_payloads rs ≡ ok tt)
        × (w ≡ resume_after chain_id (last rs))
  unfolding open_impl
  opened chain_id trusted path e = elim (Fallible-cases (replay path)) [
    | inr (x, h) ↦ absurd (ground (arith, h))
    | inl ((rs, n), h) ↦ elim (Fallible-cases (check_origins chain_id (some trusted) rs)) [
      | inr (x, k) ↦ absurd (ground (arith, h, k))
      | inl (u, k) ↦ elim (Fallible-cases (check_payloads rs)) [
        | inr (x, q) ↦ absurd (ground (arith, h, k, q))
        | inl (v, q) ↦ (rs, n, h, k, q, ground (arith, h, k, q))
      ]
    ]
  ]

  -- An authenticated open that gives a writer has replayed a chain from genesis, every record of it
  -- signed by a trusted key that the record names and of a payload type that the build knows; and
  -- the writer stands behind the last of them.
  pub open_authenticated_sound :
      (chain_id : Bytes) (trusted : KeyMap) (path : Option Bytes) {w : ChainWriter}
      → (open_authenticated chain_id trusted path).1 ≡ ok w
      → (rs : List SignedRecord) × (n : ℕ) × (replay path ≡ ok (rs, n))
        × Chained none genesis rs
        × Each (SignedBy chain_id trusted) rs
        × Understood rs
        × (w ≡ resume_after chain_id (last rs))
  open_authenticated_sound chain_id trusted path e =
      let (rs, n, replayed, origins, payloads, writer) = opened chain_id trusted path e in
      (
        rs,
        n,
        replayed,
        replay-Chained path rs n replayed,
        check_origins-SignedBy chain_id trusted rs origins,
        check_payloads_sound rs payloads,
        writer,
      )

  -- An authenticated open that finds a foreign record leaves the file as it was.
  pub open_authenticated_refused :
      (chain_id : Bytes) (trusted : KeyMap) (path : Option Bytes) (seq : ℕ) (why : ForeignReason)
      → (open_authenticated chain_id trusted path).1 ≡ err (foreign_record seq why)
      → (open_authenticated chain_id trusted path).0 ≡ path
  unfolding open_impl
  open_authenticated_refused chain_id trusted path seq why e = elim (Fallible-cases (replay path)) [
    | inr (x, h) ↦ ground (arith, h)
    | inl ((rs, n), h) ↦ elim (Fallible-cases (check_origins chain_id (some trusted) rs)) [
      | inr (x, k) ↦ ground (arith, h, k)
      | inl (u, k) ↦ absurd (ground (arith, h, k, check_payloads-ne-foreign rs seq why))
    ]
  ]
