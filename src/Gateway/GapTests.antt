-- ===== src/Gateway/GapTests.antt =====
-- The gateway at concrete inputs: a write that is lost, and an identity that is renewed.
use obsign.Prelude.{
  ◌≡◌, refl, ◌+◌, Bytes, codes, pos, true, false, none, some, [], ◌∷◌, ◌++◌, Fallible, ok, err,
  length, bytes_eq, arith, if◌then◌else◌,
}
use obsign.Audit.Checkpoint.{next_u64}
use obsign.Audit.Toy.{toy, call, done}
use obsign.Audit.Hash.{genesis}
use obsign.Audit.Record.{Record}
use obsign.Audit.Chain.{ChainWriter, append}
use obsign.Audit.Origin.{SignedRecord, unsigned}
use obsign.Wal.{Codec, replay, broken_chain, unexpected_seq}
use obsign.Wal.Lines.{utf8_valid}
use obsign.Wal.Replay.{Prints, Chained, log_of}
use obsign.Audit.Canonical.Items.{Each}
use obsign.Policy.Toy.{cedar_toy, serde_toy}
use obsign.Gateway.Identity.{is_expired, int_leb, delegation_eq}
use obsign.Gateway.Session.{Session, draft_of, write}
use obsign.Gateway.Auth.{Auth, take_reloads, present as present_token, verify_token, adopt}
use obsign.Gateway.Agent.{authenticate}
use obsign.Gateway.Gap.{write_gap}
use obsign.Gateway.Fresh.{Reported, authenticate_sound}
use obsign.Gateway.Toy.{host_toy, provider_toy, auth, session, with_second}

-- The first record of the session, and the one that is made after the second was lost.
abbrev oldest : SignedRecord
oldest = unsigned (append session.chain (draft_of session (codes "first") none call)).1

abbrev two_behind : ChainWriter
two_behind =
    (append (append session.chain (draft_of session (codes "first") none call)).0
      (draft_of session (codes "lost") none call)).0

abbrev skipping : SignedRecord
skipping =
    unsigned
      (append two_behind
        (draft_of (record session { chain = two_behind }) (codes "kept") none done)).1

-- A codec that writes a record in three bytes.
instance abbrev codec_toy : Codec
codec_toy = record {
  to_string = λ r. b'{' ∷ (48 + r.seq) ∷ b'}' ∷ [];
  from_str = λ t.
      if bytes_eq t (codes "{0}")
      then some oldest
      else if bytes_eq t (codes "{2}")
      then some skipping
      else none;
}

abbrev opened : Session × Fallible Bytes Record
opened = write (codes "first") none call session

abbrev lost : Session × Fallible Bytes Record
lost = write (codes "lost") none call opened.0

abbrev kept : Session × Fallible Bytes Record
kept = write (codes "kept") none done lost.0

is_lost : lost.1 ≡ err (codes "disk full")
unfolding write append unsigned
is_lost = refl

is_kept : kept.1 ≡ ok (append lost.0.chain (draft_of lost.0 (codes "kept") none done)).1
unfolding write append unsigned
is_kept = refl

opened_log : opened.0.log ≡ [] ++ oldest ∷ []
unfolding write append unsigned
opened_log = refl

opened-Chained : Chained none genesis opened.0.log
unfolding write append unsigned
opened-Chained = (tt, refl, tt)

opened_behind : opened.0.chain.next_seq ≡ next_u64 oldest.seq
unfolding write append unsigned
opened_behind = refl

oldest-Prints : Prints oldest
unfolding write append unsigned utf8_valid
oldest-Prints = record {
  parsed = refl;
  no_control = omega arith;
  not_empty = λ e. absurd cc;
  utf8 = refl;
}

skipping-Prints : Prints skipping
unfolding write append unsigned utf8_valid
skipping-Prints = record {
  parsed = refl;
  no_control = omega arith;
  not_empty = λ e. absurd cc;
  utf8 = refl;
}

kept-Prints : Each Prints kept.0.log
unfolding write append unsigned
kept-Prints = (oldest-Prints, (skipping-Prints, tt))

write_gap_example :
    (sr : SignedRecord) × (kept.0.log ≡ opened.0.log ++ sr ∷ [])
    × (replay (some (log_of kept.0.log))
        ≡ err (
            broken_chain (unexpected_seq opened.0.chain.next_seq sr.seq (length opened.0.log + 1))))
write_gap_example =
    write_gap (codes "lost") (codes "kept") none none call done [] oldest opened.0 opened_log
      opened-Chained opened_behind kept-Prints (with_second lost is_lost) (with_second kept is_kept)

abbrev from_source : Auth
from_source = record auth { source = some tt }

in_force : (authenticate from_source (some (codes "fresh")) (pos 5)).1.auth_error ≡ none
unfolding authenticate present_token verify_token adopt delegation_eq int_leb take_reloads
    is_expired
in_force = refl

authenticate_sound_example :
    (is_expired (authenticate from_source (some (codes "fresh")) (pos 5)).1.deleg (pos 5) ≡ false)
    × ((authenticate from_source (some (codes "fresh")) (pos 5)).1.generation ≡ (
        if (authenticate from_source (some (codes "fresh")) (pos 5)).1.renewed
        then next_u64 from_source.generation
        else from_source.generation))
    × Reported
        (authenticate from_source (some (codes "fresh")) (pos 5)).1.renewed
        from_source.current
        (authenticate from_source (some (codes "fresh")) (pos 5)).1.deleg
authenticate_sound_example = authenticate_sound from_source (some (codes "fresh")) (pos 5) in_force

-- A token with one hop more is reported as a renewal.
renewal : (authenticate from_source (some (codes "fresh")) (pos 5)).1.renewed ≡ true
unfolding authenticate present_token verify_token adopt delegation_eq int_leb take_reloads
    is_expired
renewal = refl
