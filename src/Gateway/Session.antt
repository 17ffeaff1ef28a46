-- ===== src/Gateway/Session.antt =====
-- crates/obsign-proxy/src/session.rs: the state of a session, and the records it writes. The log is
-- the records that the write-ahead log acknowledged.
use obsign.Prelude.{
  ℕ, Bytes, codes, Option, none, some, List, [], ◌∷◌, ◌++◌, bytes_eq, Fallible, ok, err, Map,
  decimal, if◌then◌else◌,
}
use obsign.Audit.Checkpoint.{next_u64}
use obsign.Crypto.{Crypto}
use obsign.Audit.Payload.{
  Payload, ConfigReload, SessionCert, config_reload, deployment_bundle, applied, session_cert,
  delegation, actor, agent_session, principal_label, implicit,
}
use obsign.Audit.Hash.{Hash}
use obsign.Audit.Record.{Record, record_hash}
use obsign.Audit.Chain.{ChainWriter, Draft, append, content_hash}
use obsign.Audit.Origin.{SignedRecord, unsigned, signed, origin_signing_bytes}
use obsign.Gateway.{Host}
use obsign.Gateway.Identity.{Delegation}

-- The trait `OriginSigner`, as `write` uses it.
pub record OriginSigner : Type 0 where
  pub key_id : Bytes
  pub sign : Bytes → Fallible Bytes Bytes

pub record Pending : Type 0 where
  pub decision_record_id : Bytes
  pub effect_record_id : Bytes
  pub started : ℕ

pub record Session : Type 0 where
  pub chain : ChainWriter
  pub log : List SignedRecord
  pub origin : Option OriginSigner
  pub session_id : Bytes
  pub agent_record_id : Bytes
  pub pending : Map Pending
  pub pending_to_agent : Map Pending
  pub relayed_to_agent : List Bytes
  pub counter : ℕ
  pub reload_counter : ℕ

-- A function on `&mut Session` that may fail: the session afterwards, and the result.
abbrev pub Writes : Type 0 → Type 0
Writes A = Session → Session × Fallible Bytes A

abbrev pub continue_ :
    {A B : Type 0} → (A → Writes B) → Session × Fallible Bytes A → Session × Fallible Bytes B
continue_ f (s, ok a) = f a s
continue_ f (s, err why) = (s, err why)

infixl 5 ◌>>=◌ ◌>>◌
abbrev pub ◌>>=◌ : {A B : Type 0} → Writes A → (A → Writes B) → Writes B
(m >>= f) s = continue_ f (m s)

abbrev pub ◌>>◌ : {A B : Type 0} → Writes A → Writes B → Writes B
(m >> n) s = continue_ (λ a. n) (m s)

abbrev pub done : {A : Type 0} → A → Writes A
done a s = (s, ok a)

-- `let _ = s.write(...)`
abbrev pub ignored : {A : Type 0} → Session × Fallible Bytes A → Session
ignored (s, r) = s

unfoldable pub id_of : Bytes → ℕ → Bytes
id_of kind n = kind ++ decimal 20 n

abbrev pub attach : Bytes → Writes (Unit {0})
attach agent_rec_id s = (record s { agent_record_id = agent_rec_id }, ok tt)

module _ ⦃c : Crypto⦄ ⦃host : Host⦄ where
  abbrev pub sealed_with :
      OriginSigner → Record → Fallible Bytes Bytes → Fallible Bytes SignedRecord
  sealed_with signer rec (err why) = err why
  sealed_with signer rec (ok sig) = ok (signed rec signer.key_id sig)

  -- The record in its envelope.
  abbrev pub envelope : Option OriginSigner → Bytes → Record → Fallible Bytes SignedRecord
  envelope none chain_id rec = ok (unsigned rec)
  envelope (some signer) chain_id rec =
      sealed_with signer rec (signer.sign (origin_signing_bytes chain_id (record_hash rec)))

  abbrev pub acknowledged :
      Session → SignedRecord → Fallible Bytes (Unit {0}) → Session × Fallible Bytes Record
  acknowledged s sr (ok done) = (record s { log = s.log ++ sr ∷ [] }, ok sr.rec)
  acknowledged s sr (err why) = (s, err why)

  abbrev pub made_durable : Session → Fallible Bytes SignedRecord → Session × Fallible Bytes Record
  made_durable s (ok sr) = acknowledged s sr (host.wal_append sr)
  made_durable s (err why) = (s, err why)

  abbrev pub draft_of : Session → Bytes → Option Bytes → Payload → Draft
  draft_of s id parent payload = record {
    ts_ms = host.now_ms s.chain.next_seq;
    id = id;
    parent_id = parent;
    session_id = s.session_id;
    payload = payload;
  }

  unfoldable pub write : Bytes → Option Bytes → Payload → Writes Record
  write id parent payload s =
      let (chain, rec) = append s.chain (draft_of s id parent payload) in
      made_durable (record s { chain = chain }) (envelope s.origin chain.chain_id rec)

  unfoldable pub next_call_id : Session → Session × Bytes
  next_call_id s =
      (record s { counter = next_u64 s.counter }, id_of (codes "call-") (next_u64 s.counter))

  unfoldable pub record_config_reloads : List ConfigReload → Writes (Unit {0})
  record_config_reloads [] s = (s, ok tt)
  record_config_reloads (reload ∷ reloads) s =
      (write (id_of (codes "reload-") (next_u64 s.reload_counter)) none (config_reload reload)
          >> record_config_reloads reloads)
        (record s { reload_counter = next_u64 s.reload_counter })

  unfoldable pub record_session_cert : SessionCert → Writes (Unit {0})
  record_session_cert cert = write (codes "session-cert") none (session_cert cert) >> done tt

  -- A label is written only where it is not the subject.
  abbrev pub write_label : ℕ → Delegation → Bytes → Option (Bytes × Bytes) → Writes (Unit {0})
  write_label generation deleg deleg_id none = done tt
  write_label generation deleg deleg_id (some (label, claim)) =
      if bytes_eq label deleg.subject
      then done tt
      else write (id_of (codes "label-") generation) (some deleg_id) (
          principal_label (record {
            issuer = deleg.issuer;
            subject = deleg.subject;
            label = label;
            claim = claim;
          }))
        >> done tt

  abbrev pub write_deleg : ℕ → Delegation → Writes Record
  write_deleg generation deleg = write (id_of (codes "deleg-") generation) none (
      delegation (record {
        principal_sub = deleg.subject;
        principal_issuer = deleg.issuer;
        scopes = deleg.scopes;
        expires_at_ms = deleg.expires_at_ms;
        approved_by = none;
        approval_mode = implicit;
      }))

  abbrev pub write_actor : ℕ → Delegation → Writes Record
  write_actor generation deleg =
      write (id_of (codes "actor-") generation) (some (id_of (codes "deleg-") generation))
        (actor (record { chain = deleg.actor_chain; principal_kind = deleg.kind }))

  -- `version` is the version of the crate.
  abbrev pub write_agent : Bytes → ℕ → Bytes → Bytes → Writes Record
  write_agent version generation agent_id bundle_version =
      write (id_of (codes "agent-") generation) (some (id_of (codes "actor-") generation)) (
        agent_session (record {
          agent_id = agent_id;
          agent_version = version;
          config_hash = content_hash bundle_version;
        }))

  unfoldable pub record_delegation : Bytes → ℕ → Delegation → Bytes → Bytes → Writes (Unit {0})
  record_delegation version generation deleg agent_id bundle_version =
      write_deleg generation deleg
      >> write_label generation deleg (id_of (codes "deleg-") generation) deleg.label
      >> write_actor generation deleg
      >> write_agent version generation agent_id bundle_version
      >> attach (id_of (codes "agent-") generation)

  -- The version and the content hash of the deployment bundle in force.
  unfoldable pub record_deployment_bundle : Bytes → Hash → Writes (Unit {0})
  record_deployment_bundle version content s =
      (write (id_of (codes "deployment-") (next_u64 s.reload_counter)) none (
            config_reload (record {
              config_kind = deployment_bundle;
              status = applied;
              bundle_version = version;
              bundle_hash = some content;
              reason = none;
            }))
          >> done tt)
        (record s { reload_counter = next_u64 s.reload_counter })

abbrev pub open_session : ChainWriter → List SignedRecord → Bytes → Option OriginSigner → Session
open_session chain log session_id origin = record {
  chain = chain;
  log = log;
  origin = origin;
  session_id = session_id;
  agent_record_id = [];
  pending = [];
  pending_to_agent = [];
  relayed_to_agent = [];
  counter = 0;
  reload_counter = 0;
}
