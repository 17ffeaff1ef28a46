-- ===== src/Gateway/Toy.antt =====
-- crates/obsign-proxy: a host whose disk fails for one record id, a declared identity with a token that
-- renews it, and a session.
use obsign.Prelude.{◌≡◌, ap, codes, pos, none, [], ◌∷◌, ok, err, bytes_eq, if◌then◌else◌}
use obsign.Audit.Toy.{toy}
use obsign.Audit.Payload.{delegated_human}
use obsign.Audit.Chain.{new_chain}
use obsign.Policy.Toy.{cedar_toy, serde_toy, engine}
use obsign.Gateway.{Host}
use obsign.Gateway.Identity.{Delegation}
use obsign.Gateway.Session.{Session, open_session}
use obsign.Gateway.Auth.{Provider, Auth, other, unchanged, declared}
use obsign.Gateway.Acts.{Ctx}

instance abbrev pub host_toy : Host
host_toy = record {
  now_ms = λ n. pos 5;
  instant = λ n. 0;
  elapsed_ms = λ n started. 12;
  wal_append = λ sr. if bytes_eq sr.id (codes "lost") then err (codes "disk full") else ok tt;
}

abbrev pub ada_helper : Delegation
ada_helper = record {
  subject = codes "ada";
  issuer = codes "cli://declared";
  scopes = [];
  groups = [];
  expires_at_ms = pos 100;
  issued_at_ms = none;
  actor_chain = codes "ada" ∷ codes "helper" ∷ [];
  kind = delegated_human;
  label = none;
}

instance abbrev pub provider_toy : Provider
provider_toy = record {
  Source = Unit;
  version = λ s. codes "identity@1";
  verify = λ now s token.
      if bytes_eq token (codes "fresh") then ok ada_helper else err (other (codes "refused"));
  reload = λ now s. (s, unchanged);
  read_token = λ path. err (codes "missing");
}

abbrev pub ctx : Ctx
ctx = record {
  engine = engine;
  env = codes "prod";
  agent_id = codes "agent";
  bundle_version = codes "policies@1";
  server_id = codes "chat";
  version = codes "0.1.0";
}

abbrev pub auth : Auth
auth = declared (codes "ada") [] []

abbrev pub session : Session
session = open_session (new_chain (codes "c1")) [] (codes "s") none

-- A pair is its first part with its second.
pub with_result : {A B C : Type 0} (r : A × (B × C)) {x : C} → r.1.1 ≡ x → r ≡ (r.0, (r.1.0, x))
with_result (a, (b, y)) e = ap (λ x. (a, (b, x))) e

pub with_second : {A B : Type 0} (r : A × B) {x : B} → r.1 ≡ x → r ≡ (r.0, x)
with_second (a, y) e = ap (λ x. (a, x)) e
