-- ===== src/Gateway/Auth.antt =====
-- crates/obsign-proxy/src/auth.rs: the identity that the agent acts under. The identity bundle with
-- its token verifier (crates/obsign-identity) and the token file are an interface.
use obsign.Prelude.{
  ℕ, ◌^◌, ◌-◌, Bytes, codes, ℤ, pos, Bool, true, false, not, Option, none, some, List, [], ◌∷◌,
  ◌++◌, bytes_eq, Fallible, ok, err, decimal, if◌then◌else◌,
}
use obsign.Audit.Checkpoint.{next_u64}
use obsign.Audit.Hash.{Hash}
use obsign.Audit.Payload.{ConfigReload, identity_bundle, applied, rejected, machine}
use obsign.Gateway.Identity.{Delegation, is_expired, expired_secs, delegation_eq}

-- What `Verifier::verify` may refuse a token for: an unknown key id, or the text of another reason.
pub data TokenError : Type 0 where
  unknown_kid : Bytes → TokenError
  other : Bytes → TokenError

pub data ReloadOutcome : Type 0 where
  reloaded : Bytes → Hash → ReloadOutcome
  failed : Bytes → Option Hash → ReloadOutcome
  unchanged : ReloadOutcome

pub record Provider : Type 1 where
  -- `BundleSource`
  pub Source : Type 0
  pub version : Source → Bytes
  -- `source.verifier().verify(token)`, at the time that the clock of the token library reads
  pub verify : ℤ → Source → Bytes → Fallible TokenError Delegation
  pub reload : ℤ → Source → Source × ReloadOutcome
  -- the trimmed text of a file, or the text of the error
  pub read_token : Bytes → Fallible Bytes Bytes

-- The `Display` of a refusal.
abbrev token_error_text : TokenError → Bytes
token_error_text (unknown_kid kid) = codes "kid \"" ++ kid ++ codes "\" unknown to the jwks"
token_error_text (other why) = why

unfoldable pub denied_same : Delegation → ℤ → Bytes
denied_same d now =
    codes "delegation expired "
    ++ decimal 20 (expired_secs d now)
    ++ codes " s ago and the presented token is the same"

unfoldable pub denied_on_disk : Delegation → ℤ → Bytes
denied_on_disk d now =
    codes "delegation expired "
    ++ decimal 20 (expired_secs d now)
    ++ codes " s ago and the on-disk token is expired too"

abbrev reload_applied : Bytes → Hash → ConfigReload
reload_applied version content = record {
  config_kind = identity_bundle;
  status = applied;
  bundle_version = version;
  bundle_hash = some content;
  reason = none;
}

abbrev reload_rejected : Bytes → Option Hash → Bytes → ConfigReload
reload_rejected version content reason = record {
  config_kind = identity_bundle;
  status = rejected;
  bundle_version = version;
  bundle_hash = content;
  reason = some reason;
}

module _ ⦃p : Provider⦄ where
  pub record Auth : Type 0 where
    pub source : Option p.Source
    pub token_path : Option Bytes
    pub presented : Option Bytes
    pub current : Delegation
    pub generation : ℕ
    pub reloads : List ConfigReload

  abbrev pub declared : Bytes → List Bytes → List Bytes → Auth
  declared principal scopes groups = record {
    source = none;
    token_path = none;
    presented = none;
    current = record {
      subject = principal;
      issuer = codes "cli://declared";
      scopes = scopes;
      groups = groups;
      expires_at_ms = pos (2 ^ 63 - 1);
      issued_at_ms = none;
      actor_chain = principal ∷ [];
      kind = machine;
      label = none;
    };
    generation = 1;
    reloads = [];
  }

  -- The new source, and the reload that is added to the list of them.
  abbrev after_reload :
      p.Source → p.Source × ReloadOutcome → List ConfigReload → p.Source × List ConfigReload
  after_reload old (source, reloaded version content) reloads =
      (source, reloads ++ reload_applied version content ∷ [])
  after_reload old (source, failed reason content) reloads =
      (source, reloads ++ reload_rejected (p.version source) content reason ∷ [])
  after_reload old (source, unchanged) reloads = (source, reloads)

  abbrev says : Bytes → Fallible TokenError Delegation → Fallible Bytes Delegation
  says before (ok d) = ok d
  says before (err e) = err (before ++ token_error_text e)

  abbrev retried :
      ℤ
      → p.Source × List ConfigReload
      → Bytes
      → (p.Source × List ConfigReload) × Fallible Bytes Delegation
  retried clock (source, reloads) token = (
    (source, reloads),
    says (codes "token verification after reload: ") (p.verify clock source token),
  )

  abbrev verified_or_retried :
      p.Source
      → Bytes
      → ℤ
      → ℤ
      → List ConfigReload
      → Fallible TokenError Delegation
      → (p.Source × List ConfigReload) × Fallible Bytes Delegation
  verified_or_retried source token clock now reloads (ok d) = ((source, reloads), ok d)
  verified_or_retried source token clock now reloads (err (unknown_kid kid)) =
      retried clock (after_reload source (p.reload now source) reloads) token
  verified_or_retried source token clock now reloads (err (other why)) =
      ((source, reloads), err (codes "token verification: " ++ why))

  -- The source and the reloads afterwards, and the delegation. `clock` is the time of the call, which
  -- the token library reads by itself, and `now` the time that is passed to a reload.
  unfoldable pub verify_token :
      p.Source
      → Bytes
      → ℤ
      → ℤ
      → List ConfigReload
      → (p.Source × List ConfigReload) × Fallible Bytes Delegation
  verify_token source token clock now reloads =
      verified_or_retried source token clock now reloads (p.verify clock source token)

  abbrev token_read :
      p.Source
      → Fallible Bytes Bytes
      → ℤ
      → ℤ
      → List ConfigReload
      → (p.Source × List ConfigReload) × Fallible Bytes Delegation
  token_read source (ok token) clock now reloads = verify_token source token clock now reloads
  token_read source (err why) clock now reloads = ((source, reloads), err why)

  unfoldable pub read_and_verify :
      p.Source
      → Bytes
      → ℤ
      → ℤ
      → List ConfigReload
      → (p.Source × List ConfigReload) × Fallible Bytes Delegation
  read_and_verify source path clock now reloads =
      token_read source (p.read_token path) clock now reloads

  abbrev pub started :
      Option Bytes
      → Option Bytes
      → (p.Source × List ConfigReload) × Fallible Bytes Delegation
      → Fallible Bytes Auth
  started token_path presented ((source, reloads), err why) = err why
  started token_path presented ((source, reloads), ok current) = ok (record {
    source = some source;
    token_path = token_path;
    presented = presented;
    current = current;
    generation = 1;
    reloads = reloads;
  })

  -- At the start, a reload is given the time 0.
  unfoldable pub oidc : p.Source → Bytes → ℤ → Fallible Bytes Auth
  oidc source token_path clock =
      started (some token_path) none (read_and_verify source token_path clock (pos 0) [])

  abbrev pub unless_expired : ℤ → Fallible Bytes Auth → Fallible Bytes Auth
  unless_expired now (err why) = err why
  unless_expired now (ok a) =
      if is_expired a.current now then err (codes "presented token is expired") else ok a

  -- `now` is the time of the call.
  unfoldable pub oidc_presented : p.Source → Bytes → ℤ → Fallible Bytes Auth
  oidc_presented source token now =
      unless_expired now (started none (some token) (verify_token source token now (pos 0) []))

  unfoldable pub take_reloads : Auth → Auth × List ConfigReload
  take_reloads a = (record a { reloads = [] }, a.reloads)

  -- A fresh delegation takes the place of the current one; a change starts a generation.
  unfoldable pub adopt : Auth → Delegation → Auth × Fallible Bytes Bool
  adopt a fresh =
      if delegation_eq fresh a.current
      then (record a { current = fresh }, ok false)
      else (record a { current = fresh; generation = next_u64 a.generation }, ok true)

  abbrev pub refreshed : Auth → ℤ → Fallible Bytes Delegation → Auth × Fallible Bytes Bool
  refreshed a now (ok fresh) =
      if not (is_expired fresh now) then adopt a fresh else (a, err (denied_on_disk a.current now))
  refreshed a now (err e) = (a, err (codes "delegation expired and token unrecoverable: " ++ e))

  abbrev pub with_source : Auth → p.Source × List ConfigReload → Auth
  with_source a (source, reloads) = record a { source = some source; reloads = reloads }

  abbrev pub refresh_from : Auth → ℤ → Option p.Source → Option Bytes → Auth × Fallible Bytes Bool
  refresh_from a now (some source) (some path) =
      let (left, r) = read_and_verify source path now now a.reloads in
      refreshed (with_source a left) now r
  refresh_from a now _ _ = (a, err (codes "delegation expired"))

  unfoldable pub refresh : Auth → ℤ → Auth × Fallible Bytes Bool
  refresh a now =
      if not (is_expired a.current now)
      then (a, ok false)
      else refresh_from a now a.source a.token_path

  abbrev pub accepted : Auth → Bytes → ℤ → Fallible Bytes Delegation → Auth × Fallible Bytes Bool
  accepted a token now (ok fresh) =
      if not (is_expired fresh now)
      then adopt (record a { presented = some token }) fresh
      else (a, err (codes "presented token is expired"))
  accepted a token now (err e) = (a, err (codes "presented token rejected: " ++ e))

  abbrev pub present_to : Auth → Bytes → ℤ → Option p.Source → Auth × Fallible Bytes Bool
  present_to a token now none = refresh a now
  present_to a token now (some source) =
      let (left, r) = verify_token source token now now a.reloads in
      accepted (with_source a left) token now r

  abbrev pub is_presented : Option Bytes → Bytes → Bool
  is_presented none token = false
  is_presented (some t) token = bytes_eq t token

  unfoldable pub present : Auth → Bytes → ℤ → Auth × Fallible Bytes Bool
  present a token now =
      if is_presented a.presented token
      then if is_expired a.current now then (a, err (denied_same a.current now)) else (a, ok false)
      else present_to a token now a.source
