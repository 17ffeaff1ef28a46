-- ===== src/Gateway/Forwarded.antt =====
-- crates/obsign-proxy/src/gateway.rs: what passes from the agent to the server, and why.
use obsign.Prelude.{
  ◌≡◌, refl, sym, ap, subst, ℕ, Bytes, codes, Bool, true, false, Option, none, some, List, [], ◌∷◌,
  append-nil, Fallible, ok, bytes_eq, if◌then◌else◌, arith,
}
use obsign.Audit.Checkpoint.{next_u64}
use obsign.Crypto.{Crypto}
use obsign.Audit.Json.{Json}
use obsign.Audit.Payload.{ConfigReload, config_reload}
use obsign.Policy.Cedar.{Cedar, SerdeJson}
use obsign.Gateway.{Host}
use obsign.Gateway.Identity.{Delegation}
use obsign.Gateway.Session.{
  Session, Writes, ◌>>◌, done, write, id_of, record_config_reloads, record_delegation, write_label,
  write_deleg, write_actor, write_agent, attach,
}
use obsign.Gateway.Acts.{Ctx, Forward, Act, machinery, act_of}
use obsign.Gateway.Agent.{Authority, verdict_of, renew, decide, handle_act}
use obsign.Gateway.Writes.{Grows, Grows-refl, write-Grows, >>-eq-ok, OnlyWrites, OnlyWrites->>}
use obsign.Gateway.Audited.{Carried, carry_out_sound}

module _ ⦃c : Crypto⦄ ⦃host : Host⦄ where
  pub record_config_reloads-OnlyWrites :
      (reloads : List ConfigReload) → OnlyWrites (record_config_reloads reloads)
  unfolding record_config_reloads
  record_config_reloads-OnlyWrites [] s = Grows-refl s
  record_config_reloads-OnlyWrites (reload ∷ reloads) s =
      let n = next_u64 s.reload_counter in
      let g =
        OnlyWrites->> (write (id_of (codes "reload-") n) none (config_reload reload))
          (record_config_reloads reloads)
          (write-Grows (id_of (codes "reload-") n) none (config_reload reload))
          (record_config_reloads-OnlyWrites reloads) (record s { reload_counter = n }) in
      record {
        added = g.added;
        log = g.log;
        pending = g.pending;
        pending_to_agent = g.pending_to_agent;
        relayed = g.relayed;
        counter = g.counter;
      }

  pub OnlyWrites-done : {A : Type 0} (a : A) → OnlyWrites (done a)
  OnlyWrites-done a s = Grows-refl s

  pub OnlyWrites-if :
      {A : Type 0} (b : Bool) (m n : Writes A)
      → OnlyWrites m
      → OnlyWrites n
      → OnlyWrites (if b then m else n)
  OnlyWrites-if true m n hm hn = hm
  OnlyWrites-if false m n hm hn = hn

  write_label-OnlyWrites :
      (generation : ℕ) (deleg : Delegation) (deleg_id : Bytes) (label : Option (Bytes × Bytes))
      → OnlyWrites (write_label generation deleg deleg_id label)
  write_label-OnlyWrites generation deleg deleg_id none = OnlyWrites-done tt
  write_label-OnlyWrites generation deleg deleg_id (some (label, claim)) =
      OnlyWrites-if (bytes_eq label deleg.subject) (done tt) _ (OnlyWrites-done tt)
        (OnlyWrites->> _ (done tt) (write-Grows _ _ _) (OnlyWrites-done tt))

  attach-OnlyWrites : (agent_rec_id : Bytes) → OnlyWrites (attach agent_rec_id)
  attach-OnlyWrites agent_rec_id s = record {
    added = [];
    log = sym (append-nil s.log);
    pending = refl;
    pending_to_agent = refl;
    relayed = refl;
    counter = refl;
  }

  record_delegation-OnlyWrites :
      (version : Bytes) (generation : ℕ) (deleg : Delegation) (agent_id bundle_version : Bytes)
      → OnlyWrites (record_delegation version generation deleg agent_id bundle_version)
  unfolding record_delegation
  record_delegation-OnlyWrites version generation deleg agent_id bundle_version =
      let w1 = write_deleg generation deleg in
      let w2 = write_label generation deleg (id_of (codes "deleg-") generation) deleg.label in
      let w3 = write_actor generation deleg in
      let w4 = write_agent version generation agent_id bundle_version in
      let w5 = attach (id_of (codes "agent-") generation) in
      let h2 =
        write_label-OnlyWrites generation deleg (id_of (codes "deleg-") generation) deleg.label in
      OnlyWrites->> (w1 >> w2 >> w3 >> w4) w5
        (OnlyWrites->> (w1 >> w2 >> w3) w4
          (OnlyWrites->> (w1 >> w2) w3 (OnlyWrites->> w1 w2 (write-Grows _ _ _) h2)
            (write-Grows _ _ _))
          (write-Grows _ _ _))
        (attach-OnlyWrites (id_of (codes "agent-") generation))

pub machinery_of_none :
    ⦃serde : SerdeJson⦄ (method : Bytes) (params : Json)
    → act_of method params ≡ none
    → machinery method ≡ true
unfolding act_of
machinery_of_none method params h = ground (arith, h)

module _ ⦃api : Cedar⦄ ⦃c : Crypto⦄ ⦃host : Host⦄ ⦃serde : SerdeJson⦄ where
  pub renew-OnlyWrites : (ctx : Ctx) (auth : Authority) → OnlyWrites (renew ctx auth)
  renew-OnlyWrites ctx auth =
      OnlyWrites-if auth.renewed _ (done tt)
        (record_delegation-OnlyWrites ctx.version auth.generation auth.deleg ctx.agent_id
          ctx.bundle_version)
        (OnlyWrites-done tt)

  -- An act is handled behind the records of reloads and of a renewed delegation.
  pub record Audited (ctx : Ctx) (act : Act) (raw : Bytes) (params id : Json) (auth : Authority)
      (s s' : Session) (f : Forward) : Type 0 where
    pub before : Session
    pub identity : Grows s before
    pub carried :
        Carried ctx act raw params id (verdict_of ctx act auth before.session_id params) before s' f

  pub handle_act_sound :
      (ctx : Ctx) (act : Act) (raw : Bytes) (params id : Json) (auth : Authority) (s : Session)
      {s' : Session} {f : Forward}
      → handle_act ctx act raw params id auth s ≡ (s', ok f)
      → Audited ctx act raw params id auth s s' f
  unfolding handle_act
  handle_act_sound ctx act raw params id auth s h =
      let w1 = record_config_reloads auth.reloads in
      let w2 = renew ctx auth in
      let (s2, r, both, last) = >>-eq-ok (w1 >> w2) (decide ctx act raw params id auth) s h in
      let g =
        OnlyWrites->> w1 w2 (record_config_reloads-OnlyWrites auth.reloads)
          (renew-OnlyWrites ctx auth) s in
      record {
        before = s2;
        identity = subst (Grows s) (ap (λ (x : Session × Fallible Bytes (Unit {0})). x.0) both) g;
        carried = carry_out_sound ctx act raw params id _ s2 last;
      }
