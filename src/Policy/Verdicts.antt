-- ===== src/Policy/Verdicts.antt =====
-- crates/obsign-policy/src/engine.rs: when the engine lets a call or an access through.
use obsign.Prelude.{
  ◌≡◌, refl, sym, ap, ◌∙◌, ◌⊎◌, inl, inr, Bytes, true, false, not, Option, none, some, List, [],
  ◌∷◌, ok, err, Fallible, ◌&&◌, ◌>>◌, refuse_if, >>=-eq-ok, if◌then◌else◌, lookup,
}
use obsign.Audit.Payload.{Outcome}
use obsign.Policy.Cedar.{Cedar, SerdeJson, Response, CedarDecision}
use obsign.Policy.{Error, Result}
use obsign.Policy.Bundle.{ToolDef, ArgSpec, FailBehaviour, closed, open_, for_tool, is_empty}
use obsign.Policy.Args.{extract_args}
use obsign.Policy.Question.{
  ToolRequest, Capability, action, Pairs, call_question, capability_question,
}
use obsign.Policy.Engine.{
  Engine, Verdict, verdict, failed_over_args, is_allowed, on_behaviour, on_decision, read_response,
  authorize, authorize_capability, on_failure, settle, or_fail, with_args, on_tool, evaluate,
  evaluate_capability,
}

-- A strict reading allows only what Cedar allows, without an error.
read-allow :
    (decision : CedarDecision) (errors : List Bytes) (e : Error) (id : Option Bytes) {v : Verdict}
    → (refuse_if (true && not (is_empty errors)) e >> ok (on_decision decision id)) ≡ ok v
    → is_allowed v ≡ true
    → (v.outcome ≡ Outcome.allow) × (decision ≡ CedarDecision.allow) × (errors ≡ [])
read-allow CedarDecision.allow [] e id {v} r a =
    let same : on_decision CedarDecision.allow id ≡ v = cc in
    (ap (λ (x : Verdict). x.outcome) (sym same), refl, refl)
read-allow CedarDecision.deny [] e id {v} r a =
    let same : on_decision CedarDecision.deny id ≡ v = cc in
    let denied : false ≡ true = ap (λ (x : Verdict). is_allowed x) same ∙ a in absurd cc
read-allow d (x ∷ xs) e id r a = absurd cc

read_response-allow :
    (r : Response) {v : Verdict}
    → read_response true r ≡ ok v
    → is_allowed v ≡ true
    → (v.outcome ≡ Outcome.allow) × (r.decision ≡ CedarDecision.allow) × (r.errors ≡ [])
unfolding read_response
read_response-allow r e a = read-allow r.decision r.errors _ _ e a

module _ ⦃api : Cedar⦄ where
  -- Cedar allows what it is asked, and reports no error.
  abbrev pub Permitted : Engine → Result (api.Request × api.Entities) → Type 0
  Permitted engine asked =
      (request : api.Request) × (entities : api.Entities) × (asked ≡ ok (request, entities))
      × ((api.is_authorized request engine.policies entities).decision ≡ CedarDecision.allow)
      × ((api.is_authorized request engine.policies entities).errors ≡ [])

  authorize-Permitted :
      (engine : Engine) (req : ToolRequest) (def : ToolDef) (args : Pairs) {v : Verdict}
      → authorize engine req def (some args) ≡ ok v
      → is_allowed v ≡ true
      → (v.outcome ≡ Outcome.allow) × Permitted engine (call_question req def (some args))
  unfolding authorize
  authorize-Permitted engine req def args e a =
      let (q, asked, h) = >>=-eq-ok (call_question req def (some args)) _ e in
      let (o, d, n) = read_response-allow (api.is_authorized q.0 engine.policies q.1) h a in
      (o, (q.0, q.1, asked, d, n))

  authorize_capability-Permitted :
      (engine : Engine) (capability : Capability) (req : ToolRequest) {v : Verdict}
      → authorize_capability engine capability req ≡ ok v
      → is_allowed v ≡ true
      → (v.outcome ≡ Outcome.allow) × Permitted engine (capability_question capability req)
  unfolding authorize_capability
  authorize_capability-Permitted engine capability req e a =
      let (q, asked, h) = >>=-eq-ok (capability_question capability req) _ e in
      let (o, d, n) = read_response-allow (api.is_authorized q.0 engine.policies q.1) h a in
      (o, (q.0, q.1, asked, d, n))

  -- The failure of an evaluation lets through only under an open fail mode.
  on_failure-allow :
      (engine : Engine) (key : Bytes) (e : Error)
      → is_allowed (on_failure engine key e) ≡ true
      → (for_tool engine.fail_mode key ≡ open_)
        × ((on_failure engine key e).outcome ≡ Outcome.allow_fail_open)
  unfolding on_failure
  on_failure-allow engine key e a = behave (for_tool engine.fail_mode key) a
    where
      behave :
          (b : FailBehaviour)
          → is_allowed (on_behaviour b e) ≡ true
          → (b ≡ open_) × ((on_behaviour b e).outcome ≡ Outcome.allow_fail_open)
      behave closed a = absurd cc
      behave open_ a = (refl, refl)

  -- How a call may pass: by Cedar, or by the open fail mode of a tool that declares no argument.
  pub data Passes (engine : Engine) (req : ToolRequest) (def : ToolDef) (args : Pairs) (v : Verdict)
      : Type 0 where
    by_cedar :
        v.outcome ≡ Outcome.allow
        → Permitted engine (call_question req def (some args))
        → Passes engine req def args v
    by_fail_mode :
        (e : Error)
        → v.outcome ≡ Outcome.allow_fail_open
        → def.policy_args ≡ []
        → for_tool engine.fail_mode req.tool ≡ open_
        → authorize engine req def (some args) ≡ err e
        → Passes engine req def args v

  -- Where the declared arguments are not empty, the branch of them is a denial.
  no_args_where_allowed :
      (specs : List ArgSpec) (e : Error) (w : Verdict)
      → is_allowed (
          if not (is_empty specs) then verdict Outcome.deny none (some (failed_over_args e)) else w)
        ≡ true
      → (specs ≡ []) × (is_allowed w ≡ true)
  no_args_where_allowed [] e w a = (refl, a)
  no_args_where_allowed (x ∷ xs) e w a = absurd cc

  settle-Passes :
      (engine : Engine) (req : ToolRequest) (def : ToolDef) (args : Pairs) (r : Result Verdict)
      → authorize engine req def (some args) ≡ r
      → is_allowed (settle engine req def r) ≡ true
      → Passes engine req def args (settle engine req def r)
  settle-Passes engine req def args (ok v) e a =
      let (o, p) = authorize-Permitted engine req def args e a in by_cedar o p
  settle-Passes engine req def args (err why) e a =
      let (none_declared, through) =
        no_args_where_allowed def.policy_args why (on_failure engine req.tool why) a in
      let (is_open, degraded) = on_failure-allow engine req.tool why through in
      by_fail_mode why (rw none_declared degraded) none_declared is_open e

  -- If `evaluate` lets a call through, then the catalogue has the tool and its declared arguments
  -- were extracted from the call, and either Cedar allows the request about exactly these arguments
  -- without an error, or the evaluation failed, the tool declares no argument, and its fail mode is
  -- open; only the second has the outcome `allow_fail_open`.
  pub evaluate_sound :
      ⦃serde : SerdeJson⦄ (engine : Engine) (req : ToolRequest)
      → is_allowed (evaluate engine req) ≡ true
      → (def : ToolDef) × (args : Pairs) × (lookup req.tool engine.tools ≡ some def)
        × (extract_args def req.args ≡ ok args)
        × Passes engine req def args (evaluate engine req)
  unfolding evaluate
  evaluate_sound engine req a = tool (lookup req.tool engine.tools) refl a
    where
      values :
          (def : ToolDef) (r : Fallible Bytes Pairs)
          → extract_args def req.args ≡ r
          → is_allowed (with_args engine req def r) ≡ true
          → (args : Pairs) × (extract_args def req.args ≡ ok args)
            × Passes engine req def args (with_args engine req def r)
      values def (ok args) e a = (args, e, settle-Passes engine req def args _ refl a)
      values def (err why) e a = absurd cc

      tool :
          (o : Option ToolDef)
          → lookup req.tool engine.tools ≡ o
          → is_allowed (on_tool engine req o) ≡ true
          → (def : ToolDef) × (args : Pairs) × (lookup req.tool engine.tools ≡ some def)
            × (extract_args def req.args ≡ ok args)
            × Passes engine req def args (on_tool engine req o)
      tool none e a = absurd cc
      tool (some def) e a =
          let (args, extracted, p) = values def (extract_args def req.args) refl a in
          (def, args, e, extracted, p)

  -- If `evaluate_capability` lets an access through, then either Cedar allows without an error the
  -- request that names the target, or the wrapped server for a channel that is keyed on it; or the
  -- evaluation, which asks Cedar that, failed, and the fail mode of the action is open. The outcome
  -- is `allow` in the first case and `allow_fail_open` in the second.
  pub evaluate_capability_sound :
      (engine : Engine) (capability : Capability) (req : ToolRequest)
      → is_allowed (evaluate_capability engine capability req) ≡ true
      → ((evaluate_capability engine capability req).outcome ≡ Outcome.allow)
          × Permitted engine (capability_question capability req)
        ⊎ ((evaluate_capability engine capability req).outcome ≡ Outcome.allow_fail_open)
          × (for_tool engine.fail_mode (action capability) ≡ open_)
          × ((e : Error) × (authorize_capability engine capability req ≡ err e))
  unfolding evaluate_capability
  evaluate_capability_sound engine capability req a =
      access (authorize_capability engine capability req) refl a
    where
      access :
          (r : Result Verdict)
          → authorize_capability engine capability req ≡ r
          → is_allowed (or_fail engine (action capability) r) ≡ true
          → ((or_fail engine (action capability) r).outcome ≡ Outcome.allow)
              × Permitted engine (capability_question capability req)
            ⊎ ((or_fail engine (action capability) r).outcome ≡ Outcome.allow_fail_open)
              × (for_tool engine.fail_mode (action capability) ≡ open_)
              × ((e : Error) × (authorize_capability engine capability req ≡ err e))
      access (ok v) e a = inl (authorize_capability-Permitted engine capability req e a)
      access (err why) e a =
          let (is_open, degraded) = on_failure-allow engine (action capability) why a in
          inr (degraded, is_open, (why, e))
