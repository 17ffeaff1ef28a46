-- ===== src/Policy/Engine.antt =====
-- crates/obsign-policy/src/engine.rs: the engine that decides on calls, listings and the accesses of
-- other capabilities.
use obsign.Prelude.{
  Bytes, codes, Bool, true, false, not, ◌&&◌, Option, none, some, List, [], ◌∷◌, ◌++◌, ok, err,
  Fallible, ◌>>=◌, ◌>>◌, refuse_if, if◌then◌else◌, Map, lookup,
}
use obsign.Audit.Payload.{Outcome}
use obsign.Policy.Cedar.{Cedar, SerdeJson, Response, CedarDecision}
use obsign.Policy.{Error, Result, cedar, display}
use obsign.Policy.Bundle.{ToolDef, FailBehaviour, closed, open_, FailMode, for_tool, is_empty}
use obsign.Policy.Args.{extract_args}
use obsign.Policy.Question.{
  ToolRequest, Capability, action, Pairs, is_some, call_question, capability_question,
}

pub record Verdict : Type 0 where
  pub outcome : Outcome
  pub policy_id : Option Bytes
  pub reason : Option Bytes

abbrev pub outcome_allows : Outcome → Bool
outcome_allows Outcome.deny = false
outcome_allows _ = true

abbrev pub is_allowed : Verdict → Bool
is_allowed v = outcome_allows v.outcome

abbrev pub verdict : Outcome → Option Bytes → Option Bytes → Verdict
verdict o p r = record { outcome = o; policy_id = p; reason = r }

abbrev pub head {ℓ} : {A : Type ℓ} → List A → Option A
head [] = none
head (a ∷ rest) = some a

unfoldable pub join : List Bytes → Bytes
join [] = []
join (e ∷ []) = e
join (e ∷ es) = e ++ codes " ; " ++ join es

-- The texts of the reasons.
unfoldable pub absent_tool : Bytes → Bytes → Bytes
absent_tool tool version =
    codes "tool \"" ++ tool ++ codes "\" absent from signed catalogue " ++ version

unfoldable pub failed_over_args : Error → Bytes
failed_over_args e = codes "policy evaluation failed over arguments, denied: " ++ display e

unfoldable pub failed_closed : Error → Bytes
failed_closed e = codes "evaluation failed, fail-closed: " ++ display e

unfoldable pub failed_open : Error → Bytes
failed_open e = codes "evaluation failed, fail-open: " ++ display e

unfoldable pub denial : Option Bytes → Bytes
denial (some id) = codes "forbidden by an explicit rule"
denial none = codes "no rule authorizes this call"

abbrev pub on_decision : CedarDecision → Option Bytes → Verdict
on_decision CedarDecision.allow id = verdict Outcome.allow id none
on_decision CedarDecision.deny id = verdict Outcome.deny id (some (denial id))

-- What `decide` makes of a response.
unfoldable pub read_response : Bool → Response → Result Verdict
unfolding denial
read_response strict r = do
  refuse_if (strict && not (is_empty r.errors)) (cedar (join r.errors))
  ok (on_decision r.decision (head r.reason))

abbrev pub on_behaviour : FailBehaviour → Error → Verdict
on_behaviour closed e = verdict Outcome.deny none (some (failed_closed e))
on_behaviour open_ e = verdict Outcome.allow_fail_open none (some (failed_open e))

module _ ⦃api : Cedar⦄ where
  pub record Engine : Type 0 where
    pub policies : api.PolicySet
    pub tools : Map ToolDef
    pub version : Bytes
    pub fail_mode : FailMode

  abbrev pub decide : Engine → api.Request → api.Entities → Bool → Result Verdict
  decide engine request entities strict =
      read_response strict (api.is_authorized request engine.policies entities)

  unfoldable pub authorize : Engine → ToolRequest → ToolDef → Option Pairs → Result Verdict
  authorize engine req def args = do
    question ← call_question req def args
    decide engine question.0 question.1 (is_some args)

  unfoldable pub authorize_capability : Engine → Capability → ToolRequest → Result Verdict
  authorize_capability engine cap req = do
    question ← capability_question cap req
    decide engine question.0 question.1 true

  unfoldable pub on_failure : Engine → Bytes → Error → Verdict
  on_failure engine key e = on_behaviour (for_tool engine.fail_mode key) e

  abbrev pub absent_verdict : Engine → Bytes → Verdict
  absent_verdict engine tool = verdict Outcome.deny none (some (absent_tool tool engine.version))

  -- An error of Cedar on a call falls to the fail mode only where the tool declares no argument.
  abbrev pub settle : Engine → ToolRequest → ToolDef → Result Verdict → Verdict
  settle engine req def (ok v) = v
  settle engine req def (err e) =
      if not (is_empty def.policy_args)
      then verdict Outcome.deny none (some (failed_over_args e))
      else on_failure engine req.tool e

  abbrev pub or_fail : Engine → Bytes → Result Verdict → Verdict
  or_fail engine key (ok v) = v
  or_fail engine key (err e) = on_failure engine key e

  module _ ⦃serde : SerdeJson⦄ where
    abbrev pub with_args : Engine → ToolRequest → ToolDef → Fallible Bytes Pairs → Verdict
    with_args engine req def (err reason) = verdict Outcome.deny none (some reason)
    with_args engine req def (ok args) =
        settle engine req def (authorize engine req def (some args))

    abbrev pub on_tool : Engine → ToolRequest → Option ToolDef → Verdict
    on_tool engine req none = absent_verdict engine req.tool
    on_tool engine req (some def) = with_args engine req def (extract_args def req.args)

    unfoldable pub evaluate : Engine → ToolRequest → Verdict
    evaluate engine req = on_tool engine req (lookup req.tool engine.tools)

  abbrev pub on_listed : Engine → ToolRequest → Option ToolDef → Verdict
  on_listed engine req none = absent_verdict engine req.tool
  on_listed engine req (some def) = or_fail engine req.tool (authorize engine req def none)

  unfoldable pub evaluate_listing : Engine → ToolRequest → Verdict
  evaluate_listing engine req = on_listed engine req (lookup req.tool engine.tools)

  unfoldable pub evaluate_capability : Engine → Capability → ToolRequest → Verdict
  evaluate_capability engine cap req =
      or_fail engine (action cap) (authorize_capability engine cap req)
