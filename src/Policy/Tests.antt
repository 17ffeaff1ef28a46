-- ===== src/Policy/Tests.antt =====
-- The policy crate at concrete inputs.
use obsign.Prelude.{◌≡◌, refl, ◌⊎◌, inr, ◌∷◌, [], Bytes, codes, true, some, ok, err, length, lookup}
use obsign.Audit.Toy.{toy, toy_laws}
use obsign.Audit.Canonical.Items.{Each}
use obsign.Audit.Json.{null, string}
use obsign.Audit.Payload.{Outcome}
use obsign.Policy.{Error}
use obsign.Policy.Bundle.{
  ArgKind, ToolDef, open_, format_v1, format_v2, sign_bundle, verify_bundle, for_tool,
  policy_signing_bytes,
}
use obsign.Policy.Args.{
  extract_args, extract_loop, present, coerce, coerce_string, validate_arg_specs, absent_arg,
  check_declared, check_specs, check_spec, check_shape, seen_before,
}
use obsign.Policy.Question.{
  Capability, Pairs, capability_question, call_question, arrange, principal_entities,
  group_entities, uid, action,
}
use obsign.Policy.Engine.{
  authorize, authorize_capability, read_response, evaluate, evaluate_capability, is_allowed,
}
use obsign.Policy.Load.{load, rename, catalogue, validate_tools}
use obsign.Policy.Verdicts.{Passes, Permitted, evaluate_sound, evaluate_capability_sound}
use obsign.Policy.Coercion.{Typed, coerce_bounds}
use obsign.Policy.Extract.{Extracted, Refused, extract_args_sound, extract_args_refused}
use obsign.Policy.Seal.{
  NoArgs, Validated, verify_bundle_sound, verify_bundle-sign_bundle, load_sound,
}
use obsign.Policy.Toy.{cedar_toy, serde_toy, serde_laws, post, rules, request, engine}

loads : load rules ≡ ok engine
unfolding load rename catalogue validate_tools validate_arg_specs check_declared check_specs
    check_spec check_shape seen_before
loads = refl

evaluated : is_allowed (evaluate engine request) ≡ true
unfolding evaluate lookup extract_loop present coerce coerce_string authorize call_question uid
    arrange principal_entities group_entities read_response
evaluated = refl

evaluate_sound_example :
    (def : ToolDef) × (args : Pairs) × (lookup request.tool engine.tools ≡ some def)
    × (extract_args def request.args ≡ ok args)
    × Passes engine request def args (evaluate engine request)
evaluate_sound_example = evaluate_sound engine request evaluated

sampled : is_allowed (evaluate_capability engine Capability.sampling request) ≡ true
unfolding evaluate_capability authorize_capability capability_question uid arrange
    principal_entities group_entities read_response
sampled = refl

evaluate_capability_sound_example :
    ((evaluate_capability engine Capability.sampling request).outcome ≡ Outcome.allow)
      × Permitted engine (capability_question Capability.sampling request)
    ⊎ ((evaluate_capability engine Capability.sampling request).outcome ≡ Outcome.allow_fail_open)
      × (for_tool engine.fail_mode (action Capability.sampling) ≡ open_)
      × ((e : Error) × (authorize_capability engine Capability.sampling request ≡ err e))
evaluate_capability_sound_example =
    evaluate_capability_sound engine Capability.sampling request sampled

coerced : coerce ArgKind.string (string (codes "ops")) ≡ ok (codes "ops")
unfolding coerce coerce_string
coerced = refl

coerce_bounds_example : Typed ArgKind.string (string (codes "ops")) (codes "ops")
coerce_bounds_example = coerce_bounds serde_laws ArgKind.string (string (codes "ops")) coerced

extracted : extract_args post request.args ≡ ok ((codes "channel", codes "ops") ∷ [])
unfolding extract_loop present coerce coerce_string
extracted = refl

extract_args_sound_example :
    Extracted request.args post.policy_args ((codes "channel", codes "ops") ∷ [])
extract_args_sound_example = extract_args_sound serde_laws post request.args extracted

valid : validate_arg_specs post format_v2 ≡ ok tt
unfolding validate_arg_specs check_declared check_specs check_spec check_shape seen_before
valid = refl

left_out : extract_args post null ≡ err (absent_arg (codes "channel"))
unfolding extract_loop present
left_out = refl

extract_args_refused_example : Refused null post.policy_args
extract_args_refused_example = extract_args_refused post format_v2 null valid left_out

rules_verified :
    verify_bundle (sign_bundle rules (codes "k") (codes "key")) (toy.ed25519_public (codes "key"))
    ≡ ok rules
rules_verified = verify_bundle-sign_bundle toy_laws rules (codes "k") (codes "key") (inr refl)

verify_bundle_sound_example :
    ((sign_bundle rules (codes "k") (codes "key")).bundle ≡ rules)
    × ((rules.format ≡ format_v1) × Each NoArgs rules.tools ⊎ (rules.format ≡ format_v2))
    × (sig : Bytes) × (toy.hex_decode (sign_bundle rules (codes "k") (codes "key")).signature
        ≡ some sig)
    × (length sig ≡ 64)
    × (toy.ed25519_verify (toy.ed25519_public (codes "key")) (policy_signing_bytes rules) sig
        ≡ true)
verify_bundle_sound_example =
    verify_bundle_sound (sign_bundle rules (codes "k") (codes "key"))
      (toy.ed25519_public (codes "key")) rules_verified

load_sound_example :
    (engine.version ≡ rules.version)
    × (engine.fail_mode ≡ rules.fail_mode)
    × ((name : Bytes) (def : ToolDef)
        → lookup name engine.tools ≡ some def
        → (def.name ≡ name) × Validated rules.format def)
load_sound_example = load_sound rules loads
