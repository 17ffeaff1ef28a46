-- ===== src/Gateway/Tests.antt =====
-- The gateway at concrete inputs: the messages of one call, and what the server opens.
use obsign.Prelude.{
  ◌≡◌, refl, ◌≤◌, Bytes, codes, pos, none, some, [], Fallible, ok, contains, insert_new, lookup,
  length,
}
use obsign.Audit.Toy.{toy}
use obsign.Audit.Json.{Json, number, string, object, field, end}
use obsign.Audit.Payload.{Outcome}
use obsign.Audit.Chain.{new_chain, append}
use obsign.Audit.Origin.{unsigned}
use obsign.Policy.Toy.{cedar_toy, serde_toy, find}
use obsign.Policy.Args.{extract_loop, present, coerce, coerce_string}
use obsign.Policy.Question.{
  call_question, capability_question, uid, arrange, principal_entities, group_entities,
}
use obsign.Policy.Engine.{
  Verdict, verdict, evaluate, evaluate_capability, authorize, authorize_capability, read_response,
}
use obsign.Gateway.Identity.{is_expired, int_leb}
use obsign.Gateway.Session.{Session, write, next_call_id, id_of, record_config_reloads}
use obsign.Gateway.Auth.{Auth, refresh, take_reloads}
use obsign.Gateway.Acts.{
  Forward, pass, tool, act_of, any_eq, or_default, str_in, Downstream, forward,
}
use obsign.Gateway.Agent.{authenticate, verdict_of, carry_out, handle_act, handle_from_agent}
use obsign.Gateway.Server.{
  handle_server_initiated, handle_from_server, channel_of, record_access, arbitrate_channel,
  remember, relayed_cap,
}
use obsign.Gateway.Audited.{Carried, carry_out_sound}
use obsign.Gateway.Passed.{Passed, handle_from_agent_sound}
use obsign.Gateway.Reached.{Reached, handle_server_initiated_sound}
use obsign.Gateway.Steps.{from_server, Steps, here, then_, Steps-IsBounded}
use obsign.Gateway.Toy.{host_toy, provider_toy, ctx, auth, session, with_result, with_second}

abbrev params : Json
params = object (
    field (codes "name") (string (codes "post"))
      (field (codes "arguments") (string (codes "ops")) end))

abbrev message : Json
message = object (
    field (codes "id") (number (codes "1"))
      (field (codes "method") (string (codes "tools/call")) (field (codes "params") params end)))

abbrev sample : Json
sample = object (
    field (codes "id") (number (codes "9"))
      (field (codes "method") (string (codes "sampling/createMessage")) end))

abbrev ping : Json
ping = object (
    field (codes "id") (number (codes "7"))
      (field (codes "method") (string (codes "roots/list")) end))

abbrev handled : Auth × (Session × Fallible Bytes Forward)
handled = handle_from_agent ctx message auth none (pos 5) session

handled_passes : handled.1.1 ≡ ok (pass (codes "json"))
unfolding handle_from_agent find act_of any_eq authenticate refresh take_reloads is_expired int_leb
    handle_act record_config_reloads carry_out verdict_of next_call_id write id_of append unsigned
    evaluate lookup extract_loop present coerce coerce_string authorize call_question uid arrange
    principal_entities group_entities read_response
handled_passes = refl

handle_from_agent_sound_example :
    (codes "json" ≡ codes "json") × Passed ctx message auth none (pos 5) session handled.1.0
handle_from_agent_sound_example =
    handle_from_agent_sound ctx message auth none (pos 5) session
      (with_result handled handled_passes)

abbrev allowed : Verdict
allowed = verdict Outcome.allow none none

abbrev carried : Session × Fallible Bytes Forward
carried =
    carry_out ctx (tool (codes "post")) (codes "raw") params (number (codes "1")) allowed session

carried_passes : carried.1 ≡ ok (pass (codes "raw"))
unfolding carry_out next_call_id write id_of append unsigned lookup
carried_passes = refl

carry_out_sound_example :
    Carried ctx
      (tool (codes "post"))
      (codes "raw")
      params
      (number (codes "1"))
      allowed
      session
      carried.0
      (pass (codes "raw"))
carry_out_sound_example =
    carry_out_sound ctx (tool (codes "post")) (codes "raw") params (number (codes "1")) allowed
      session (with_second carried carried_passes)

abbrev sampled : Session × Downstream
sampled = handle_server_initiated ctx sample auth.current (codes "s") (pos 5) session

sampled_reaches : sampled.1 ≡ forward sample
unfolding handle_server_initiated find channel_of is_expired int_leb arbitrate_channel record_access
    next_call_id write id_of append unsigned lookup evaluate_capability authorize_capability
    capability_question uid arrange principal_entities group_entities read_response
sampled_reaches = refl

handle_server_initiated_sound_example :
    (sample ≡ sample)
    × Reached ctx sample
        (or_default (str_in (codes "method") (some sample)))
        auth.current
        (codes "s")
        (pos 5)
        session
        sampled.0
handle_server_initiated_sound_example =
    handle_server_initiated_sound ctx sample auth.current (codes "s") (pos 5) session
      (with_second sampled sampled_reaches)

-- A request that is relayed has its id remembered.
remembered :
    length (handle_from_server ctx ping auth.current (codes "s") (pos 5) session).0.relayed_to_agent
    ≡ 1
unfolding handle_from_server handle_server_initiated find channel_of insert_new remember contains
remembered = refl

after_ping :
    Steps ctx session (handle_from_server ctx ping auth.current (codes "s") (pos 5) session).0
after_ping = then_ _ _ here (from_server ping auth.current (codes "s") (pos 5) session)

steps-IsBounded_example :
    length (handle_from_server ctx ping auth.current (codes "s") (pos 5) session).0.relayed_to_agent
    ≤ relayed_cap
steps-IsBounded_example =
    Steps-IsBounded ctx (new_chain (codes "c1")) [] (codes "s") none after_ping
