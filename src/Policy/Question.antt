-- ===== src/Policy/Question.antt =====
-- crates/obsign-policy/src/engine.rs: what the engine asks Cedar about a call, a listing or the access
-- of another capability. Cedar takes the entities, attributes and contexts as they are built here.
use obsign.Prelude.{
  ℕ, Bytes, codes, pos, Bool, true, false, Option, none, some, List, [], ◌∷◌, ◌++◌, map, ok, err,
  Fallible, ◌>>=◌, if◌then◌else◌,
}
use obsign.Audit.Json.{Json}
use obsign.Policy.Cedar.{Cedar}
use obsign.Policy.{Result, cedar}
use obsign.Policy.Bundle.{ToolDef}

abbrev pub wrapped_server : Bytes
wrapped_server = codes "mcp://wrapped"

pub record ToolRequest : Type 0 where
  pub principal : Bytes
  pub groups : List Bytes
  pub scopes : List Bytes
  pub server : Bytes
  pub tool : Bytes
  pub env : Bytes
  pub session_id : Bytes
  pub actor_chain : List Bytes
  pub has_human_delegation : Bool
  pub delegation_depth : ℕ
  pub principal_kind : Bytes
  pub args : Json

pub data Capability : Type 0 where
  resource_read prompt_get sampling elicitation notify : Capability

abbrev pub action : Capability → Bytes
action resource_read = codes "resource_read"
action prompt_get = codes "prompt_get"
action sampling = codes "sampling"
action elicitation = codes "elicitation"
action notify = codes "notify"

abbrev pub entity_type : Capability → Bytes
entity_type resource_read = codes "Resource"
entity_type prompt_get = codes "Prompt"
entity_type _ = codes "Server"

abbrev pub keyed_on_server : Capability → Bool
keyed_on_server resource_read = false
keyed_on_server prompt_get = false
keyed_on_server _ = true

-- `map_err(|e| Error::Cedar(e.to_string()))`
abbrev pub in_cedar {ℓ} : {A : Type ℓ} → Fallible Bytes A → Result A
in_cedar (ok a) = ok a
in_cedar (err why) = err (cedar why)

module _ ⦃api : Cedar⦄ where
  abbrev pub Pairs : Type 0
  Pairs = List (Bytes × api.Expression)

  unfoldable pub uid : Bytes → Bytes → Result api.EntityUid
  uid kind id = do
    type_name ← in_cedar (api.type_name_from_str kind)
    entity_id ← in_cedar (api.entity_id_from_str id)
    ok (api.from_type_name_and_id type_name entity_id)

  -- The ids and the entities of the groups, in the order of the request.
  unfoldable pub group_entities : List Bytes → Result (List (api.EntityUid × api.Entity))
  group_entities [] = ok []
  group_entities (g ∷ gs) = do
    g_uid ← uid (codes "Group") g
    entity ← in_cedar (api.new_entity g_uid [] [])
    rest ← group_entities gs
    ok ((g_uid, entity) ∷ rest)

  unfoldable pub principal_entities :
      ToolRequest → api.EntityUid → Result (api.Entity × List api.Entity)
  principal_entities req principal = do
    groups ← group_entities req.groups
    entity ←
        in_cedar
          (api.new_entity principal [] (map (λ (g : api.EntityUid × api.Entity). g.0) groups))
    ok (entity, map (λ (g : api.EntityUid × api.Entity). g.1) groups)

  abbrev pub string_set : List Bytes → api.Expression
  string_set items = api.new_set (map api.new_string items)

  unfoldable pub context_pairs : ToolRequest → Pairs
  context_pairs req =
      (codes "env", api.new_string req.env)
      ∷ (codes "server", api.new_string req.server)
      ∷ (codes "session", api.new_string req.session_id)
      ∷ (codes "scopes", string_set req.scopes)
      ∷ (codes "has_human_delegation", api.new_bool req.has_human_delegation)
      ∷ (codes "delegation_depth", api.new_long (pos req.delegation_depth))
      ∷ (codes "principal_kind", api.new_string req.principal_kind)
      ∷ (codes "actor_chain", string_set req.actor_chain)
      ∷ []

  -- The request and the entities, from the ids, the attributes of the resource and the context.
  unfoldable pub arrange :
      ToolRequest
      → api.EntityUid
      → api.EntityUid
      → api.EntityUid
      → Pairs
      → Result Pairs
      → Result (api.Request × api.Entities)
  arrange req principal action resource attrs context_of = do
    people ← principal_entities req principal
    entity ← in_cedar (api.new_entity resource attrs [])
    entities ← in_cedar (api.from_entities (people.0 ∷ entity ∷ people.1))
    pairs ← context_of
    context ← in_cedar (api.from_pairs pairs)
    request ← in_cedar (api.new_request principal action resource context)
    ok (request, entities)

  abbrev pub tool_attrs : ToolDef → Pairs
  tool_attrs def =
      (codes "destructive", api.new_bool def.destructive)
      ∷ (codes "server", api.new_string def.server)
      ∷ (
        codes "required_scope",
        api.new_string (elim def.required_scope [ some s ↦ s | none ↦ [] ]),
      )
      ∷ []

  abbrev pub call_pairs : ToolRequest → Option Pairs → Result Pairs
  call_pairs req none = ok (context_pairs req)
  call_pairs req (some args) = do
    args_record ← in_cedar (api.new_record args)
    ok (context_pairs req ++ (codes "args", args_record) ∷ [])

  abbrev pub is_some {ℓ} : {A : Type ℓ} → Option A → Bool
  is_some none = false
  is_some (some a) = true

  -- What `authorize` asks Cedar.
  unfoldable pub call_question :
      ToolRequest → ToolDef → Option Pairs → Result (api.Request × api.Entities)
  call_question req def args = do
    principal ← uid (codes "User") req.principal
    action ← uid (codes "Action") (codes "tool_call")
    resource ← uid (codes "Tool") def.name
    arrange req principal action resource (tool_attrs def) (call_pairs req args)

  abbrev pub resource_id : Capability → ToolRequest → Bytes
  resource_id cap req = if keyed_on_server cap then wrapped_server else req.tool

  -- What `authorize_capability` asks Cedar.
  unfoldable pub capability_question :
      Capability → ToolRequest → Result (api.Request × api.Entities)
  capability_question cap req = do
    principal ← uid (codes "User") req.principal
    act ← uid (codes "Action") (action cap)
    resource ← uid (entity_type cap) (resource_id cap req)
    arrange req principal act resource []
        (ok (context_pairs req ++ (codes "target", api.new_string req.tool) ∷ []))
