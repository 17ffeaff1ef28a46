-- ===== src/Policy/Channels.antt =====
-- crates/obsign-policy/src/engine.rs: the resource of the channels that the server opens.
use obsign.Prelude.{
  ◌≡◌, refl, sym, ap, ◌∙◌, Bytes, codes, true, [], ◌∷◌, ok, err, Fallible, >>=-eq-ok,
}
use obsign.Policy.Cedar.{Cedar}
use obsign.Policy.{Result}
use obsign.Policy.Question.{
  ToolRequest, Capability, keyed_on_server, entity_type, action, wrapped_server, in_cedar, Pairs,
  uid, principal_entities, arrange, capability_question, resource_id,
}

in_cedar-eq-ok {ℓ} : {A : Type ℓ} (r : Fallible Bytes A) {a : A} → in_cedar r ≡ ok a → r ≡ ok a
in_cedar-eq-ok (ok b) {a} e = let same : b ≡ a = cc in ap ok same
in_cedar-eq-ok (err why) e = absurd cc

module _ ⦃api : Cedar⦄ where
  -- What `arrange` makes is a request about its ids.
  pub arrange_resource :
      (req : ToolRequest) (principal act resource : api.EntityUid) (attrs : Pairs)
      (context_of : Result Pairs) {request : api.Request} {entities : api.Entities}
      → arrange req principal act resource attrs context_of ≡ ok (request, entities)
      → (context : api.Context) × (api.new_request principal act resource context ≡ ok request)
  unfolding arrange
  arrange_resource req principal act resource attrs context_of {request} e =
      let (people, e1, h1) = >>=-eq-ok (principal_entities req principal) _ e in
      let (entity, e2, h2) = >>=-eq-ok (in_cedar (api.new_entity resource attrs [])) _ h1 in
      let (all, e3, h3) =
        >>=-eq-ok (in_cedar (api.from_entities (people.0 ∷ entity ∷ people.1))) _ h2 in
      let (pairs, e4, h4) = >>=-eq-ok context_of _ h3 in
      let (context, e5, h5) = >>=-eq-ok (in_cedar (api.from_pairs pairs)) _ h4 in
      let (found, e6, h6) =
        >>=-eq-ok (in_cedar (api.new_request principal act resource context)) _ h5 in
      let same : found ≡ request = cc in (context, in_cedar-eq-ok _ e6 ∙ ap ok same)

  server_resource :
      (capability : Capability) (req : ToolRequest)
      → keyed_on_server capability ≡ true
      → uid (entity_type capability) (resource_id capability req)
        ≡ uid (codes "Server") wrapped_server
  server_resource Capability.sampling req k = refl
  server_resource Capability.elicitation req k = refl
  server_resource Capability.notify req k = refl
  server_resource Capability.resource_read req k = absurd cc
  server_resource Capability.prompt_get req k = absurd cc

  -- For sampling, elicitation and notify, whatever target the caller names, the request that Cedar
  -- is asked has the principal of the call, the action of the channel, and the wrapped server as its
  -- resource.
  pub capability_question-wrapped :
      (capability : Capability) (req : ToolRequest) {request : api.Request}
      {entities : api.Entities}
      → keyed_on_server capability ≡ true
      → capability_question capability req ≡ ok (request, entities)
      → (principal : api.EntityUid) × (act : api.EntityUid) × (resource : api.EntityUid)
        × (context : api.Context) × (uid (codes "User") req.principal ≡ ok principal)
        × (uid (codes "Action") (action capability) ≡ ok act)
        × (uid (codes "Server") wrapped_server ≡ ok resource)
        × (api.new_request principal act resource context ≡ ok request)
  unfolding capability_question
  capability_question-wrapped capability req keyed e =
      let (principal, e1, h1) = >>=-eq-ok (uid (codes "User") req.principal) _ e in
      let (act, e2, h2) = >>=-eq-ok (uid (codes "Action") (action capability)) _ h1 in
      let (resource, e3, h3) =
        >>=-eq-ok (uid (entity_type capability) (resource_id capability req)) _ h2 in
      let (context, made) = arrange_resource req principal act resource [] _ h3 in
      (
        principal,
        act,
        resource,
        context,
        e1,
        e2,
        sym (server_resource capability req keyed) ∙ e3,
        made,
      )
