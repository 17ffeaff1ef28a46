-- ===== src/Audit/Payload/Items.antt =====
-- The encoding of an understood payload as a sequence of items: its discriminant, then its fields.
use obsign.Prelude.{Bytes, true, ◌≡◌, ◌∙◌, append_assoc, Option, none, some, List, [], ◌∷◌, ◌++◌}
use obsign.Audit.Canonical.{Encoder, u8}
use obsign.Audit.Canonical.Items.{
  Item, byte, word, signed, text, raw, maybe_text, maybe_word, maybe_raw, maybe_pair, texts, flat,
  flat_all, Each, Fits,
}
use obsign.Audit.Canonical.Writes.{flat_laws, u8-flat}
use obsign.Audit.Payload.{
  Payload, SealedRef, delegation, actor, agent_session, llm_turn, tool_call, mcp_access,
  principal_label, unknown, decision, effect, config_reload, session_cert, approval_mode_str,
  principal_kind_str, outcome_str, effect_status_str, config_kind_str, reload_status_str, tag,
  is_understood, encode_sealed, encode_body, encode,
}

abbrev pub sealed_pair : Option SealedRef → Option (Bytes × Bytes)
sealed_pair none = none
sealed_pair (some s) = some (s.key_id, s.blob_ref)

abbrev pub fields : Payload → List Item
fields (delegation d) =
    text d.principal_sub
    ∷ text d.principal_issuer
    ∷ texts d.scopes
    ∷ signed d.expires_at_ms
    ∷ maybe_text d.approved_by
    ∷ text (approval_mode_str d.approval_mode)
    ∷ []
fields (actor a) = texts a.chain ∷ text (principal_kind_str a.principal_kind) ∷ []
fields (agent_session a) = text a.agent_id ∷ text a.agent_version ∷ raw a.config_hash ∷ []
fields (llm_turn t) =
    text t.provider
    ∷ text t.model
    ∷ raw t.prompt_hash
    ∷ raw t.response_hash
    ∷ maybe_word t.input_tokens
    ∷ maybe_word t.output_tokens
    ∷ maybe_word t.cost_micros
    ∷ []
fields (tool_call t) =
    text t.server ∷ text t.tool ∷ raw t.args_hash ∷ maybe_pair (sealed_pair t.args_sealed) ∷ []
fields (decision d) =
    text (outcome_str d.outcome)
    ∷ maybe_text d.policy_id
    ∷ text d.bundle_version
    ∷ maybe_text d.reason
    ∷ []
fields (effect x) =
    text (effect_status_str x.status) ∷ maybe_raw x.result_hash ∷ word x.latency_ms ∷ []
fields (config_reload r) =
    text (config_kind_str r.config_kind)
    ∷ text (reload_status_str r.status)
    ∷ text r.bundle_version
    ∷ maybe_raw r.bundle_hash
    ∷ maybe_text r.reason
    ∷ []
fields (session_cert s) =
    text s.session_pubkey
    ∷ text s.identity_key_id
    ∷ text s.gateway_id
    ∷ signed s.not_before_ms
    ∷ signed s.not_after_ms
    ∷ text s.identity_sig
    ∷ []
fields (mcp_access a) = text a.server ∷ text a.method ∷ text a.target ∷ raw a.params_hash ∷ []
fields (principal_label p) = text p.issuer ∷ text p.subject ∷ text p.label ∷ text p.claim ∷ []
fields (unknown u) = []

-- Every field is a value of its Rust type, and no string is 4 GiB long or longer.
abbrev pub FitsPayload : Payload → Type 0
FitsPayload p = Each Fits (fields p)

encode_sealed-flat :
    (o : Option SealedRef) (e : Encoder)
    → encode_sealed o e ≡ e ++ flat (maybe_pair (sealed_pair o))
unfolding encode_sealed
encode_sealed-flat none e = u8-flat 0 e
encode_sealed-flat (some s) e = simp flat_laws

encode_body-flat :
    (p : Payload) (e : Encoder)
    → is_understood p ≡ true
    → encode_body p e ≡ e ++ flat_all (fields p)
unfolding encode_body
encode_body-flat (delegation d) e h = simp flat_laws
encode_body-flat (tool_call t) e h = simp (flat_laws, encode_sealed-flat)
encode_body-flat (unknown u) e h = cc
encode_body-flat _ e h = simp flat_laws

pub encode-flat :
    (p : Payload) (e : Encoder)
    → is_understood p ≡ true
    → encode p e ≡ e ++ flat_all (byte (tag p) ∷ fields p)
unfolding encode
encode-flat p e h = encode_body-flat p (u8 (tag p) e) h ∙ simp (u8-flat, append_assoc)
