-- ===== src/Policy/Cedar.antt =====
-- The third-party crates that crates/obsign-policy calls: `cedar_policy` and `serde_json`, as
-- parameters. A function that can fail gives the text of its error.
use obsign.Prelude.{Bytes, ℤ, FitsI64, Bool, Option, some, List, Fallible, ◌≡◌}
use obsign.Audit.Json.{Json}

pub data CedarDecision : Type 0 where
  allow deny : CedarDecision

-- `Response`: the decision, the ids of the rules that determined it, and the texts of the errors.
pub record Response : Type 0 where
  pub decision : CedarDecision
  pub reason : List Bytes
  pub errors : List Bytes

pub record Cedar : Type 1 where
  pub Expression : Type 0
  pub new_string : Bytes → Expression
  pub new_long : ℤ → Expression
  pub new_bool : Bool → Expression
  pub new_set : List Expression → Expression
  pub new_record : List (Bytes × Expression) → Fallible Bytes Expression
  pub TypeName : Type 0
  pub type_name_from_str : Bytes → Fallible Bytes TypeName
  pub EntityId : Type 0
  pub entity_id_from_str : Bytes → Fallible Bytes EntityId
  pub EntityUid : Type 0
  pub from_type_name_and_id : TypeName → EntityId → EntityUid
  pub Entity : Type 0
  -- the id, the attributes and the parents
  pub new_entity : EntityUid → List (Bytes × Expression) → List EntityUid → Fallible Bytes Entity
  pub Entities : Type 0
  pub from_entities : List Entity → Fallible Bytes Entities
  pub Context : Type 0
  pub from_pairs : List (Bytes × Expression) → Fallible Bytes Context
  pub Request : Type 0
  -- the principal, the action, the resource and the context
  pub new_request : EntityUid → EntityUid → EntityUid → Context → Fallible Bytes Request
  pub Policy : Type 0
  pub annotation : Policy → Bytes → Option Bytes
  pub id : Policy → Bytes
  pub PolicyId : Type 0
  pub policy_id_from_str : Bytes → Fallible Bytes PolicyId
  pub new_id : Policy → PolicyId → Policy
  pub PolicySet : Type 0
  pub policy_set_from_str : Bytes → Fallible Bytes PolicySet
  pub policies : PolicySet → List Policy
  pub from_policies : List Policy → Fallible Bytes PolicySet
  pub is_authorized : Request → PolicySet → Entities → Response

pub record SerdeJson : Type 0 where
  -- `Value::to_string`
  pub to_string : Json → Bytes
  -- `Value::pointer`, with the pointer first
  pub pointer : Bytes → Json → Option Json
  -- `Value::as_i64`
  pub as_i64 : Json → Option ℤ
  -- `Value::get` of a key, and `as_str`, `as_bool` and `as_array`
  pub get : Bytes → Json → Option Json
  pub as_str : Json → Option Bytes
  pub as_bool : Json → Option Bool
  pub as_array : Json → Option (List Json)
  -- a `Value::Array` of the items, written to `pointer_mut`
  pub set_array : Bytes → List Json → Json → Json

-- `as_i64` gives an `i64`.
pub record SerdeJsonLaws (s : SerdeJson) : Type 0 where
  pub as_i64-FitsI64 : (v : Json) {n : ℤ} → s.as_i64 v ≡ some n → FitsI64 n
