-- ===== src/Policy/Toy.antt =====
-- Concrete functions in the place of Cedar and serde_json, with one bundle, one engine and one call:
-- the inputs of the tests.
use obsign.Prelude.{
  ◌≡◌, ◌∷◌, [], ℕ, Bytes, codes, ℤ, pos, FitsI64, subst, true, Option, none, some, ok, arith,
  bytes_eq, if◌then◌else◌,
}
use obsign.Audit.Toy.{toy}
use obsign.Audit.Json.{Json, Fields, number, string, object, field, end}
use obsign.Policy.Cedar.{Cedar, SerdeJson, SerdeJsonLaws, CedarDecision}
use obsign.Policy.Bundle.{ArgKind, ArgSpec, ToolDef, closed, Bundle, format_v2}
use obsign.Policy.Question.{ToolRequest}
use obsign.Policy.Engine.{Engine}

-- Expressions are the texts they were made of; a request is permitted where the rules are "permit".
instance abbrev pub cedar_toy : Cedar
cedar_toy = record {
  Expression = Bytes;
  new_string = λ s. s;
  new_long = λ n. codes "long";
  new_bool = λ b. codes "bool";
  new_set = λ items. codes "set";
  new_record = λ items. ok (codes "record");
  TypeName = Bytes;
  type_name_from_str = λ s. ok s;
  EntityId = Bytes;
  entity_id_from_str = λ s. ok s;
  EntityUid = Bytes × Bytes;
  from_type_name_and_id = λ t i. (t, i);
  Entity = Bytes × Bytes;
  new_entity = λ id attrs parents. ok id;
  Entities = ℕ;
  from_entities = λ es. ok 0;
  Context = ℕ;
  from_pairs = λ pairs. ok 0;
  Request = Bytes × Bytes;
  new_request = λ p a r c. ok r;
  Policy = Bytes;
  annotation = λ p k. some p;
  id = λ p. p;
  PolicyId = Bytes;
  policy_id_from_str = λ s. ok s;
  new_id = λ p i. i;
  PolicySet = Bytes;
  policy_set_from_str = λ s. ok s;
  policies = λ s. s ∷ [];
  from_policies = λ ps. ok (elim ps [ [] ↦ [] | p ∷ rest ↦ p ]);
  is_authorized = λ q rules entities. record {
    decision = if bytes_eq rules (codes "permit") then CedarDecision.allow else CedarDecision.deny;
    reason = rules ∷ [];
    errors = [];
  };
}

unfoldable pub find : Bytes → Fields → Option Json
find k end = none
find k (field j v rest) = if bytes_eq j k then some v else find k rest

abbrev pub get_field : Bytes → Json → Option Json
get_field k (object fields) = find k fields
get_field k _ = none

abbrev pub text_of : Json → Bytes
text_of (string s) = s
text_of (number n) = n
text_of _ = codes "json"

abbrev pub str_of : Json → Option Bytes
str_of (string s) = some s
str_of _ = none

-- A pointer finds the whole value.
instance abbrev pub serde_toy : SerdeJson
serde_toy = record {
  to_string = text_of;
  pointer = λ p v. some v;
  as_i64 = λ v. some (pos 7);
  get = get_field;
  as_str = str_of;
  as_bool = λ v. none;
  as_array = λ v. none;
  set_array = λ k items v. v;
}

seven_fits : (n : ℤ) → some (pos 7) ≡ some n → FitsI64 n
seven_fits n e = let same : pos 7 ≡ n = cc in subst FitsI64 same (omega arith)

pub serde_laws : SerdeJsonLaws serde_toy
serde_laws = record { as_i64-FitsI64 = λ v {n} e. seven_fits n e }

abbrev pub channel : ArgSpec
channel = record { name = codes "channel"; at = none; kind = ArgKind.string; default = none }

abbrev pub post : ToolDef
post = record {
  name = codes "post";
  server = codes "chat";
  destructive = true;
  required_scope = none;
  policy_args = channel ∷ [];
}

abbrev pub rules : Bundle
rules = record {
  format = format_v2;
  version = codes "policies@1";
  cedar = codes "permit";
  tools = post ∷ [];
  fail_mode = record { default = closed; tools = [] };
}

abbrev pub request : ToolRequest
request = record {
  principal = codes "ada";
  groups = [];
  scopes = [];
  server = codes "chat";
  tool = codes "post";
  env = codes "prod";
  session_id = codes "s";
  actor_chain = codes "ada" ∷ [];
  has_human_delegation = true;
  delegation_depth = 0;
  principal_kind = codes "human";
  args = string (codes "ops");
}

abbrev pub engine : Engine
engine = record {
  policies = codes "permit";
  tools = (codes "post", post) ∷ [];
  version = codes "policies@1";
  fail_mode = record { default = closed; tools = [] };
}
