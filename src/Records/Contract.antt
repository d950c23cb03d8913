-- ===== src/Records/Contract.antt =====
-- `EvaluatorContractRecord` of src/notary_platform/sweep/models.py: its fields and defaults, and
-- its dict form.
use notary_platform.Prelude.{
  String, ◌≡◌, true, Option, some, List, [], ◌∷◌, ◌<>◌, nonblank, if◌then◌else◌,
}
use notary_platform.Value.{
  Draw, Fields, Value, as_fields, as_text, as_texts, end, get_as, obj, text, texts, ◌>>=◌,
}
use notary_platform.Dict.{Dict}

pub record EvaluatorContractRecord : Type 0 where
  pub id : String
  pub org_id : String
  pub name : String
  pub version : String
  pub description : String
  pub method_class : String
  pub trust_class : String
  pub required_prerequisites : List String
  pub parameters_schema : Fields
  pub created_at : String

-- The field defaults.
abbrev pub blank : EvaluatorContractRecord
blank = record {
  id = "";
  org_id = "";
  name = "";
  version = "1.0.0";
  description = "";
  method_class = "deterministic";
  trust_class = "authoritative";
  required_prerequisites = [];
  parameters_schema = end;
  created_at = "";
}

-- `__post_init__`: an empty id or creation time is drawn.
unfoldable pub post_init : Draw → EvaluatorContractRecord → EvaluatorContractRecord
post_init draw r = record r {
  id = if nonblank r.id then r.id else "eval-" <> draw.hex;
  created_at = if nonblank r.created_at then r.created_at else draw.now;
}

unfoldable pub to_dict : EvaluatorContractRecord → Dict Value
to_dict r =
    ("id", text r.id)
    ∷ ("org_id", text r.org_id)
    ∷ ("name", text r.name)
    ∷ ("version", text r.version)
    ∷ ("description", text r.description)
    ∷ ("method_class", text r.method_class)
    ∷ ("trust_class", text r.trust_class)
    ∷ ("required_prerequisites", texts r.required_prerequisites)
    ∷ ("parameters_schema", obj r.parameters_schema)
    ∷ ("created_at", text r.created_at)
    ∷ []

unfoldable pub from_dict : Draw → Dict Value → Option EvaluatorContractRecord
unfolding post_init get_as
from_dict draw d = do
  id ← get_as as_text "id" ("eval-" <> draw.hex) d
  org_id ← get_as as_text "org_id" "" d
  name ← get_as as_text "name" "" d
  version ← get_as as_text "version" "1.0.0" d
  description ← get_as as_text "description" "" d
  method_class ← get_as as_text "method_class" "deterministic" d
  trust_class ← get_as as_text "trust_class" "authoritative" d
  required_prerequisites ← get_as as_texts "required_prerequisites" [] d
  parameters_schema ← get_as as_fields "parameters_schema" end d
  created_at ← get_as as_text "created_at" "" d
  some (
      post_init draw (record {
        id = id;
        org_id = org_id;
        name = name;
        version = version;
        description = description;
        method_class = method_class;
        trust_class = trust_class;
        required_prerequisites = required_prerequisites;
        parameters_schema = parameters_schema;
        created_at = created_at;
      }))

-- Reading back what `to_dict` wrote gives the same EvaluatorContractRecord,
-- when its id and its creation time are not empty.
pub contract_round_trip :
    (draw : Draw) (r : EvaluatorContractRecord)
    → nonblank r.id ≡ true
    → nonblank r.created_at ≡ true
    → from_dict draw (to_dict r) ≡ some r
unfolding from_dict to_dict
contract_round_trip draw r named dated = rw (named, dated)
