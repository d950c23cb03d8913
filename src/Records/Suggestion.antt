-- ===== src/Records/Suggestion.antt =====
-- `AdvisorySuggestion` of src/notary_platform/discovery/models.py: its fields and defaults, and its
-- dict form.
use notary_platform.Prelude.{
  String, ◌≡◌, true, Option, some, [], ◌∷◌, ◌<>◌, nonblank, if◌then◌else◌,
}
use notary_platform.Value.{Draw, Fields, Value, as_fields, as_text, end, get_as, obj, text, ◌>>=◌}
use notary_platform.Dict.{Dict}

pub record AdvisorySuggestion : Type 0 where
  pub id : String
  pub org_id : String
  pub suggestion_type : String
  pub workflow_id : String
  pub content : Fields
  pub basis : String
  pub expected_unlock_value : String
  pub status : String
  pub created_at : String

-- The field defaults.
abbrev pub blank : AdvisorySuggestion
blank = record {
  id = "";
  org_id = "";
  suggestion_type = "";
  workflow_id = "";
  content = end;
  basis = "";
  expected_unlock_value = "";
  status = "inferred";
  created_at = "";
}

-- `__post_init__`: an empty id or creation time is drawn.
unfoldable pub post_init : Draw → AdvisorySuggestion → AdvisorySuggestion
post_init draw r = record r {
  id = if nonblank r.id then r.id else "as-" <> draw.hex;
  created_at = if nonblank r.created_at then r.created_at else draw.now;
}

unfoldable pub to_dict : AdvisorySuggestion → Dict Value
to_dict r =
    ("id", text r.id)
    ∷ ("org_id", text r.org_id)
    ∷ ("suggestion_type", text r.suggestion_type)
    ∷ ("workflow_id", text r.workflow_id)
    ∷ ("content", obj r.content)
    ∷ ("basis", text r.basis)
    ∷ ("expected_unlock_value", text r.expected_unlock_value)
    ∷ ("status", text r.status)
    ∷ ("created_at", text r.created_at)
    ∷ []

unfoldable pub from_dict : Draw → Dict Value → Option AdvisorySuggestion
unfolding post_init get_as
from_dict draw d = do
  id ← get_as as_text "id" ("as-" <> draw.hex) d
  org_id ← get_as as_text "org_id" "" d
  suggestion_type ← get_as as_text "suggestion_type" "" d
  workflow_id ← get_as as_text "workflow_id" "" d
  content ← get_as as_fields "content" end d
  basis ← get_as as_text "basis" "" d
  expected_unlock_value ← get_as as_text "expected_unlock_value" "" d
  status ← get_as as_text "status" "inferred" d
  created_at ← get_as as_text "created_at" "" d
  some (
      post_init draw (record {
        id = id;
        org_id = org_id;
        suggestion_type = suggestion_type;
        workflow_id = workflow_id;
        content = content;
        basis = basis;
        expected_unlock_value = expected_unlock_value;
        status = status;
        created_at = created_at;
      }))

-- Reading back what `to_dict` wrote gives the same AdvisorySuggestion,
-- when its id and its creation time are not empty.
pub suggestion_round_trip :
    (draw : Draw) (r : AdvisorySuggestion)
    → nonblank r.id ≡ true
    → nonblank r.created_at ≡ true
    → from_dict draw (to_dict r) ≡ some r
unfolding from_dict to_dict
suggestion_round_trip draw r named dated = rw (named, dated)
