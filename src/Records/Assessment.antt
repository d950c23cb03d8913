-- ===== src/Records/Assessment.antt =====
-- `AssessmentRecord` of src/notary_platform/sweep/models.py: its fields and defaults, and its dict
-- form.
use notary_platform.Prelude.{
  String, ◌≡◌, true, Option, some, [], ◌∷◌, ◌<>◌, nonblank, if◌then◌else◌,
}
use notary_platform.Value.{Draw, Fields, Value, as_fields, as_text, end, get_as, obj, text, ◌>>=◌}
use notary_platform.Dict.{Dict}

pub record AssessmentRecord : Type 0 where
  pub id : String
  pub org_id : String
  pub run_id : String
  pub evaluator_id : String
  pub evaluator_version : String
  pub der_id : String
  pub finding_type : String
  pub status : String
  pub summary : String
  pub details : Fields
  pub evidence_level : String
  pub created_at : String

-- The field defaults.
abbrev pub blank : AssessmentRecord
blank = record {
  id = "";
  org_id = "";
  run_id = "";
  evaluator_id = "";
  evaluator_version = "";
  der_id = "";
  finding_type = "";
  status = "assessed";
  summary = "";
  details = end;
  evidence_level = "";
  created_at = "";
}

-- `__post_init__`: an empty id or creation time is drawn.
unfoldable pub post_init : Draw → AssessmentRecord → AssessmentRecord
post_init draw r = record r {
  id = if nonblank r.id then r.id else "ar-" <> draw.hex;
  created_at = if nonblank r.created_at then r.created_at else draw.now;
}

unfoldable pub to_dict : AssessmentRecord → Dict Value
to_dict r =
    ("id", text r.id)
    ∷ ("org_id", text r.org_id)
    ∷ ("run_id", text r.run_id)
    ∷ ("evaluator_id", text r.evaluator_id)
    ∷ ("evaluator_version", text r.evaluator_version)
    ∷ ("der_id", text r.der_id)
    ∷ ("finding_type", text r.finding_type)
    ∷ ("status", text r.status)
    ∷ ("summary", text r.summary)
    ∷ ("details", obj r.details)
    ∷ ("evidence_level", text r.evidence_level)
    ∷ ("created_at", text r.created_at)
    ∷ []

unfoldable pub from_dict : Draw → Dict Value → Option AssessmentRecord
unfolding post_init get_as
from_dict draw d = do
  id ← get_as as_text "id" ("ar-" <> draw.hex) d
  org_id ← get_as as_text "org_id" "" d
  run_id ← get_as as_text "run_id" "" d
  evaluator_id ← get_as as_text "evaluator_id" "" d
  evaluator_version ← get_as as_text "evaluator_version" "" d
  der_id ← get_as as_text "der_id" "" d
  finding_type ← get_as as_text "finding_type" "" d
  status ← get_as as_text "status" "assessed" d
  summary ← get_as as_text "summary" "" d
  details ← get_as as_fields "details" end d
  evidence_level ← get_as as_text "evidence_level" "" d
  created_at ← get_as as_text "created_at" "" d
  some (
      post_init draw (record {
        id = id;
        org_id = org_id;
        run_id = run_id;
        evaluator_id = evaluator_id;
        evaluator_version = evaluator_version;
        der_id = der_id;
        finding_type = finding_type;
        status = status;
        summary = summary;
        details = details;
        evidence_level = evidence_level;
        created_at = created_at;
      }))

-- Reading back what `to_dict` wrote gives the same AssessmentRecord,
-- when its id and its creation time are not empty.
pub assessment_round_trip :
    (draw : Draw) (r : AssessmentRecord)
    → nonblank r.id ≡ true
    → nonblank r.created_at ≡ true
    → from_dict draw (to_dict r) ≡ some r
unfolding from_dict to_dict
assessment_round_trip draw r named dated = rw (named, dated)
