-- ===== src/Records/Run.antt =====
-- `SweepRun` of src/notary_platform/sweep/models.py: its fields and defaults, and its dict form.
use notary_platform.Prelude.{
  ℕ, String, ◌≡◌, true, Option, some, [], ◌∷◌, ◌<>◌, nonblank, if◌then◌else◌,
}
use notary_platform.Value.{
  Draw, Fields, Value, as_fields, as_num, as_text, end, get_as, num, obj, text, ◌>>=◌,
}
use notary_platform.Dict.{Dict}

pub record SweepRun : Type 0 where
  pub id : String
  pub org_id : String
  pub environment_id : String
  pub definition_id : String
  pub status : String
  pub manifest_ref : String
  pub source_cursors : Fields
  pub record_count : ℕ
  pub evaluator_count : ℕ
  pub executed_count : ℕ
  pub skipped_count : ℕ
  pub failed_count : ℕ
  pub suppressed_count : ℕ
  pub candidate_count : ℕ
  pub error_message : String
  pub created_at : String
  pub started_at : String
  pub completed_at : String

-- The field defaults.
abbrev pub blank : SweepRun
blank = record {
  id = "";
  org_id = "";
  environment_id = "";
  definition_id = "";
  status = "queued";
  manifest_ref = "";
  source_cursors = end;
  record_count = 0;
  evaluator_count = 0;
  executed_count = 0;
  skipped_count = 0;
  failed_count = 0;
  suppressed_count = 0;
  candidate_count = 0;
  error_message = "";
  created_at = "";
  started_at = "";
  completed_at = "";
}

-- `__post_init__`: an empty id or creation time is drawn.
unfoldable pub post_init : Draw → SweepRun → SweepRun
post_init draw r = record r {
  id = if nonblank r.id then r.id else "sr-" <> draw.hex;
  created_at = if nonblank r.created_at then r.created_at else draw.now;
}

unfoldable pub to_dict : SweepRun → Dict Value
to_dict r =
    ("id", text r.id)
    ∷ ("org_id", text r.org_id)
    ∷ ("environment_id", text r.environment_id)
    ∷ ("definition_id", text r.definition_id)
    ∷ ("status", text r.status)
    ∷ ("manifest_ref", text r.manifest_ref)
    ∷ ("source_cursors", obj r.source_cursors)
    ∷ ("record_count", num r.record_count)
    ∷ ("evaluator_count", num r.evaluator_count)
    ∷ ("executed_count", num r.executed_count)
    ∷ ("skipped_count", num r.skipped_count)
    ∷ ("failed_count", num r.failed_count)
    ∷ ("suppressed_count", num r.suppressed_count)
    ∷ ("candidate_count", num r.candidate_count)
    ∷ ("error_message", text r.error_message)
    ∷ ("created_at", text r.created_at)
    ∷ ("started_at", text r.started_at)
    ∷ ("completed_at", text r.completed_at)
    ∷ []

unfoldable pub from_dict : Draw → Dict Value → Option SweepRun
unfolding post_init get_as
from_dict draw d = do
  id ← get_as as_text "id" ("sr-" <> draw.hex) d
  org_id ← get_as as_text "org_id" "" d
  environment_id ← get_as as_text "environment_id" "" d
  definition_id ← get_as as_text "definition_id" "" d
  status ← get_as as_text "status" "queued" d
  manifest_ref ← get_as as_text "manifest_ref" "" d
  source_cursors ← get_as as_fields "source_cursors" end d
  record_count ← get_as as_num "record_count" 0 d
  evaluator_count ← get_as as_num "evaluator_count" 0 d
  executed_count ← get_as as_num "executed_count" 0 d
  skipped_count ← get_as as_num "skipped_count" 0 d
  failed_count ← get_as as_num "failed_count" 0 d
  suppressed_count ← get_as as_num "suppressed_count" 0 d
  candidate_count ← get_as as_num "candidate_count" 0 d
  error_message ← get_as as_text "error_message" "" d
  created_at ← get_as as_text "created_at" "" d
  started_at ← get_as as_text "started_at" "" d
  completed_at ← get_as as_text "completed_at" "" d
  some (
      post_init draw (record {
        id = id;
        org_id = org_id;
        environment_id = environment_id;
        definition_id = definition_id;
        status = status;
        manifest_ref = manifest_ref;
        source_cursors = source_cursors;
        record_count = record_count;
        evaluator_count = evaluator_count;
        executed_count = executed_count;
        skipped_count = skipped_count;
        failed_count = failed_count;
        suppressed_count = suppressed_count;
        candidate_count = candidate_count;
        error_message = error_message;
        created_at = created_at;
        started_at = started_at;
        completed_at = completed_at;
      }))

-- Reading back what `to_dict` wrote gives the same SweepRun,
-- when its id and its creation time are not empty.
pub run_round_trip :
    (draw : Draw) (r : SweepRun)
    → nonblank r.id ≡ true
    → nonblank r.created_at ≡ true
    → from_dict draw (to_dict r) ≡ some r
unfolding from_dict to_dict
run_round_trip draw r named dated = rw (named, dated)
