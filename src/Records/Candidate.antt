-- ===== src/Records/Candidate.antt =====
-- `AssuranceCandidate` of src/notary_platform/sweep/models.py: its fields and defaults, and its
-- dict form.
use notary_platform.Prelude.{
  String, ◌≡◌, true, Option, some, List, [], ◌∷◌, ◌<>◌, nonblank, if◌then◌else◌,
}
use notary_platform.Value.{Draw, Value, as_text, as_texts, get_as, text, texts, ◌>>=◌}
use notary_platform.Dict.{Dict}

pub record AssuranceCandidate : Type 0 where
  pub id : String
  pub org_id : String
  pub environment_id : String
  pub der_id : String
  pub sweep_run_id : String
  pub candidate_type : String
  pub assessment_ids : List String
  pub supporting_resource_ids : List String
  pub context_binding_ids : List String
  pub resolution_trace_id : String
  pub missing_prerequisites : List String
  pub evidence_level : String
  pub severity : String
  pub lifecycle_state : String
  pub business_summary : String
  pub actual_outcome : String
  pub expected_outcome : String
  pub priority_basis : String
  pub impact_hypothesis : String
  pub cluster_ref : String
  pub created_at : String

-- The field defaults.
abbrev pub blank : AssuranceCandidate
blank = record {
  id = "";
  org_id = "";
  environment_id = "";
  der_id = "";
  sweep_run_id = "";
  candidate_type = "";
  assessment_ids = [];
  supporting_resource_ids = [];
  context_binding_ids = [];
  resolution_trace_id = "";
  missing_prerequisites = [];
  evidence_level = "";
  severity = "medium";
  lifecycle_state = "needs_context";
  business_summary = "";
  actual_outcome = "";
  expected_outcome = "";
  priority_basis = "";
  impact_hypothesis = "";
  cluster_ref = "";
  created_at = "";
}

-- `__post_init__`: an empty id or creation time is drawn.
unfoldable pub post_init : Draw → AssuranceCandidate → AssuranceCandidate
post_init draw r = record r {
  id = if nonblank r.id then r.id else "ac-" <> draw.hex;
  created_at = if nonblank r.created_at then r.created_at else draw.now;
}

unfoldable pub to_dict : AssuranceCandidate → Dict Value
to_dict r =
    ("id", text r.id)
    ∷ ("org_id", text r.org_id)
    ∷ ("environment_id", text r.environment_id)
    ∷ ("der_id", text r.der_id)
    ∷ ("sweep_run_id", text r.sweep_run_id)
    ∷ ("candidate_type", text r.candidate_type)
    ∷ ("assessment_ids", texts r.assessment_ids)
    ∷ ("supporting_resource_ids", texts r.supporting_resource_ids)
    ∷ ("context_binding_ids", texts r.context_binding_ids)
    ∷ ("resolution_trace_id", text r.resolution_trace_id)
    ∷ ("missing_prerequisites", texts r.missing_prerequisites)
    ∷ ("evidence_level", text r.evidence_level)
    ∷ ("severity", text r.severity)
    ∷ ("lifecycle_state", text r.lifecycle_state)
    ∷ ("business_summary", text r.business_summary)
    ∷ ("actual_outcome", text r.actual_outcome)
    ∷ ("expected_outcome", text r.expected_outcome)
    ∷ ("priority_basis", text r.priority_basis)
    ∷ ("impact_hypothesis", text r.impact_hypothesis)
    ∷ ("cluster_ref", text r.cluster_ref)
    ∷ ("created_at", text r.created_at)
    ∷ []

unfoldable pub from_dict : Draw → Dict Value → Option AssuranceCandidate
unfolding post_init get_as
from_dict draw d = do
  id ← get_as as_text "id" ("ac-" <> draw.hex) d
  org_id ← get_as as_text "org_id" "" d
  environment_id ← get_as as_text "environment_id" "" d
  der_id ← get_as as_text "der_id" "" d
  sweep_run_id ← get_as as_text "sweep_run_id" "" d
  candidate_type ← get_as as_text "candidate_type" "" d
  assessment_ids ← get_as as_texts "assessment_ids" [] d
  supporting_resource_ids ← get_as as_texts "supporting_resource_ids" [] d
  context_binding_ids ← get_as as_texts "context_binding_ids" [] d
  resolution_trace_id ← get_as as_text "resolution_trace_id" "" d
  missing_prerequisites ← get_as as_texts "missing_prerequisites" [] d
  evidence_level ← get_as as_text "evidence_level" "" d
  severity ← get_as as_text "severity" "medium" d
  lifecycle_state ← get_as as_text "lifecycle_state" "needs_context" d
  business_summary ← get_as as_text "business_summary" "" d
  actual_outcome ← get_as as_text "actual_outcome" "" d
  expected_outcome ← get_as as_text "expected_outcome" "" d
  priority_basis ← get_as as_text "priority_basis" "" d
  impact_hypothesis ← get_as as_text "impact_hypothesis" "" d
  cluster_ref ← get_as as_text "cluster_ref" "" d
  created_at ← get_as as_text "created_at" "" d
  some (
      post_init draw (record {
        id = id;
        org_id = org_id;
        environment_id = environment_id;
        der_id = der_id;
        sweep_run_id = sweep_run_id;
        candidate_type = candidate_type;
        assessment_ids = assessment_ids;
        supporting_resource_ids = supporting_resource_ids;
        context_binding_ids = context_binding_ids;
        resolution_trace_id = resolution_trace_id;
        missing_prerequisites = missing_prerequisites;
        evidence_level = evidence_level;
        severity = severity;
        lifecycle_state = lifecycle_state;
        business_summary = business_summary;
        actual_outcome = actual_outcome;
        expected_outcome = expected_outcome;
        priority_basis = priority_basis;
        impact_hypothesis = impact_hypothesis;
        cluster_ref = cluster_ref;
        created_at = created_at;
      }))

-- Reading back what `to_dict` wrote gives the same AssuranceCandidate,
-- when its id and its creation time are not empty.
pub candidate_round_trip :
    (draw : Draw) (r : AssuranceCandidate)
    → nonblank r.id ≡ true
    → nonblank r.created_at ≡ true
    → from_dict draw (to_dict r) ≡ some r
unfolding from_dict to_dict
candidate_round_trip draw r named dated = rw (named, dated)
