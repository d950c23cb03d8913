-- ===== src/Discovery/Suggestions.antt =====
-- The advisory suggestions: their collection in `MemoryStorage` of src/notary_platform/storage.py, and
-- the operations of src/notary_platform/discovery/evidence_records.py and context.py on them.
use notary_platform.Prelude.{String, ◌||◌, ◌==◌, Option, List, if◌then◌else◌, nonblank, keep, map}
use notary_platform.Dict.{Dict, get, put, values}
use notary_platform.Value.{Draw, Value, field, end, text}
use notary_platform.Records.Suggestion
use notary_platform.Records.Suggestion.{AdvisorySuggestion}

abbrev pub Suggestions : Type 0
Suggestions = Dict AdvisorySuggestion

-- `create_advisory_suggestion` and `update_advisory_suggestion`
unfoldable pub put_suggestion : AdvisorySuggestion → Suggestions → Suggestions
unfolding put
put_suggestion x s = put x.id x s

unfoldable pub get_suggestion : String → Suggestions → Option AdvisorySuggestion
unfolding get
get_suggestion key s = get key s

unfoldable pub list_advisory_suggestions :
    (org_id workflow_id : String) → Suggestions → List AdvisorySuggestion
unfolding keep values
list_advisory_suggestions org_id workflow_id s =
    let owned = keep (λ x. x.org_id == org_id) (values s) in
    if nonblank workflow_id then keep (λ x. x.workflow_id == workflow_id) owned else owned

unfoldable pub suggest_policy_candidates :
    Draw → (workflow_id org_id basis : String) → Suggestions → AdvisorySuggestion × Suggestions
unfolding Suggestion.post_init put_suggestion
suggest_policy_candidates draw workflow_id org_id basis s =
    let suggestion = Suggestion.post_init draw (record Suggestion.blank {
      org_id = org_id;
      suggestion_type = "policy_candidate";
      workflow_id = workflow_id;
      content = field "workflow_id" (text workflow_id) (field "status" (text "candidate") end);
      basis = basis;
      expected_unlock_value = "structured policy evaluator";
    }) in
    (suggestion, put_suggestion suggestion s)

unfoldable pub suggest_context_roadmap :
    (workflow_id org_id : String) → Suggestions → List AdvisorySuggestion
unfolding keep list_advisory_suggestions
suggest_context_roadmap workflow_id org_id s =
    keep
      (λ x. x.suggestion_type == "context_source_candidate" || x.suggestion_type == "unlock_plan")
      (list_advisory_suggestions org_id workflow_id s)

unfoldable pub get_policy_candidates :
    (workflow_id org_id : String) → Suggestions → List AdvisorySuggestion
unfolding keep list_advisory_suggestions
get_policy_candidates workflow_id org_id s =
    keep (λ x. x.suggestion_type == "policy_candidate")
      (list_advisory_suggestions org_id workflow_id s)

-- the dicts of the suggestions of this type; `to_dict` writes the type under its key
unfoldable pub suggest_context_sources :
    (workflow_id org_id : String) → Suggestions → List (Dict Value)
unfolding keep list_advisory_suggestions Suggestion.to_dict
suggest_context_sources workflow_id org_id s = map Suggestion.to_dict (
    keep (λ x. x.suggestion_type == "context_source_candidate")
      (list_advisory_suggestions org_id workflow_id s))
