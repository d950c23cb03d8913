-- ===== src/Sweep/Bridge.antt =====
-- `ProofBridgeService.check_eligibility` of src/notary_platform/sweep/bridge.py: whether a
-- candidate may be promoted to proof. The theorems are in the modules below.
mod Grants
pub mod Scope
pub mod Lineage
unfoldable pub use Grants.*
use notary_platform.Prelude.{
  String, Bool, true, false, not, ◌&&◌, ◌||◌, ◌==◌, Option, none, some, List, [], ◌∷◌, ◌++◌, length,
  nat_eq, if◌then◌else◌, nonblank, nonempty, elem, keep, ◌<>◌, is_some, map,
}
use notary_platform.Records.Candidate.{AssuranceCandidate}
use notary_platform.Records.Evidence.{DecisionEvidenceRecord}
use notary_platform.Records.Run.{SweepRun}
use notary_platform.Records.Definition.{SweepDefinition}
use notary_platform.Records.Binding.{ContextBinding}
use notary_platform.Records.Resource.{DecisionEvidenceResource}
use notary_platform.Storage.{
  MemoryStorage, get_assurance_candidate, get_decision_evidence_record, get_sweep_run,
  get_sweep_definition, get_resource, get_context_binding,
}

pub record Failure : Type 0 where
  pub code : String
  pub prerequisite : String
  pub next_action : String

abbrev pub failure : (code prerequisite next_action : String) → List Failure
failure code prerequisite next_action =
    record { code = code; prerequisite = prerequisite; next_action = next_action } ∷ []

-- the object's own environment is set and is the candidate's
abbrev pub in_environment : String → AssuranceCandidate → Bool
in_environment environment_id c = nonblank environment_id && environment_id == c.environment_id

-- `get(id) if id else None`
abbrev pub lookup_if : {A : Type 0} → String → Option A → Option A
lookup_if id found = if nonblank id then found else none

unfoldable pub der_failures :
    AssuranceCandidate → String → Option DecisionEvidenceRecord → List Failure
der_failures c org_id none =
    failure "DECISION_EVIDENCE_RECORD_MISSING" "decision evidence record not found"
      "rebuild_decision_evidence_record"
der_failures c org_id (some der) =
    if not (der.org_id == org_id)
    then failure "ORGANIZATION_SCOPE_MISMATCH"
        "decision evidence record is outside the candidate organization" "correct_candidate_lineage"
    else if not (in_environment der.environment_id c)
    then failure "ENVIRONMENT_SCOPE_MISMATCH"
        "decision evidence record is outside the candidate environment" "correct_candidate_lineage"
    else []

unfoldable pub definition_failures :
    AssuranceCandidate → String → Option SweepDefinition → List Failure
definition_failures c org_id none =
    failure "SWEEP_DEFINITION_MISSING" "sweep definition not found"
      "restore_sweep_definition_lineage"
definition_failures c org_id (some definition) =
    if not (definition.org_id == org_id)
      || (not (nonblank c.environment_id)
          || (not (nonblank definition.environment_id)
              || not (c.environment_id == definition.environment_id)))
    then failure "ENVIRONMENT_SCOPE_MISMATCH" "candidate and sweep definition scopes do not match"
        "correct_candidate_environment"
    else []

unfoldable pub run_failures :
    AssuranceCandidate → String → MemoryStorage → Option SweepRun → List Failure
unfolding definition_failures
run_failures c org_id s none =
    failure "SWEEP_RUN_MISSING" "sweep run not found" "restore_sweep_run_lineage"
run_failures c org_id s (some run) =
    if not (run.org_id == org_id)
    then failure "ORGANIZATION_SCOPE_MISMATCH" "sweep run is outside the candidate organization"
        "correct_candidate_lineage"
    else if not (in_environment run.environment_id c)
    then failure "ENVIRONMENT_SCOPE_MISMATCH" "sweep run is outside the candidate environment"
        "correct_candidate_lineage"
    else definition_failures c org_id (get_sweep_definition run.definition_id s)

unfoldable pub level_failures : AssuranceCandidate → List Failure
unfolding elem
level_failures c =
    if not (elem c.evidence_level ("E3" ∷ "E4" ∷ []))
    then failure "EVIDENCE_LEVEL_INSUFFICIENT"
        ("evidence level "
          <> (if nonblank c.evidence_level then c.evidence_level else "E0")
          <> " is below E3")
        (if elem c.evidence_level ("E1" ∷ "E2" ∷ [])
          then "enrich_evidence_to_E3"
          else "instrument_next_occurrence")
    else []

-- list(dict.fromkeys(xs)): the first occurrence of each text
unfoldable pub unique_from : List String → List String → List String
unique_from seen [] = []
unique_from seen (x ∷ xs) =
    let fresh = x ∷ unique_from (x ∷ seen) xs in
    let old = unique_from seen xs in if elem x seen then old else fresh

abbrev pub source_ids : Option DecisionEvidenceRecord → List String
source_ids none = []
source_ids (some der) = der.source_resource_ids

unfoldable pub supporting_resource_ids :
    AssuranceCandidate → Option DecisionEvidenceRecord → List String
unfolding unique_from elem
supporting_resource_ids c der = unique_from [] (c.supporting_resource_ids ++ source_ids der)

unfoldable pub resource_failure :
    AssuranceCandidate → String → Option DecisionEvidenceResource → List Failure
resource_failure c id none =
    failure "SUPPORTING_RESOURCE_MISSING" ("supporting resource not found: " <> id)
      "restore_or_reingest_supporting_resource"
resource_failure c id (some resource) =
    if not (in_environment resource.environment_id c)
    then failure "ENVIRONMENT_SCOPE_MISMATCH"
        ("supporting resource is outside the candidate environment: " <> id)
        "correct_candidate_lineage"
    else []

unfoldable pub each_resource_failures :
    AssuranceCandidate → String → MemoryStorage → List String → List Failure
unfolding resource_failure
each_resource_failures c org_id s [] = []
each_resource_failures c org_id s (id ∷ ids) =
    resource_failure c id (get_resource id org_id s) ++ each_resource_failures c org_id s ids

unfoldable pub resource_failures :
    AssuranceCandidate → String → MemoryStorage → List String → List Failure
unfolding each_resource_failures
resource_failures c org_id s ids =
    if not (nonempty ids)
    then failure "SUPPORTING_EVIDENCE_MISSING" "no supporting evidence resources are linked"
        "attach_supporting_evidence"
    else each_resource_failures c org_id s ids

unfoldable pub binding_failure :
    AssuranceCandidate → (org_id id : String) → Option ContextBinding → List Failure
binding_failure c org_id id none =
    failure "ENVIRONMENT_SCOPE_MISMATCH"
      ("context binding is outside the candidate environment: " <> id) "correct_context_binding"
binding_failure c org_id id (some binding) =
    if not (binding.org_id == org_id) || not (in_environment binding.environment_id c)
    then failure "ENVIRONMENT_SCOPE_MISMATCH"
        ("context binding is outside the candidate environment: " <> id) "correct_context_binding"
    else []

unfoldable pub each_binding_failures :
    AssuranceCandidate → String → MemoryStorage → List String → List Failure
unfolding binding_failure
each_binding_failures c org_id s [] = []
each_binding_failures c org_id s (id ∷ ids) =
    binding_failure c org_id id (get_context_binding id s) ++ each_binding_failures c org_id s ids

abbrev pub binding_ids : Option DecisionEvidenceRecord → List String
binding_ids none = []
binding_ids (some der) = der.context_binding_ids

abbrev pub authority_failures : Option Authority → List Failure
authority_failures none =
    failure "PROMOTION_AUTHORITY_MISSING"
      "active approved review decision or matching deterministic delegation required"
      "record_approval_or_create_delegation"
authority_failures (some authority) = []

pub record Eligibility : Type 0 where
  pub eligible : Bool
  pub error_code : Option String
  pub reason : String
  pub next_actions : List String
  pub prerequisites : List String
  pub failures : List Failure
  pub evidence_level : Option String
  pub lifecycle_state : Option String
  pub authority : Option Authority

abbrev pub blocked : (code prerequisite next_action : String) → Eligibility
blocked code prerequisite next_action = record {
  eligible = false;
  error_code = some code;
  reason = prerequisite;
  next_actions = next_action ∷ [];
  prerequisites = prerequisite ∷ [];
  failures = failure code prerequisite next_action;
  evidence_level = none;
  lifecycle_state = none;
  authority = none;
}

abbrev pub error_code_of : List Failure → Option String
error_code_of (f ∷ []) = some f.code
error_code_of _ = some "PROOF_PREREQUISITES_MISSING"

abbrev pub conclude : AssuranceCandidate → List Failure → Option Authority → Eligibility
conclude c failures authority = record {
  eligible = not (nonempty failures);
  error_code = if nonempty failures then error_code_of failures else none;
  reason = if nonempty failures then "missing proof prerequisites" else "";
  next_actions = unique_from [] (map (λ f. f.next_action) failures);
  prerequisites = map (λ f. f.prerequisite) failures;
  failures = failures;
  evidence_level = some c.evidence_level;
  lifecycle_state = some c.lifecycle_state;
  authority = if nonempty failures then none else authority;
}

-- the failures of a candidate of the organization, in the order in which they are found
unfoldable pub all_failures : Clock → AssuranceCandidate → String → MemoryStorage → List Failure
unfolding der_failures run_failures level_failures resource_failures supporting_resource_ids
    each_binding_failures resolve_authority
all_failures clock c org_id s =
    let der = lookup_if c.der_id (get_decision_evidence_record c.der_id s) in
    der_failures c org_id der
    ++ (run_failures c org_id s (lookup_if c.sweep_run_id (get_sweep_run c.sweep_run_id s))
        ++ (level_failures c
            ++ (resource_failures c org_id s (supporting_resource_ids c der)
                ++ (each_binding_failures c org_id s (binding_ids der)
                    ++ authority_failures (resolve_authority clock c org_id s)))))

abbrev pub eligibility_found :
    Clock → String → MemoryStorage → Option AssuranceCandidate → Eligibility
eligibility_found clock org_id s none =
    blocked "CANDIDATE_NOT_FOUND" "candidate not found" "verify_candidate_id"
eligibility_found clock org_id s (some c) =
    if not (c.org_id == org_id)
    then blocked "CANDIDATE_NOT_FOUND" "candidate not found" "verify_candidate_id"
    else conclude c (all_failures clock c org_id s) (resolve_authority clock c org_id s)

-- What `check_eligibility` returns where `eligibility_raises` does not hold.
unfoldable pub check_eligibility :
    Clock → (candidate_id org_id : String) → MemoryStorage → Eligibility
check_eligibility clock candidate_id org_id s =
    eligibility_found clock org_id s (get_assurance_candidate candidate_id s)

abbrev pub found_raises : Clock → String → MemoryStorage → Option AssuranceCandidate → Bool
found_raises clock org_id s none = false
found_raises clock org_id s (some c) = c.org_id == org_id && authority_raises clock c org_id s

-- `check_eligibility` raises, where it asks for the authority
unfoldable pub eligibility_raises : Clock → (candidate_id org_id : String) → MemoryStorage → Bool
unfolding authority_raises get_assurance_candidate
eligibility_raises clock candidate_id org_id s =
    found_raises clock org_id s (get_assurance_candidate candidate_id s)
