-- ===== src/Storage/Collections.antt =====
-- The collections, and how an object is written, fetched and listed. `create_x` and `update_x` of
-- the source return the object they were given; here they return the new storage. An object
-- fetched from a collection is shared with it in the source, and every caller that changes one
-- writes it back under the same id.
use notary_platform.Prelude.{String, Option, none, some, List, [], ◌==◌, keep, if◌then◌else◌}
use notary_platform.Dict.{Dict, get, put, values}
use notary_platform.Value.{Fields}
use notary_platform.Records.Contract.{EvaluatorContractRecord}
use notary_platform.Records.Definition.{SweepDefinition}
use notary_platform.Records.Run.{SweepRun}
use notary_platform.Records.Job.{SweepJob}
use notary_platform.Records.Assessment.{AssessmentRecord}
use notary_platform.Records.Candidate.{AssuranceCandidate}
use notary_platform.Records.Review.{ReviewDecision}
use notary_platform.Records.Suppression.{SuppressionRule}
use notary_platform.Records.Delegation.{PromotionDelegation}
use notary_platform.Records.Resource.{DecisionEvidenceResource}
use notary_platform.Records.Integrity.{IntegrityConflict}
use notary_platform.Records.Link.{LinkAssertion}
use notary_platform.Records.Binding.{ContextBinding}
use notary_platform.Records.Conflict.{ContextConflict}
use notary_platform.Records.Trace.{ResolutionTrace}
use notary_platform.Records.Evidence.{DecisionEvidenceRecord}

pub record MemoryStorage : Type 0 where
  pub evaluator_contracts : Dict EvaluatorContractRecord
  pub sweep_definitions : Dict SweepDefinition
  pub sweep_runs : Dict SweepRun
  pub sweep_jobs : Dict SweepJob
  pub assessments : Dict AssessmentRecord
  pub assurance_candidates : Dict AssuranceCandidate
  pub review_decisions : Dict ReviewDecision
  pub suppression_rules : Dict SuppressionRule
  pub promotion_delegations : Dict PromotionDelegation
  pub resources : Dict DecisionEvidenceResource
  pub integrity_conflicts : Dict IntegrityConflict
  pub link_assertions : Dict LinkAssertion
  pub context_bindings : Dict ContextBinding
  pub context_conflicts : Dict ContextConflict
  pub resolution_traces : Dict ResolutionTrace
  pub decision_evidence_records : Dict DecisionEvidenceRecord
  pub payloads : Dict Fields

abbrev pub no_storage : MemoryStorage
no_storage = record {
  evaluator_contracts = [];
  sweep_definitions = [];
  sweep_runs = [];
  sweep_jobs = [];
  assessments = [];
  assurance_candidates = [];
  review_decisions = [];
  suppression_rules = [];
  promotion_delegations = [];
  resources = [];
  integrity_conflicts = [];
  link_assertions = [];
  context_bindings = [];
  context_conflicts = [];
  resolution_traces = [];
  decision_evidence_records = [];
  payloads = [];
}

-- a resource of another organization is not returned
unfoldable pub owned_by : String → Option DecisionEvidenceResource → Option DecisionEvidenceResource
owned_by org_id none = none
owned_by org_id (some r) = if r.org_id == org_id then some r else none

unfoldable pub create_evaluator_contract : EvaluatorContractRecord → MemoryStorage → MemoryStorage
unfolding put
create_evaluator_contract x s = record s { evaluator_contracts = put x.id x s.evaluator_contracts }

unfoldable pub get_evaluator_contract : String → MemoryStorage → Option EvaluatorContractRecord
unfolding get
get_evaluator_contract key s = get key s.evaluator_contracts

unfoldable pub list_evaluator_contracts : String → MemoryStorage → List EvaluatorContractRecord
unfolding keep values
list_evaluator_contracts org_id s = keep (λ x. x.org_id == org_id) (values s.evaluator_contracts)

unfoldable pub create_sweep_definition : SweepDefinition → MemoryStorage → MemoryStorage
unfolding put
create_sweep_definition x s = record s { sweep_definitions = put x.id x s.sweep_definitions }

unfoldable pub update_sweep_definition : SweepDefinition → MemoryStorage → MemoryStorage
unfolding put
update_sweep_definition x s = record s { sweep_definitions = put x.id x s.sweep_definitions }

unfoldable pub get_sweep_definition : String → MemoryStorage → Option SweepDefinition
unfolding get
get_sweep_definition key s = get key s.sweep_definitions

unfoldable pub list_sweep_definitions : String → MemoryStorage → List SweepDefinition
unfolding keep values
list_sweep_definitions org_id s = keep (λ x. x.org_id == org_id) (values s.sweep_definitions)

unfoldable pub create_sweep_run : SweepRun → MemoryStorage → MemoryStorage
unfolding put
create_sweep_run x s = record s { sweep_runs = put x.id x s.sweep_runs }

unfoldable pub update_sweep_run : SweepRun → MemoryStorage → MemoryStorage
unfolding put
update_sweep_run x s = record s { sweep_runs = put x.id x s.sweep_runs }

unfoldable pub get_sweep_run : String → MemoryStorage → Option SweepRun
unfolding get
get_sweep_run key s = get key s.sweep_runs

unfoldable pub list_sweep_runs : String → MemoryStorage → List SweepRun
unfolding keep values
list_sweep_runs org_id s = keep (λ x. x.org_id == org_id) (values s.sweep_runs)

unfoldable pub create_sweep_job : SweepJob → MemoryStorage → MemoryStorage
unfolding put
create_sweep_job x s = record s { sweep_jobs = put x.id x s.sweep_jobs }

unfoldable pub update_sweep_job : SweepJob → MemoryStorage → MemoryStorage
unfolding put
update_sweep_job x s = record s { sweep_jobs = put x.id x s.sweep_jobs }

unfoldable pub get_sweep_job : String → MemoryStorage → Option SweepJob
unfolding get
get_sweep_job key s = get key s.sweep_jobs

unfoldable pub list_sweep_jobs : String → MemoryStorage → List SweepJob
unfolding keep values
list_sweep_jobs run_id s = keep (λ x. x.run_id == run_id) (values s.sweep_jobs)

unfoldable pub create_assessment : AssessmentRecord → MemoryStorage → MemoryStorage
unfolding put
create_assessment x s = record s { assessments = put x.id x s.assessments }

unfoldable pub get_assessment : String → MemoryStorage → Option AssessmentRecord
unfolding get
get_assessment key s = get key s.assessments

unfoldable pub list_assessments : String → MemoryStorage → List AssessmentRecord
unfolding keep values
list_assessments run_id s = keep (λ x. x.run_id == run_id) (values s.assessments)

unfoldable pub create_assurance_candidate : AssuranceCandidate → MemoryStorage → MemoryStorage
unfolding put
create_assurance_candidate x s = record s {
  assurance_candidates = put x.id x s.assurance_candidates;
}

unfoldable pub update_assurance_candidate : AssuranceCandidate → MemoryStorage → MemoryStorage
unfolding put
update_assurance_candidate x s = record s {
  assurance_candidates = put x.id x s.assurance_candidates;
}

unfoldable pub get_assurance_candidate : String → MemoryStorage → Option AssuranceCandidate
unfolding get
get_assurance_candidate key s = get key s.assurance_candidates

unfoldable pub list_assurance_candidates : String → MemoryStorage → List AssuranceCandidate
unfolding keep values
list_assurance_candidates org_id s = keep (λ x. x.org_id == org_id) (values s.assurance_candidates)

unfoldable pub create_review_decision : ReviewDecision → MemoryStorage → MemoryStorage
unfolding put
create_review_decision x s = record s { review_decisions = put x.id x s.review_decisions }

unfoldable pub create_suppression_rule : SuppressionRule → MemoryStorage → MemoryStorage
unfolding put
create_suppression_rule x s = record s { suppression_rules = put x.id x s.suppression_rules }

unfoldable pub create_promotion_delegation : PromotionDelegation → MemoryStorage → MemoryStorage
unfolding put
create_promotion_delegation x s = record s {
  promotion_delegations = put x.id x s.promotion_delegations;
}

unfoldable pub create_resource : DecisionEvidenceResource → MemoryStorage → MemoryStorage
unfolding put
create_resource x s = record s { resources = put x.resource_id x s.resources }

unfoldable pub get_resource : String → String → MemoryStorage → Option DecisionEvidenceResource
unfolding get
get_resource resource_id org_id s = owned_by org_id (get resource_id s.resources)

unfoldable pub list_resources : String → MemoryStorage → List DecisionEvidenceResource
unfolding keep values
list_resources org_id s = keep (λ x. x.org_id == org_id) (values s.resources)

unfoldable pub create_integrity_conflict : IntegrityConflict → MemoryStorage → MemoryStorage
unfolding put
create_integrity_conflict x s = record s {
  integrity_conflicts = put x.conflict_id x s.integrity_conflicts;
}

unfoldable pub list_integrity_conflicts : String → MemoryStorage → List IntegrityConflict
unfolding keep values
list_integrity_conflicts org_id s = keep (λ x. x.org_id == org_id) (values s.integrity_conflicts)

unfoldable pub create_link_assertion : LinkAssertion → MemoryStorage → MemoryStorage
unfolding put
create_link_assertion x s = record s { link_assertions = put x.id x s.link_assertions }

unfoldable pub update_link_assertion : LinkAssertion → MemoryStorage → MemoryStorage
unfolding put
update_link_assertion x s = record s { link_assertions = put x.id x s.link_assertions }

unfoldable pub get_link_assertion : String → MemoryStorage → Option LinkAssertion
unfolding get
get_link_assertion key s = get key s.link_assertions

unfoldable pub list_link_assertions : String → MemoryStorage → List LinkAssertion
unfolding keep values
list_link_assertions org_id s = keep (λ x. x.org_id == org_id) (values s.link_assertions)

unfoldable pub create_context_binding : ContextBinding → MemoryStorage → MemoryStorage
unfolding put
create_context_binding x s = record s { context_bindings = put x.id x s.context_bindings }

unfoldable pub get_context_binding : String → MemoryStorage → Option ContextBinding
unfolding get
get_context_binding key s = get key s.context_bindings

unfoldable pub list_context_bindings : String → MemoryStorage → List ContextBinding
unfolding keep values
list_context_bindings org_id s = keep (λ x. x.org_id == org_id) (values s.context_bindings)

unfoldable pub create_context_conflict : ContextConflict → MemoryStorage → MemoryStorage
unfolding put
create_context_conflict x s = record s { context_conflicts = put x.id x s.context_conflicts }

unfoldable pub update_context_conflict : ContextConflict → MemoryStorage → MemoryStorage
unfolding put
update_context_conflict x s = record s { context_conflicts = put x.id x s.context_conflicts }

unfoldable pub get_context_conflict : String → MemoryStorage → Option ContextConflict
unfolding get
get_context_conflict key s = get key s.context_conflicts

unfoldable pub list_context_conflicts : String → MemoryStorage → List ContextConflict
unfolding keep values
list_context_conflicts org_id s = keep (λ x. x.org_id == org_id) (values s.context_conflicts)

unfoldable pub create_resolution_trace : ResolutionTrace → MemoryStorage → MemoryStorage
unfolding put
create_resolution_trace x s = record s { resolution_traces = put x.id x s.resolution_traces }

unfoldable pub get_resolution_trace : String → MemoryStorage → Option ResolutionTrace
unfolding get
get_resolution_trace key s = get key s.resolution_traces

unfoldable pub create_decision_evidence_record :
    DecisionEvidenceRecord → MemoryStorage → MemoryStorage
unfolding put
create_decision_evidence_record x s = record s {
  decision_evidence_records = put x.id x s.decision_evidence_records;
}

unfoldable pub get_decision_evidence_record : String → MemoryStorage → Option DecisionEvidenceRecord
unfolding get
get_decision_evidence_record key s = get key s.decision_evidence_records

unfoldable pub list_decision_evidence_records : String → MemoryStorage → List DecisionEvidenceRecord
unfolding keep values
list_decision_evidence_records org_id s =
    keep (λ x. x.org_id == org_id) (values s.decision_evidence_records)
