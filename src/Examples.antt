-- ===== src/Examples.antt =====
-- One organization's data for the examples: a record, its run, its candidate and its review.
pub mod Sweeps
pub mod Bridges
pub mod Replays
pub mod Services
pub mod Ingests
pub mod Contexts
pub mod Gates
pub mod Seals
pub mod Promotions
pub mod Loops
use notary_platform.Prelude.{ℕ, String, true, Option, none, some, [], ◌∷◌, show, ◌<>◌, leb}
use notary_platform.Value.{Draw, null, num, end, field, text}
use notary_platform.Records.Contract
use notary_platform.Records.Contract.{EvaluatorContractRecord}
use notary_platform.Records.Definition
use notary_platform.Records.Definition.{SweepDefinition}
use notary_platform.Records.Run
use notary_platform.Records.Run.{SweepRun}
use notary_platform.Records.Assessment
use notary_platform.Records.Assessment.{AssessmentRecord}
use notary_platform.Records.Candidate
use notary_platform.Records.Candidate.{AssuranceCandidate}
use notary_platform.Records.Review
use notary_platform.Records.Review.{ReviewDecision}
use notary_platform.Records.Delegation
use notary_platform.Records.Delegation.{PromotionDelegation}
use notary_platform.Records.Resource.{DecisionEvidenceResource}
use notary_platform.Records.Evidence
use notary_platform.Records.Evidence.{DecisionEvidenceRecord}
use notary_platform.Storage.{MemoryStorage, no_storage}
use notary_platform.Sweep.Evidence.{FrozenDecisionEvidenceRecord, ResolvedContext}
use notary_platform.Sweep.Bridge.{Clock}

-- the k-th draw of an id and a time
abbrev pub draws : ℕ → Draw
draws k = record { hex = "draw" <> show k; now = "2026-01-01T00:00:00+00:00" }

abbrev pub contract : EvaluatorContractRecord
contract = record Contract.blank {
  id = "ec-1";
  org_id = "org-1";
  required_prerequisites = "context_bindings" ∷ "source_resources" ∷ [];
  created_at = "t0";
}

abbrev pub definition : SweepDefinition
definition = record Definition.blank {
  id = "sd-1";
  org_id = "org-1";
  environment_id = "env-1";
  evaluator_ids = "ec-1" ∷ "ec-2" ∷ [];
  created_at = "t0";
}

abbrev pub sweep_run : SweepRun
sweep_run = record Run.blank {
  id = "sr-1";
  org_id = "org-1";
  environment_id = "env-1";
  definition_id = "sd-1";
  status = "profiling";
  created_at = "t0";
}

abbrev pub evidence : DecisionEvidenceRecord
evidence = record Evidence.blank {
  id = "der-1";
  org_id = "org-1";
  environment_id = "env-1";
  decision_identity = "loan-7";
  source_resource_ids = "res-1" ∷ [];
  context_binding_ids = "cb-1" ∷ [];
  resolution_trace_id = "rt-1";
  created_at = "t0";
}

abbrev pub frozen : FrozenDecisionEvidenceRecord
frozen = record {
  id = "der-1";
  org_id = "org-1";
  decision_identity = "loan-7";
  identity_method = "exact";
  source_resource_ids = "res-1" ∷ [];
  context_binding_ids = "cb-1" ∷ [];
  link_assertion_ids = [];
  resolution_trace_id = "rt-1";
  enriched = true;
  version = 1;
  created_at = "t0";
}

abbrev pub resolved : ResolvedContext
resolved = record {
  binding_ids = "cb-1" ∷ [];
  included_artifacts = "policy-3" ∷ [];
  excluded_artifacts = [];
  superseded_bindings = [];
  conflicted_bindings = [];
  missing_artifacts = [];
  stale_artifacts = [];
  redacted_artifacts = [];
  reasons = field "authoritative_context" (text "registry") end;
}

abbrev pub conflicted : ResolvedContext
conflicted = record resolved { conflicted_bindings = "cb-2" ∷ [] }

abbrev pub assessment : AssessmentRecord
assessment = record Assessment.blank {
  id = "as-1";
  org_id = "org-1";
  der_id = "der-1";
  finding_type = "replayability_failure";
  created_at = "t0";
}

abbrev pub supporting : DecisionEvidenceResource
supporting = record {
  resource_id = "res-1";
  org_id = "org-1";
  envelope_id = "env-7";
  resource_type = "log";
  provider_id = "p-1";
  digest_algorithm = "sha256";
  digest_value = "00";
  payload_ref = "ref-1";
  environment_id = "env-1";
  provenance_collected_at = "t0";
  provenance_source_ref = "src-1";
  version = "1";
  created_at = "t0";
}

abbrev pub candidate : AssuranceCandidate
candidate = record Candidate.blank {
  id = "ac-1";
  org_id = "org-1";
  environment_id = "env-1";
  der_id = "der-1";
  sweep_run_id = "sr-1";
  candidate_type = "replayability_failure";
  supporting_resource_ids = "res-1" ∷ [];
  evidence_level = "E3";
  lifecycle_state = "reviewable";
  created_at = "t0";
}

abbrev pub approval : ReviewDecision
approval = record Review.blank {
  id = "rd-1";
  candidate_id = "ac-1";
  org_id = "org-1";
  environment_id = "env-1";
  actor = "ada";
  role = "reviewer";
  decision = "approve_incident";
  basis = "policy 3";
  created_at = "t1";
}

abbrev pub delegated : PromotionDelegation
delegated = record Delegation.blank {
  id = "pd-1";
  org_id = "org-1";
  environment_id = "env-1";
  rule_type = "deterministic";
  active = true;
  created_at = "t0";
}

-- the storage before the review
abbrev pub unreviewed : MemoryStorage
unreviewed = record no_storage {
  evaluator_contracts = ("ec-1", contract) ∷ [];
  sweep_definitions = ("sd-1", definition) ∷ [];
  sweep_runs = ("sr-1", sweep_run) ∷ [];
  assurance_candidates = ("ac-1", candidate) ∷ [];
  promotion_delegations = ("pd-1", delegated) ∷ [];
  resources = ("res-1", supporting) ∷ [];
  decision_evidence_records = ("der-1", record evidence { context_binding_ids = [] }) ∷ [];
}

abbrev pub reviewed : MemoryStorage
reviewed = record unreviewed { review_decisions = ("rd-1", approval) ∷ [] }

-- every period in these examples is empty, so the clock's texts are not read
abbrev pub clock : Clock
clock = record { now = 5; split = λ period. none; instant = λ bound. none; characters = λ t. [] }
