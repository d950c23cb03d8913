-- ===== src/Sweep/Promotion/Bundle.antt =====
-- The keys and the sealed bundle of src/notary_platform/sweep/bridge.py: `_bridge_key`,
-- `_recalculate_evidence_level`, `_freeze_evidence_bundle` and `_verify_bundle_digest`.
use notary_platform.Prelude.{
  String, Bool, ◌&&◌, ◌||◌, ◌==◌, Option, none, some, List, [], ◌∷◌, any, keep, if◌then◌else◌, ◌<>◌,
  nonblank,
}
use Prim.Native.String.{slice}
use notary_platform.Records.Candidate.{AssuranceCandidate}
use notary_platform.Records.Evidence.{DecisionEvidenceRecord}
use notary_platform.Records.Resource.{DecisionEvidenceResource}
use notary_platform.Records.Binding
use notary_platform.Records.Binding.{ContextBinding}
use notary_platform.Records.Assessment
use notary_platform.Records.Assessment.{AssessmentRecord}
use notary_platform.Storage.{
  MemoryStorage, get_resource, get_context_binding, get_assessment, get_assurance_candidate,
}
use notary_platform.Sweep.Sufficiency.{recalculate_after_verification}
use notary_platform.Sweep.Bridge.{Authority, supporting_resource_ids}
use notary_platform.Sweep.Promotion.{
  BridgedRecord, Subject, ContextDigest, EvaluatorStep, Manifest, EvidenceBundle, BridgeStorage,
  BridgeTexts, list_vrs_by_bridge_key, linked_runs, linked_tests,
}

unfoldable pub bridge_key_of : BridgeTexts → AssuranceCandidate → String
bridge_key_of t c = "bridge-" <> t.sha256 (c.org_id <> "|" <> c.environment_id <> "|" <> c.id)

unfoldable pub verification_record_id : BridgeTexts → String → String
verification_record_id t key = "vr-bridge-" <> slice (t.sha256 key) 0 24

unfoldable pub incident_id_of : BridgeTexts → String → String
incident_id_of t key = "inc-bridge-" <> slice (t.sha256 key) 0 24

unfoldable pub normalise_digest_algorithm : BridgeTexts → String → String
normalise_digest_algorithm t algorithm =
    let normalised = t.dashed (t.lower algorithm) in
    if normalised == "sha256"
    then "sha-256"
    else if normalised == "sha384"
    then "sha-384"
    else if normalised == "sha512"
    then "sha-512"
    else normalised

-- the organization has a run of the record that was replayed
abbrev pub has_replay : String → BridgeStorage → BridgedRecord → Bool
has_replay org_id s vr =
    any (λ r. r.status == "replayed" || r.status == "completed")
      (keep (λ r. r.org_id == org_id) (linked_runs vr.assessed.id s))

abbrev pub has_verified_test : String → BridgeStorage → BridgedRecord → Bool
has_verified_test org_id s vr =
    any (λ m. m.verdict == "verified")
      (keep (λ m. m.org_id == org_id) (linked_tests vr.assessed.id s))

abbrev pub level_for :
    (org_id bridge_key : String) → BridgeStorage → Option AssuranceCandidate → String
level_for org_id bridge_key s none = ""
level_for org_id bridge_key s (some c) =
    recalculate_after_verification c.evidence_level
      (any (has_replay org_id s) (list_vrs_by_bridge_key bridge_key org_id s))
      (any (has_verified_test org_id s) (list_vrs_by_bridge_key bridge_key org_id s))

unfoldable pub recalculate_evidence_level :
    (candidate_id org_id bridge_key : String) → BridgeStorage → String
unfolding any keep linked_runs linked_tests list_vrs_by_bridge_key get_assurance_candidate
recalculate_evidence_level candidate_id org_id bridge_key s =
    level_for org_id bridge_key s (get_assurance_candidate candidate_id s.sweep)

abbrev pub subject_of : BridgeTexts → Option DecisionEvidenceResource → List Subject → List Subject
subject_of t none rest = rest
subject_of t (some r) rest =
    record {
      resource_ref = r.resource_id;
      algorithm = normalise_digest_algorithm t r.digest_algorithm;
      value = r.digest_value;
    }
    ∷ rest

unfoldable pub subjects_from : BridgeTexts → String → MemoryStorage → List String → List Subject
unfolding normalise_digest_algorithm get_resource
subjects_from t org_id s [] = []
subjects_from t org_id s (id ∷ ids) =
    subject_of t (get_resource id org_id s) (subjects_from t org_id s ids)

abbrev pub digest_of_binding :
    BridgeTexts
    → AssuranceCandidate
    → Option ContextBinding
    → List ContextDigest
    → List ContextDigest
digest_of_binding t c none rest = rest
digest_of_binding t c (some b) rest =
    if b.org_id == c.org_id && b.environment_id == c.environment_id
    then record { binding_id = b.id; digest = t.digest_fields (Binding.to_dict b) } ∷ rest
    else rest

unfoldable pub context_from :
    BridgeTexts → AssuranceCandidate → MemoryStorage → List String → List ContextDigest
unfolding get_context_binding Binding.to_dict
context_from t c s [] = []
context_from t c s (id ∷ ids) =
    digest_of_binding t c (get_context_binding id s) (context_from t c s ids)

abbrev pub step_of :
    BridgeTexts
    → AssuranceCandidate
    → Option AssessmentRecord
    → List EvaluatorStep
    → List EvaluatorStep
step_of t c none rest = rest
step_of t c (some a) rest =
    if a.org_id == c.org_id
    then record {
      assessment_id = a.id;
      evaluator_id = a.evaluator_id;
      evaluator_version = a.evaluator_version;
      digest = t.digest_fields (Assessment.to_dict a);
    }
      ∷ rest
    else rest

unfoldable pub evaluators_from :
    BridgeTexts → AssuranceCandidate → MemoryStorage → List String → List EvaluatorStep
unfolding get_assessment Assessment.to_dict
evaluators_from t c s [] = []
evaluators_from t c s (id ∷ ids) = step_of t c (get_assessment id s) (evaluators_from t c s ids)

abbrev pub created_of : BridgeTexts → AssuranceCandidate → String
created_of t c = if nonblank c.created_at then c.created_at else t.now

unfoldable pub manifest_of :
    BridgeTexts
    → AssuranceCandidate
    → DecisionEvidenceRecord
    → (bridge_key : String) → Authority
    → (evidence_level : String) → MemoryStorage
    → Manifest
unfolding subjects_from context_from evaluators_from supporting_resource_ids
manifest_of t c der bridge_key authority evidence_level s = record {
  bridge_key = bridge_key;
  org_id = c.org_id;
  environment_id = c.environment_id;
  candidate_id = c.id;
  candidate_type = c.candidate_type;
  der_id = c.der_id;
  sweep_run_id = c.sweep_run_id;
  evidence_level = evidence_level;
  expected_outcome = c.expected_outcome;
  actual_outcome = c.actual_outcome;
  resolution_trace_id = der.resolution_trace_id;
  subjects = subjects_from t c.org_id s (supporting_resource_ids c (some der));
  context = context_from t c s der.context_binding_ids;
  evaluator_lineage = evaluators_from t c s c.assessment_ids;
  known_limitations = c.missing_prerequisites;
  authority = authority;
  sealed_at = created_of t c;
}

unfoldable pub bundle_of : BridgeTexts → AssuranceCandidate → Manifest → EvidenceBundle
bundle_of t c manifest = record {
  id = "urn:notary:evidence-bundle:" <> t.digest_manifest manifest;
  org_id = c.org_id;
  environment_id = c.environment_id;
  kind = "org.dep.evidence-bundle";
  subject_ref = "urn:notary:assurance-candidate:" <> c.id;
  created_at = created_of t c;
  provider_id = "urn:notary:proof-bridge";
  manifest_digest = t.digest_manifest manifest;
  subjects = manifest.subjects;
  declared_omissions = c.missing_prerequisites;
  sealed_by = manifest.authority;
  sealed_at = created_of t c;
  derived_from = "urn:notary:decision-evidence-record:" <> c.der_id;
  manifest = manifest;
}

unfoldable pub freeze_evidence_bundle :
    BridgeTexts
    → AssuranceCandidate
    → DecisionEvidenceRecord
    → (bridge_key : String) → Authority
    → (evidence_level : String) → MemoryStorage
    → EvidenceBundle
unfolding bundle_of manifest_of
freeze_evidence_bundle t c der bridge_key authority evidence_level s =
    bundle_of t c (manifest_of t c der bridge_key authority evidence_level s)

-- the digest of the manifest is the one that the bundle states
unfoldable pub verify_bundle_digest : BridgeTexts → EvidenceBundle → Bool
verify_bundle_digest t b = t.digest_manifest b.manifest == b.manifest_digest
