-- ===== src/Sweep/Promotion.antt =====
-- What `ProofBridgeService.promote` of src/notary_platform/sweep/bridge.py reads and writes: the
-- verification record of a candidate, its incident, the sealed bundle, and the collections of
-- `MemoryStorage` that hold them. The operations and the theorems are in the modules below.
pub mod Bundle
pub mod Incidents
pub mod Promote
pub mod Again
pub mod Origin
pub mod Sealed
pub mod Guarded
pub mod Total
use notary_platform.Prelude.{
  ℕ, String, Bool, ◌&&◌, ◌==◌, Option, some, none, List, [], ◌∷◌, keep, nat_eq,
}
use notary_platform.Dict.{Dict, get, put, values}
use notary_platform.Value.{Value, Fields}
use notary_platform.Records.Candidate.{AssuranceCandidate}
use notary_platform.Storage.{MemoryStorage}
use notary_platform.Services.Replayability.{
  KnownLimitation, VerificationRecord, ReplayabilityStatus,
}
use notary_platform.Sweep.Bridge.{Authority}

-- `assessed` holds the id, the events and what the replayability service writes; `decision_text`
-- is the text of the first decision among the events.
pub record BridgedRecord : Type 0 where
  pub assessed : VerificationRecord
  pub org_id : String
  pub environment_id : String
  pub source_system_id : String
  pub source_record_ref : String
  pub agent_id : String
  pub business_function : String
  pub decision_text : String
  pub root_hash : String
  pub expected_outcome : String
  pub label_source : String
  pub promoted_to_incident : String
  pub bridge_key : String
  pub processing_path : String
  pub replayability_reason : String
  pub missing_prerequisites : List String
  pub computed_replayability : ReplayabilityStatus
  pub is_demo : Bool
  pub created_at : String

pub record Subject : Type 0 where
  pub resource_ref : String
  pub algorithm : String
  pub value : String

pub record ContextDigest : Type 0 where
  pub binding_id : String
  pub digest : String

pub record EvaluatorStep : Type 0 where
  pub assessment_id : String
  pub evaluator_id : String
  pub evaluator_version : String
  pub digest : String

-- the dict that is sealed
pub record Manifest : Type 0 where
  pub bridge_key : String
  pub org_id : String
  pub environment_id : String
  pub candidate_id : String
  pub candidate_type : String
  pub der_id : String
  pub sweep_run_id : String
  pub evidence_level : String
  pub expected_outcome : String
  pub actual_outcome : String
  pub resolution_trace_id : String
  pub subjects : List Subject
  pub context : List ContextDigest
  pub evaluator_lineage : List EvaluatorStep
  pub known_limitations : List String
  pub authority : Authority
  pub sealed_at : String

-- `EvidenceBundle`, whose digest algorithm is always "sha-256"
pub record EvidenceBundle : Type 0 where
  pub id : String
  pub org_id : String
  pub environment_id : String
  pub kind : String
  pub subject_ref : String
  pub created_at : String
  pub provider_id : String
  pub manifest_digest : String
  pub subjects : List Subject
  pub declared_omissions : List String
  pub sealed_by : Authority
  pub sealed_at : String
  pub derived_from : String
  pub manifest : Manifest

-- `snapshot_summary["proof_bridge_lineage"]`
pub record BridgeLineage : Type 0 where
  pub candidate_id : String
  pub der_id : String
  pub sweep_run_id : String
  pub review_decision_id : String
  pub promotion_delegation_id : String
  pub evidence_bundle_ref : String
  pub supporting_resource_digests : List Subject
  pub resolution_trace_id : String

pub record CustodyEvent : Type 0 where
  pub event_id : String
  pub action : String
  pub actor : String
  pub detail : String
  pub timestamp : String

pub record RunResult : Type 0 where
  pub decision : String
  pub replay_status : String
  pub replay_run_id : String
  pub original_decision : String

pub record MutationResult : Type 0 where
  pub original_decision : String
  pub mutated_decision : String
  pub decision_changed : Bool
  pub mitigated : Bool
  pub fix_config : Fields
  pub expected_correct_behavior : String
  pub mutation_test_id : String

-- an incident with the parts of its snapshot's summary; a result is none while it is empty
pub record Incident : Type 0 where
  pub incident_id : String
  pub org_id : String
  pub status : String
  pub schema_version : ℕ
  pub timestamp : String
  pub element_count : ℕ
  pub root_hash : String
  pub lineage : Option BridgeLineage
  pub replay_result : Option RunResult
  pub mutation_result : Option MutationResult
  pub custody : List CustodyEvent

-- a snapshot of one decision, as the bridge hands it in and as it is taken from the record
pub record DecisionSnapshot : Type 0 where
  pub timestamp : String
  pub decision_text : String
  pub root_hash : String

pub data Evidence : Type 0 where
  bundle : EvidenceBundle → Evidence
  snapshot : DecisionSnapshot → Evidence

pub record LinkedRun : Type 0 where
  pub id : String
  pub org_id : String
  pub verification_record_id : String
  pub incident_id : String
  pub status : String
  pub replay_method : String
  pub original_decision : String
  pub replayed_decision : String
  pub missing_calls : List String
  pub known_limitations : List KnownLimitation
  pub evidence_refs : List String

pub record LinkedTest : Type 0 where
  pub id : String
  pub org_id : String
  pub verification_record_id : String
  pub incident_id : String
  pub replay_run_id : String
  pub fix_config : Fields
  pub fix_agent_id : String
  pub expected_outcome : String
  pub label_id : String
  pub original_decision : String
  pub mutated_decision : String
  pub decision_changed : Bool
  pub verdict : String
  pub replay_method : String
  pub known_limitations : List KnownLimitation
  pub evidence_refs : List String

-- what an artifact holds: a snapshot with its reference to a bundle, a mutation test or a
-- replay run
pub data Payload : Type 0 where
  of_snapshot : DecisionSnapshot → (evidence_bundle_ref : String) → Payload
  of_test : LinkedTest → Payload
  of_run : LinkedRun → Payload

pub record EvidenceArtifact : Type 0 where
  pub id : String
  pub org_id : String
  pub verification_record_id : String
  pub kind : String
  pub payload : Payload

pub record BridgeStorage : Type 0 where
  pub sweep : MemoryStorage
  pub vrs : Dict BridgedRecord
  pub incidents : Dict Incident
  pub snapshots : Dict DecisionSnapshot
  pub evidence : Dict Evidence
  pub evidence_artifacts : Dict EvidenceArtifact
  pub replay_runs : Dict LinkedRun
  pub mutation_tests : Dict LinkedTest

-- `create_vr` and `update_vr`
unfoldable pub put_vr : BridgedRecord → BridgeStorage → BridgeStorage
unfolding put
put_vr vr s = record s { vrs = put vr.assessed.id vr s.vrs }

unfoldable pub list_vrs_by_bridge_key :
    (bridge_key org_id : String) → BridgeStorage → List BridgedRecord
unfolding keep values
list_vrs_by_bridge_key bridge_key org_id s =
    keep (λ vr. vr.bridge_key == bridge_key && vr.org_id == org_id) (values s.vrs)

unfoldable pub get_incident : String → BridgeStorage → Option Incident
unfolding get
get_incident incident_id s = get incident_id s.incidents

unfoldable pub update_incident : Incident → BridgeStorage → BridgeStorage
unfolding put
update_incident incident s = record s { incidents = put incident.incident_id incident s.incidents }

-- `dict["id"]` of a bundle is its reference
unfoldable pub store_evidence_bundle : EvidenceBundle → BridgeStorage → BridgeStorage
unfolding put
store_evidence_bundle b s = record s { evidence = put b.id (bundle b) s.evidence }

unfoldable pub persist_evidence : (ref : String) → DecisionSnapshot → BridgeStorage → BridgeStorage
unfolding put
persist_evidence ref payload s = record s { evidence = put ref (snapshot payload) s.evidence }

unfoldable pub create_evidence_artifact : EvidenceArtifact → BridgeStorage → BridgeStorage
unfolding put
create_evidence_artifact a s = record s { evidence_artifacts = put a.id a s.evidence_artifacts }

unfoldable pub linked_runs : String → BridgeStorage → List LinkedRun
unfolding keep values
linked_runs vr_id s = keep (λ r. r.verification_record_id == vr_id) (values s.replay_runs)

unfoldable pub linked_tests : String → BridgeStorage → List LinkedTest
unfolding keep values
linked_tests vr_id s = keep (λ t. t.verification_record_id == vr_id) (values s.mutation_tests)

-- SHA-256 in hexadecimal, of a text and of the canonical JSON of a dict; the text operations of
-- `_normalise_digest_algorithm`; the draws and the clock of one promotion; the percentage of a score
pub record BridgeTexts : Type 0 where
  pub sha256 : String → String
  pub digest_manifest : Manifest → String
  pub digest_fields : Dict Value → String
  pub lower : String → String
  pub dashed : String → String
  pub percent : ℕ → String
  pub drawn : String → String
  pub now : String
