-- ===== src/Sweep/Promotion/Incidents.antt =====
-- The record and the incident of a promotion: `_create_vr_for_candidate` and
-- `_record_incident_lineage` of src/notary_platform/sweep/bridge.py, with the operations of
-- `IngestionService` (services/services.py) and of `MemoryStorage` that they call.
use notary_platform.Prelude.{
  String, false, none, some, List, [], ◌∷◌, ◌++◌, if◌then◌else◌, ◌<>◌, nonblank,
}
use notary_platform.Dict.{put}
use notary_platform.Records.Candidate.{AssuranceCandidate}
use notary_platform.Records.Evidence.{DecisionEvidenceRecord}
use notary_platform.Services.Replayability.{VerificationRecord, unknown, decision, assess}
use notary_platform.Sweep.Bridge.{Authority, review, delegation}
use notary_platform.Sweep.Promotion.{
  BridgedRecord, Subject, EvidenceBundle, BridgeLineage, CustodyEvent, Incident, DecisionSnapshot,
  BridgeStorage, BridgeTexts, put_vr, update_incident, persist_evidence, create_evidence_artifact,
  of_snapshot,
}
use notary_platform.Sweep.Promotion.Bundle.{verification_record_id}

-- the event of the one element of the snapshot, a decision
abbrev pub unassessed : String → VerificationRecord
unassessed id = record {
  id = id;
  events =
      record {
        kind = decision;
        payload = record { temperature = none; seed = none };
        metadata = record { temperature = none; seed = none };
      }
      ∷ [];
  replayability = unknown;
  current_label_id = "";
  replayability_score = 0;
  non_deterministic_flags = [];
  defensibility_summary = "";
}

abbrev pub outcome_text : AssuranceCandidate → String
outcome_text c = if nonblank c.actual_outcome then c.actual_outcome else "UNKNOWN"

-- the record of `create_from_sdk_snapshot`, with the bridge key that is set on it
unfoldable pub bridged_record :
    BridgeTexts → AssuranceCandidate → EvidenceBundle → (bridge_key : String) → BridgedRecord
unfolding assess verification_record_id
bridged_record t c b bridge_key =
    let (found, vr) = assess t.percent (unassessed (verification_record_id t bridge_key)) in
    record {
      assessed = record vr { replayability = found.state };
      org_id = c.org_id;
      environment_id = c.environment_id;
      source_system_id = "discovery";
      source_record_ref = c.der_id;
      agent_id = c.der_id;
      business_function = c.candidate_type;
      decision_text = outcome_text c;
      root_hash = b.manifest_digest;
      expected_outcome = c.expected_outcome;
      label_source = "";
      promoted_to_incident = "";
      bridge_key = bridge_key;
      processing_path = "sweep_bridge";
      replayability_reason = found.message;
      missing_prerequisites = found.missing;
      computed_replayability = found.state;
      is_demo = false;
      created_at = t.now;
    }

-- `_create_vr_for_candidate`: the storage with the snapshot's artifact and the record
unfoldable pub create_vr_for_candidate :
    BridgeTexts
    → AssuranceCandidate
    → EvidenceBundle
    → BridgedRecord
    → BridgeStorage
    → BridgeStorage
unfolding put_vr create_evidence_artifact
create_vr_for_candidate t c b vr s = put_vr vr (
    create_evidence_artifact
      (record {
        id = "ev-" <> t.drawn "artifact";
        org_id = vr.org_id;
        verification_record_id = vr.assessed.id;
        kind = "snapshot";
        payload =
            of_snapshot
              (record {
                timestamp = c.created_at;
                decision_text = outcome_text c;
                root_hash = b.manifest_digest;
              })
              b.id;
      })
      s)

abbrev pub custody : BridgeTexts → (action actor detail : String) → CustodyEvent
custody t action actor detail = record {
  event_id = t.drawn action;
  action = action;
  actor = actor;
  detail = detail;
  timestamp = t.now;
}

abbrev pub snapshot_from_vr : BridgedRecord → DecisionSnapshot
snapshot_from_vr vr = record {
  timestamp = vr.created_at;
  decision_text = vr.decision_text;
  root_hash = vr.root_hash;
}

-- the incident of `create_incident`, with the custody event that is recorded on it
unfoldable pub incident_from_vr : BridgeTexts → BridgedRecord → (incident_id : String) → Incident
incident_from_vr t vr incident_id = record {
  incident_id = incident_id;
  org_id = vr.org_id;
  status = "ingested";
  schema_version = 1;
  timestamp = vr.created_at;
  element_count = 1;
  root_hash = vr.root_hash;
  lineage = none;
  replay_result = none;
  mutation_result = none;
  custody =
      custody t "created" "system" ("incident " <> incident_id <> " created")
      ∷ custody t "ingested" "ingestion_service" ("from vr " <> vr.assessed.id)
      ∷ [];
}

-- `IngestionService.create_incident_from_vr`, with an incident id that is not blank
unfoldable pub create_incident_from_vr :
    BridgeTexts → BridgedRecord → (incident_id : String) → BridgeStorage → BridgeStorage
unfolding incident_from_vr update_incident persist_evidence put_vr put
create_incident_from_vr t vr incident_id s =
    let stored = update_incident (incident_from_vr t vr incident_id) s in
    let kept = record stored {
      snapshots = put incident_id (snapshot_from_vr vr) stored.snapshots;
    } in
    put_vr (record vr { promoted_to_incident = incident_id })
      (persist_evidence (incident_id <> "/snapshot/" <> t.drawn "evidence" <> ".json")
        (snapshot_from_vr vr) kept)

abbrev pub review_id : Authority → String
review_id (review r) = r.id
review_id (delegation d) = ""

abbrev pub delegation_id : Authority → String
delegation_id (review r) = ""
delegation_id (delegation d) = d.id

-- authority["record"].get("actor", authority["record"].get("name", "proof_bridge"))
abbrev pub authority_actor : Authority → String
authority_actor (review r) = r.actor
authority_actor (delegation d) = d.name

unfoldable pub lineage_of :
    AssuranceCandidate
    → DecisionEvidenceRecord
    → (bundle_ref : String) → Authority
    → List Subject
    → BridgeLineage
lineage_of c der bundle_ref authority subjects = record {
  candidate_id = c.id;
  der_id = c.der_id;
  sweep_run_id = c.sweep_run_id;
  review_decision_id = review_id authority;
  promotion_delegation_id = delegation_id authority;
  evidence_bundle_ref = bundle_ref;
  supporting_resource_digests = subjects;
  resolution_trace_id = der.resolution_trace_id;
}

-- the lineage of an incident that has none yet, which is how `promote` calls this
unfoldable pub record_incident_lineage :
    BridgeTexts
    → Incident
    → AssuranceCandidate
    → DecisionEvidenceRecord
    → (bundle_ref : String) → Authority
    → List Subject
    → BridgeStorage
    → BridgeStorage
unfolding lineage_of update_incident
record_incident_lineage t incident c der bundle_ref authority subjects s =
    update_incident
      (record incident {
        lineage = some (lineage_of c der bundle_ref authority subjects);
        custody =
            incident.custody
            ++ (custody t "promoted_from_assurance_candidate" (authority_actor authority)
                  ("candidate=" <> c.id <> "; bundle=" <> bundle_ref)
                ∷ []);
      })
      s
