-- ===== src/Sweep/Promotion/Promote.antt =====
-- `ProofBridgeService.promote` of src/notary_platform/sweep/bridge.py. A result of `none` is an
-- exception.
use notary_platform.Prelude.{
  String, Bool, true, false, not, ◌≡◌, Bool-cases, inl, inr, arith, ◌==◌, Option, none, some, List,
  [], ◌∷◌, if◌then◌else◌, nonblank,
}
use notary_platform.Value.{◌>>=◌}
use notary_platform.Records.Candidate.{AssuranceCandidate}
use notary_platform.Records.Evidence.{DecisionEvidenceRecord}
use notary_platform.Storage.{get_assurance_candidate, get_decision_evidence_record}
use notary_platform.Services.Replayability.{
  ReplayabilityStatus, replayable, partially_replayable, requires_sandbox, evidence_only,
}
use notary_platform.Sweep.Bridge.{
  Authority, Clock, Failure, Eligibility, check_eligibility, eligibility_raises,
}
use notary_platform.Sweep.Promotion.{
  BridgedRecord, BridgeLineage, Incident, BridgeStorage, BridgeTexts, list_vrs_by_bridge_key,
  get_incident, store_evidence_bundle,
}
use notary_platform.Sweep.Promotion.Bundle.{
  bridge_key_of, incident_id_of, recalculate_evidence_level, freeze_evidence_bundle,
}
use notary_platform.Sweep.Promotion.Incidents.{
  bridged_record, create_vr_for_candidate, incident_from_vr, create_incident_from_vr,
  record_incident_lineage,
}

pub record Refusal : Type 0 where
  pub error : String
  pub error_code : Option String
  pub next_actions : List String
  pub prerequisites : List String
  pub failures : List Failure

pub record Promoted : Type 0 where
  pub bridge_key : String
  pub verification_record_id : String
  pub is_new_record : Bool
  pub evidence_bundle_ref : String
  pub incident_ref : String
  pub replay_state : String
  pub replayability_reason : String
  pub missing_prerequisites : List String
  pub candidate_id : String
  pub der_id : String
  pub sweep_run_id : String
  pub authority : Authority

pub data Promotion : Type 0 where
  refused : Refusal → Promotion
  promoted : Promoted → Promotion

abbrev pub public_replay_state : ReplayabilityStatus → String
public_replay_state status = elim status [
  | replayable ↦ "fully_replayable"
  | partially_replayable ↦ "partially_replayable"
  | requires_sandbox ↦ "requires_sandbox"
  | evidence_only ↦ "not_replayable"
  | ReplayabilityStatus.blocked ↦ "not_replayable"
  | _ ↦ "missing_evidence"
]

abbrev pub not_eligible : Eligibility → Refusal
not_eligible e = record {
  error = e.reason;
  error_code = e.error_code;
  next_actions = e.next_actions;
  prerequisites = e.prerequisites;
  failures = e.failures;
}

abbrev pub lineage_incomplete : Refusal
lineage_incomplete = record {
  error = "existing bridge lineage is incomplete";
  error_code = some "BRIDGE_LINEAGE_INCOMPLETE";
  next_actions = "repair_bridge_lineage" ∷ [];
  prerequisites = "immutable evidence bundle reference" ∷ [];
  failures = [];
}

abbrev pub incident_failed : Refusal
incident_failed = record {
  error = "incident creation failed";
  error_code = some "INCIDENT_CREATION_FAILED";
  next_actions = "retry_promotion" ∷ [];
  prerequisites = [];
  failures = [];
}

abbrev pub promoted_as :
    AssuranceCandidate
    → Authority
    → BridgedRecord
    → (bundle_ref : String) → Bool
    → (incident_id bridge_key : String) → Promoted
promoted_as c authority vr bundle_ref is_new incident_id bridge_key = record {
  bridge_key = bridge_key;
  verification_record_id = vr.assessed.id;
  is_new_record = is_new;
  evidence_bundle_ref = bundle_ref;
  incident_ref = incident_id;
  replay_state = public_replay_state vr.assessed.replayability;
  replayability_reason = vr.replayability_reason;
  missing_prerequisites = vr.missing_prerequisites;
  candidate_id = c.id;
  der_id = c.der_id;
  sweep_run_id = c.sweep_run_id;
  authority = authority;
}

-- the incident that the record names, if any
abbrev pub incident_named : BridgedRecord → BridgeStorage → Option Incident
incident_named vr s =
    if nonblank vr.promoted_to_incident then get_incident vr.promoted_to_incident s else none

abbrev pub lineage_ref : Option BridgeLineage → String
lineage_ref none = ""
lineage_ref (some l) = l.evidence_bundle_ref

abbrev pub promote_known :
    AssuranceCandidate
    → Authority
    → (org_id bridge_key : String) → BridgedRecord
    → Option Incident
    → Promotion
promote_known c authority org_id bridge_key vr none = refused lineage_incomplete
promote_known c authority org_id bridge_key vr (some incident) =
    if not (nonblank (lineage_ref incident.lineage))
    then refused lineage_incomplete
    else if not (incident.org_id == org_id)
    then refused incident_failed
    else promoted (
        promoted_as c authority vr (lineage_ref incident.lineage) false incident.incident_id
          bridge_key)

-- a candidate with no record yet
unfoldable pub promote_new :
    BridgeTexts
    → AssuranceCandidate
    → DecisionEvidenceRecord
    → Authority
    → (org_id bridge_key : String) → BridgeStorage
    → Promotion × BridgeStorage
unfolding recalculate_evidence_level freeze_evidence_bundle store_evidence_bundle bridged_record
    create_vr_for_candidate incident_id_of incident_from_vr create_incident_from_vr
    record_incident_lineage
promote_new t c der authority org_id bridge_key s =
    let level = recalculate_evidence_level c.id org_id bridge_key s in
    let b = freeze_evidence_bundle t c der bridge_key authority level s.sweep in
    let vr = bridged_record t c b bridge_key in
    let s₁ = create_vr_for_candidate t c b vr (store_evidence_bundle b s) in
    let incident_id = incident_id_of t bridge_key in
    let s₂ = create_incident_from_vr t vr incident_id s₁ in
    if not (vr.org_id == org_id) then (refused incident_failed, s₂) else (
      promoted (promoted_as c authority vr b.id true incident_id bridge_key),
      record_incident_lineage t (incident_from_vr t vr incident_id) c der b.id authority b.subjects
          s₂,
    )

abbrev pub promote_keyed :
    BridgeTexts
    → AssuranceCandidate
    → DecisionEvidenceRecord
    → Authority
    → (org_id bridge_key : String) → BridgeStorage
    → List BridgedRecord
    → Promotion × BridgeStorage
promote_keyed t c der authority org_id bridge_key s [] =
    promote_new t c der authority org_id bridge_key s
promote_keyed t c der authority org_id bridge_key s (vr ∷ others) =
    (promote_known c authority org_id bridge_key vr (incident_named vr s), s)

abbrev pub promote_parts :
    BridgeTexts
    → (org_id : String) → BridgeStorage
    → Option AssuranceCandidate
    → Option Authority
    → Option (Promotion × BridgeStorage)
promote_parts t org_id s candidate authority = do
  c ← candidate
  der ← get_decision_evidence_record c.der_id s.sweep
  a ← authority
  some (
      promote_keyed t c der a org_id (bridge_key_of t c) s
        (list_vrs_by_bridge_key (bridge_key_of t c) org_id s))

-- what `promote` answers by the result of `check_eligibility`
unfoldable pub promote_checked :
    Clock
    → BridgeTexts
    → (candidate_id org_id : String) → BridgeStorage
    → Option (Promotion × BridgeStorage)
unfolding check_eligibility get_assurance_candidate get_decision_evidence_record bridge_key_of
    list_vrs_by_bridge_key promote_new get_incident
promote_checked clock t candidate_id org_id s =
    let eligibility = check_eligibility clock candidate_id org_id s.sweep in
    if not eligibility.eligible
    then some (refused (not_eligible eligibility), s)
    else promote_parts t org_id s (get_assurance_candidate candidate_id s.sweep)
        eligibility.authority

unfoldable pub promote :
    Clock
    → BridgeTexts
    → (candidate_id org_id : String) → BridgeStorage
    → Option (Promotion × BridgeStorage)
unfolding eligibility_raises promote_checked
promote clock t candidate_id org_id s =
    let answer = promote_checked clock t candidate_id org_id s in
    if eligibility_raises clock candidate_id org_id s.sweep then none else answer

-- a promotion that answers had an eligibility, and answers by it
pub promote-checked :
    (clock : Clock) (t : BridgeTexts) (candidate_id org_id : String) (s : BridgeStorage)
    (outcome : Promotion × BridgeStorage)
    → promote clock t candidate_id org_id s ≡ some outcome
    → (eligibility_raises clock candidate_id org_id s.sweep ≡ false)
      × (promote_checked clock t candidate_id org_id s ≡ some outcome)
unfolding promote
promote-checked clock t candidate_id org_id s outcome h =
    elim (Bool-cases (eligibility_raises clock candidate_id org_id s.sweep)) [
      | inl e ↦ absurd (let h' = rw e at h in ground arith)
      | inr e ↦ (e, rw e at h)
    ]
