-- ===== src/Services/Labels.antt =====
-- `LabelProvenanceService` of src/notary_platform/services/services.py: the label of a verification
-- record, and what becomes of the record's replayability. Each operation returns the label, or what
-- the ValueError says, with the storage after it. The theorems are in the module below.
pub mod Suggested
use notary_platform.Prelude.{ℕ, String, not, ◌==◌, Option, none, some, if◌then◌else◌, nonblank}
use notary_platform.Dict.{Dict, get, put}
use notary_platform.Protocol.Digest.{Outcome, value, raised}
use notary_platform.Services.Replayability.{assess}
use notary_platform.Sweep.Promotion.{BridgedRecord, BridgeStorage, put_vr}

pub record LabelRecord : Type 0 where
  pub id : String
  pub verification_record_id : String
  pub expected_outcome : String
  pub reviewer : String
  pub role : String
  pub message : String
  pub suggested_by : String
  pub approval_reason : String
  pub status : String

pub record ProofStorage : Type 0 where
  pub bridge : BridgeStorage
  pub label_records : Dict LabelRecord

unfoldable pub stored_vr : String → ProofStorage → Option BridgedRecord
unfolding get
stored_vr vr_id s = get vr_id s.bridge.vrs

unfoldable pub stored_label : String → ProofStorage → Option LabelRecord
unfolding get
stored_label label_id s = get label_id s.label_records

unfoldable pub put_label : LabelRecord → ProofStorage → ProofStorage
unfolding put
put_label label s = record s { label_records = put label.id label s.label_records }

unfoldable pub store_vr : BridgedRecord → ProofStorage → ProofStorage
unfolding put_vr
store_vr vr s = record s { bridge = put_vr vr s.bridge }

-- the record with what the assessment of it finds
unfoldable pub reassessed : (ℕ → String) → BridgedRecord → BridgedRecord
unfolding assess
reassessed percent vr =
    let (found, assessed) = assess percent vr.assessed in
    record vr {
      assessed = record assessed { replayability = found.state };
      replayability_reason = found.message;
      missing_prerequisites = found.missing;
    }

-- what the caller gives for a label; the source's `reason` is `message`
pub record LabelRequest : Type 0 where
  pub expected_outcome : String
  pub reviewer : String
  pub role : String
  pub message : String
  pub suggested_by : String

abbrev pub new_label : (id vr_id : String) → LabelRequest → LabelRecord
new_label id vr_id request = record {
  id = id;
  verification_record_id = vr_id;
  expected_outcome = request.expected_outcome;
  reviewer = request.reviewer;
  role = request.role;
  message = request.message;
  suggested_by = request.suggested_by;
  approval_reason = if not (nonblank request.suggested_by) then "Approved" else "";
  status = if not (nonblank request.suggested_by) then "active" else "suggested";
}

-- the record with its label, before it is assessed
abbrev pub labelled : String → LabelRequest → BridgedRecord → BridgedRecord
labelled label_id request vr = record vr {
  assessed = record vr.assessed { current_label_id = label_id };
  label_source = if not (nonblank request.suggested_by) then "human" else request.suggested_by;
}

abbrev pub label_found :
    (ℕ → String)
    → (id vr_id org_id : String) → LabelRequest
    → ProofStorage
    → Option BridgedRecord
    → Outcome LabelRecord × ProofStorage
label_found percent id vr_id org_id request s none = (raised "Verification Record not found", s)
label_found percent id vr_id org_id request s (some vr) =
    if not (vr.org_id == org_id) then (raised "Verification Record not found", s) else (
      value (new_label id vr_id request),
      store_vr (reassessed percent (labelled id request vr))
          (put_label (new_label id vr_id request) s),
    )

-- `id` is the draw of the label's id
unfoldable pub create_label :
    (ℕ → String)
    → (id vr_id org_id : String) → LabelRequest
    → ProofStorage
    → Outcome LabelRecord × ProofStorage
unfolding stored_vr store_vr put_label reassessed
create_label percent id vr_id org_id request s =
    label_found percent id vr_id org_id request s (stored_vr vr_id s)

abbrev pub approved : LabelRecord → LabelRecord
approved label = record label {
  status = "active";
  approval_reason = "Approved from suggested label";
}

abbrev pub approve_label :
    (ℕ → String)
    → ProofStorage
    → BridgedRecord
    → Option LabelRecord
    → Outcome LabelRecord × ProofStorage
approve_label percent s vr none = (raised "Label not found", s)
approve_label percent s vr (some label) =
    (value (approved label), store_vr (reassessed percent vr) (put_label (approved label) s))

abbrev pub approve_found :
    (ℕ → String) → String → ProofStorage → Option BridgedRecord → Outcome LabelRecord × ProofStorage
approve_found percent org_id s none = (raised "Verification Record not found", s)
approve_found percent org_id s (some vr) =
    if not (vr.org_id == org_id)
    then (raised "Verification Record not found", s)
    else if not (nonblank vr.assessed.current_label_id)
    then (raised "No suggested label to approve", s)
    else approve_label percent s vr (stored_label vr.assessed.current_label_id s)

unfoldable pub approve_suggested_label :
    (ℕ → String) → (vr_id org_id : String) → ProofStorage → Outcome LabelRecord × ProofStorage
unfolding stored_vr stored_label store_vr put_label reassessed
approve_suggested_label percent vr_id org_id s = approve_found percent org_id s (stored_vr vr_id s)
