-- ===== src/Services/Replays.antt =====
-- `ReplayService.run_replay` of src/notary_platform/services/services.py: one replay of a verification
-- record, with its traces on the incident. `runner` is the answer of the runner that is configured,
-- if any; `demo` is `replay_snapshot` of replay_engine/replay.py on the record's snapshot with the
-- agent chosen for it. A runner that raises is not modelled. The theorem is in the module below.
pub mod Stored
use notary_platform.Prelude.{
  String, Bool, true, false, not, ◌&&◌, ◌||◌, ◌==◌, Option, none, some, List, [], ◌∷◌, ◌++◌,
  if◌then◌else◌, nonblank, ◌<>◌,
}
use notary_platform.Dict.{get, put, or_else}
use notary_platform.Protocol.Digest.{Outcome, value, raised}
use notary_platform.Replay.Snapshot.{
  ReplayStatus, replayed, escalation_required, error, ReplayResult,
}
use notary_platform.Services.Replayability.{
  KnownLimitation, limitation, ReplayabilityStatus, missing_context, evidence_only,
}
use notary_platform.Sweep.Promotion.{
  BridgedRecord, Incident, LinkedRun, BridgeStorage, BridgeTexts, of_run, get_incident,
  update_incident, create_evidence_artifact,
}
use notary_platform.Sweep.Promotion.Incidents.{custody}

unfoldable pub create_replay_run : LinkedRun → BridgeStorage → BridgeStorage
unfolding put
create_replay_run run s = record s { replay_runs = put run.id run s.replay_runs }

-- `ReplayExecutionResult`, without the error, which is not read
pub record Execution : Type 0 where
  pub decision : String
  pub status : String

abbrev pub new_run : BridgeTexts → BridgedRecord → (method status : String) → LinkedRun
new_run t vr method status = record {
  id = "rr-" <> t.drawn "run";
  org_id = vr.org_id;
  verification_record_id = vr.assessed.id;
  incident_id = vr.promoted_to_incident;
  status = status;
  replay_method = method;
  original_decision = vr.decision_text;
  replayed_decision = "";
  missing_calls = [];
  known_limitations = [];
  evidence_refs = [];
}

-- the text of a status that cannot be replayed, and none for the others
abbrev pub unreplayable : ReplayabilityStatus → Option String
unreplayable state = elim state [
  | missing_context ↦ some "missing_context"
  | evidence_only ↦ some "evidence_only"
  | _ ↦ none
]

abbrev pub incomplete_run : BridgeTexts → BridgedRecord → (state : String) → LinkedRun
incomplete_run t vr state = record (new_run t vr "none" "incomplete") {
  known_limitations =
      limitation "missing_cassette_context" "NON_DETERMINISTIC_CORE"
        ("Record is " <> state <> ": no cassette data available for replay.") "replay" true ""
      ∷ [];
}

-- the run with the decision and the status of an execution
abbrev pub ended : LinkedRun → (decision status : String) → LinkedRun
ended run decision status = record run {
  replayed_decision = decision;
  status = status;
  missing_calls = if status == "escalation_required" then "cassette_lookup_failed" ∷ [] else [];
}

abbrev pub status_text : ReplayStatus → String
status_text replayed = "replayed"
status_text (escalation_required message) = "escalation_required"
status_text (error message) = "error"

abbrev pub demo_run : LinkedRun → Outcome ReplayResult → LinkedRun
demo_run run (value r) = ended run (or_else r.decision "") (status_text r.replay_status)
demo_run run (raised message) = record run {
  status = "error";
  known_limitations =
      limitation "replay_error" "NON_DETERMINISTIC_CORE" message "replay_engine" true "" ∷ [];
}

abbrev pub unsupported_run : LinkedRun → LinkedRun
unsupported_run run = record run {
  status = "unsupported_runner";
  known_limitations =
      limitation "replay_runner_not_configured" "NON_DETERMINISTIC_CORE"
        "No replay runner configured. Demo runner is only for demo records. Implement a CustomerReplayRunner for non-demo replay."
        "replay" true
        "Configure a ReplayRunner via ServiceRegistry.set_replay_runner() or mark the record as is_demo."
      ∷ [];
}

abbrev pub executed :
    BridgedRecord → Option Execution → Outcome ReplayResult → LinkedRun → LinkedRun
executed vr (some e) demo run = ended run e.decision e.status
executed vr none demo run = if vr.is_demo then demo_run run demo else unsupported_run run

-- another decision than the recorded one is a limitation that blocks nothing
abbrev pub compared : LinkedRun → LinkedRun
compared run =
    if nonblank run.replayed_decision
      && nonblank run.original_decision
      && not (run.replayed_decision == run.original_decision)
    then record run {
      known_limitations =
          run.known_limitations
          ++ (limitation "decision_mismatch" "NON_DETERMINISTIC_SIDE_EFFECT"
                ("Replayed decision (" <> run.replayed_decision
                  <> ") differs from recorded decision (" <> run.original_decision <> ").")
                "replay" false "Review deterministic controls (temp=0, seed, sealed cassette)."
              ∷ []);
    }
    else run

-- the artifact holds the run without its reference
abbrev pub with_artifact : BridgeTexts → LinkedRun → LinkedRun
with_artifact t run = record run { evidence_refs = ("ev-" <> t.drawn "artifact") ∷ [] }

abbrev pub store_run : BridgeTexts → BridgedRecord → LinkedRun → BridgeStorage → BridgeStorage
store_run t vr run s = create_replay_run (with_artifact t run) (
    create_evidence_artifact
      (record {
        id = "ev-" <> t.drawn "artifact";
        org_id = vr.org_id;
        verification_record_id = vr.assessed.id;
        kind = "replay_result";
        payload = of_run run;
      })
      s)

abbrev pub replayed_incident : BridgeTexts → LinkedRun → Incident → Incident
replayed_incident t run incident = record incident {
  replay_result = some (record {
    decision = run.replayed_decision;
    replay_status = run.status;
    replay_run_id = run.id;
    original_decision = run.original_decision;
  });
  status = if run.status == "replayed" then "replayed" else incident.status;
  custody = incident.custody ++ (custody t "replayed" "replay_service" ("run=" <> run.id) ∷ []);
}

abbrev pub trace_on : BridgeTexts → LinkedRun → BridgeStorage → Option Incident → BridgeStorage
trace_on t run s none = s
trace_on t run s (some incident) = update_incident (replayed_incident t run incident) s

abbrev pub finish_run : BridgeTexts → BridgedRecord → LinkedRun → BridgeStorage → BridgeStorage
finish_run t vr run s =
    if nonblank vr.promoted_to_incident
    then trace_on t run s (get_incident vr.promoted_to_incident s)
    else s

abbrev pub run_known :
    BridgeTexts
    → Option Execution
    → Outcome ReplayResult
    → BridgedRecord
    → BridgeStorage
    → Option String
    → Outcome LinkedRun × BridgeStorage
run_known t runner demo vr s (some state) =
    (value (incomplete_run t vr state), create_replay_run (incomplete_run t vr state) s)
run_known t runner demo vr s none =
    let run = compared (executed vr runner demo (new_run t vr "cassette" "not_started")) in
    (value (with_artifact t run), finish_run t vr (with_artifact t run) (store_run t vr run s))

abbrev pub run_of :
    BridgeTexts
    → Option Execution
    → Outcome ReplayResult
    → (org_id : String) → BridgeStorage
    → Option BridgedRecord
    → Outcome LinkedRun × BridgeStorage
run_of t runner demo org_id s none = (raised "Verification Record not found", s)
run_of t runner demo org_id s (some vr) =
    if not (vr.org_id == org_id)
    then (raised "Verification Record not found", s)
    else run_known t runner demo vr s (unreplayable vr.assessed.replayability)

unfoldable pub run_replay :
    BridgeTexts
    → (runner : Option Execution) → (demo : Outcome ReplayResult) → (vr_id org_id : String)
    → BridgeStorage
    → Outcome LinkedRun × BridgeStorage
unfolding create_replay_run create_evidence_artifact get_incident update_incident get
run_replay t runner demo vr_id org_id s = run_of t runner demo org_id s (get vr_id s.vrs)
