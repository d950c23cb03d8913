-- ===== src/Services/Gate/Run.antt =====
-- `ScenarioRunService.run` of src/notary_platform/services/services.py. `Replays` stands for the replay
-- of one scenario's record: its snapshot and its agent, which are found, and `replay_snapshot`.
use notary_platform.Prelude.{
  String, not, ◌==◌, Option, none, some, List, [], ◌∷◌, if◌then◌else◌, ◌<>◌, nonempty, keep, map,
  length,
}
use notary_platform.Dict.{get}
use notary_platform.Value.{Value, Fields, end, field, num}
use notary_platform.Protocol.Digest.{Outcome, value, raised}
use notary_platform.Services.Gate.{
  Scenario, ScenarioRunResult, ScenarioRun, GateStorage, GateDraw, Left, get_scenario,
  list_scenarios, create_scenario, create_scenario_run,
}

-- `replay_snapshot(...).get("decision") or ""` for a scenario and its record, or what was raised
abbrev pub Replays : Type 0 → Type 0
Replays V = Scenario → V → Fields → Outcome String

abbrev pub errored : Scenario → String → ScenarioRunResult
errored scenario reason = record {
  scenario_id = scenario.id;
  status = "errored";
  expected_decision = scenario.expected_outcome;
  actual_decision = "";
  reason = reason;
  evidence_ref = "";
}

abbrev pub judged : Scenario → Outcome String → ScenarioRunResult
judged scenario (raised message) = errored scenario message
judged scenario (value actual) = record {
  scenario_id = scenario.id;
  status = if actual == scenario.expected_outcome then "passed" else "failed";
  expected_decision = scenario.expected_outcome;
  actual_decision = actual;
  reason =
      if actual == scenario.expected_outcome
      then ""
      else "Expected " <> scenario.expected_outcome <> ", got " <> actual;
  evidence_ref = "";
}

abbrev pub not_found : String → ScenarioRunResult
not_found sid = record {
  scenario_id = sid;
  status = "errored";
  expected_decision = "";
  actual_decision = "";
  reason = "Scenario not found";
  evidence_ref = "";
}

-- [r.scenario_id for r in results if r.status == status]
unfoldable pub with_status : String → List ScenarioRunResult → List String
unfolding keep
with_status status results = map (λ r. r.scenario_id) (keep (λ r. r.status == status) results)

unfoldable pub run_summary : List ScenarioRunResult → Fields
unfolding keep
run_summary results =
    let count : String → Value = λ status. num (length (keep (λ r. r.status == status) results)) in
    field "total" (num (length results)) (
      field "passed" (count "passed") (
        field "failed" (count "failed") (
          field "errored" (count "errored") (
            field "escalation_required" (count "escalation_required")
              (field "non_deterministic" (count "non_deterministic") end)))))

abbrev pub ci_cd_command : (policy_id agent_version : String) → String
ci_cd_command policy_id agent_version =
    "curl -fsS -X POST https://api.getnotary.ai/v1/release-gate/checks -H \"Authorization: Bearer <token>\" -H \"Content-Type: application/json\" -d '{\"policy_id\": \""
    <> policy_id <> "\", \"agent_version\": \"" <> agent_version
    <> "\"}' -o notary-release-gate.json && python -m notary_platform.release_gate_cli notary-release-gate.json"

module _ {V : Type 0} (replays : Replays V) where
  abbrev pub run_record : Scenario → Fields → Option V → ScenarioRunResult
  run_record scenario fix_config none = errored scenario "Source Verification Record not found"
  run_record scenario fix_config (some vr) = judged scenario (replays scenario vr fix_config)

  abbrev pub run_found :
      String → String → Fields → GateStorage V → Option Scenario → ScenarioRunResult
  run_found org_id sid fix_config s none = not_found sid
  run_found org_id sid fix_config s (some scenario) =
      if not (scenario.org_id == org_id)
      then not_found sid
      else run_record scenario fix_config (get scenario.source_vr_id s.vrs)

  -- one round of the loop of `run`, with `_run_single_scenario`
  unfoldable pub run_one : String → Fields → GateStorage V → String → ScenarioRunResult
  unfolding get_scenario get
  run_one org_id fix_config s sid = run_found org_id sid fix_config s (get_scenario sid s)

  abbrev pub mark_found : String → GateStorage V → Option Scenario → GateStorage V
  mark_found status s none = s
  mark_found status s (some scenario) =
      create_scenario (record scenario { last_run_status = status }) s

  -- the loop that sets `last_run_status`
  unfoldable pub mark_all : List ScenarioRunResult → GateStorage V → GateStorage V
  unfolding get_scenario create_scenario
  mark_all [] s = s
  mark_all (r ∷ rest) s = mark_all rest (mark_found r.status s (get_scenario r.scenario_id s))

  abbrev pub started :
      GateDraw → (agent_version org_id environment_id : String) → List String → ScenarioRun
  started draw agent_version org_id environment_id ids = record {
    id = "sr-" <> draw.run_hex;
    org_id = org_id;
    environment_id = environment_id;
    agent_version = agent_version;
    scenario_ids = ids;
    results = [];
    fix_config = end;
    status = "running";
    summary = end;
    created_at = draw.now;
  }

  abbrev pub completed : ScenarioRun → List ScenarioRunResult → ScenarioRun
  completed r results = record r {
    results = results;
    status = "completed";
    summary = run_summary results;
  }

  abbrev pub run_ids :
      GateDraw
      → (agent_version org_id environment_id : String) → Fields
      → GateStorage V
      → List String
      → Left V ScenarioRun
  run_ids draw agent_version org_id environment_id fix_config s [] =
      (raised "No scenarios available to run", s)
  run_ids draw agent_version org_id environment_id fix_config s (sid ∷ more) =
      let r = started draw agent_version org_id environment_id (sid ∷ more) in
      let s₁ = create_scenario_run r s in
      let done = completed r (map (run_one org_id fix_config s₁) (sid ∷ more)) in
      (value done, mark_all done.results (create_scenario_run done s₁))

  abbrev pub ids_or_active :
      List String → (org_id environment_id : String) → GateStorage V → List String
  ids_or_active scenario_ids org_id environment_id s =
      if nonempty scenario_ids
      then scenario_ids
      else map (λ x. x.id)
          (keep (λ x. x.state == "active") (list_scenarios org_id environment_id s))

  -- `ScenarioRunService.run`
  unfoldable pub run :
      GateDraw
      → List String
      → (agent_version org_id environment_id : String) → Fields
      → GateStorage V
      → Left V ScenarioRun
  unfolding run_one mark_all list_scenarios create_scenario_run run_summary keep
  run draw scenario_ids agent_version org_id environment_id fix_config s =
      run_ids draw agent_version org_id environment_id fix_config s
        (ids_or_active scenario_ids org_id environment_id s)
