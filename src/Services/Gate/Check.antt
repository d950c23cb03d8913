-- ===== src/Services/Gate/Check.antt =====
-- `ReadinessService`, `ReleaseGateService` and `CertificateService.issue_proof_of_readiness` of
-- src/notary_platform/services/services.py, and `exit_code_for_result` of
-- src/notary_platform/release_gate_cli.py.
use notary_platform.Prelude.{
  ℕ, String, true, not, ◌&&◌, ◌==◌, Option, none, some, List, [], ◌∷◌, ◌++◌, if◌then◌else◌, ◌<>◌,
  nonblank, nonempty, map,
}
use notary_platform.Value.{Value, Fields, end, field, text, texts, field?, as_text, read}
use notary_platform.Protocol.Digest.{Outcome, value, raised}
use notary_platform.Certificates.{
  Signing, CertificateRequest, certificate_request, generate_certificate,
}
use notary_platform.Services.Gate.{
  ScenarioRunResult, ScenarioRun, ReadinessPolicy, ReadinessCheck, ReleaseGateResult,
  ProofCertificate, GateStorage, GateDraw, Left, get_scenario_run, create_readiness_policy,
  get_readiness_policy, create_readiness_check, create_release_gate_result,
  create_proof_certificate,
}
use notary_platform.Services.Gate.Run.{Replays, with_status, ci_cd_command, run}

abbrev pub opt_text : Option String → String → String
opt_text none default = default
opt_text (some t) default = t

-- signed_dict.get(key, default) of a dict of texts
abbrev pub signed_part : String → String → Fields → String
signed_part key default signed = opt_text (read as_text (field? key signed) default) default

abbrev pub readiness_request : ReadinessCheck → ReadinessPolicy → String → CertificateRequest
readiness_request check policy now =
    record (certificate_request check.id (text "release_gate_check")
      (text (if check.verdict == "passed" then "pass" else "fail"))
      (field "policy_id" (text policy.id)
        (field "required_scenarios" (texts policy.required_scenario_ids) end))) {
          integrity_status = "verified";
          replay_result =
              field "scenario_run_id" (text check.scenario_run_id)
                (field "verdict" (text check.verdict) end);
          expected_correct_behavior = "all_required_scenarios_pass";
          timestamp = now;
        }

abbrev pub readiness_certificate : GateDraw → ReadinessCheck → Fields → ProofCertificate
readiness_certificate draw check signed = record {
  id = "por-" <> draw.certificate_hex;
  org_id = check.org_id;
  certificate_id = signed_part "certificate_id" "por-cert-v1" signed;
  certificate_type = "proof_of_readiness";
  subject_id = check.id;
  claim_id = "pc-" <> draw.claim_hex;
  claim_run_id = check.scenario_run_id;
  claim_agent_version = check.agent_version;
  issued_at = draw.now;
  signature = signed_part "signature" "" signed;
  signed_payload = signed;
  integrity_status = "verified";
  created_at = draw.now;
}

abbrev pub failing_of : List ScenarioRunResult → List String
failing_of results = with_status "failed" results

abbrev pub errored_of : List ScenarioRunResult → List String
errored_of results = with_status "errored" results

abbrev pub readiness_verdict : List ScenarioRunResult → String
readiness_verdict results =
    if not (nonempty (failing_of results)) && not (nonempty (errored_of results))
    then "passed"
    else "failed"

abbrev pub check_of :
    GateDraw
    → (org_id environment_id agent_version : String) → ReadinessPolicy
    → ScenarioRun
    → ReadinessCheck
check_of draw org_id environment_id agent_version policy r = record {
  id = "rc-" <> draw.check_hex;
  org_id = org_id;
  environment_id = environment_id;
  policy_id = policy.id;
  agent_version = agent_version;
  scenario_run_id = r.id;
  verdict = readiness_verdict r.results;
  failing_scenarios = failing_of r.results;
  errored_scenarios = errored_of r.results;
  certificate_id = "";
  created_at = draw.now;
}

module _ {V : Type 0} (replays : Replays V) (signing : Signing) where
  abbrev pub issue_signed :
      GateDraw → ReadinessCheck → GateStorage V → Outcome Fields → Left V ProofCertificate
  issue_signed draw check s (raised message) = (raised message, s)
  issue_signed draw check s (value signed) =
      let cert = readiness_certificate draw check signed in
      (value cert, create_proof_certificate cert s)

  abbrev pub issue_for :
      GateDraw → ReadinessCheck → GateStorage V → Option ReadinessPolicy → Left V ProofCertificate
  issue_for draw check s none = (raised "Readiness policy not found", s)
  issue_for draw check s (some policy) = issue_signed draw check s (
      generate_certificate signing draw.proof_hex draw.uuid_hex
        (readiness_request check policy draw.now))

  unfoldable pub issue_proof_of_readiness :
      GateDraw → ReadinessCheck → GateStorage V → Left V ProofCertificate
  unfolding get_readiness_policy generate_certificate create_proof_certificate field?
  issue_proof_of_readiness draw check s =
      issue_for draw check s (get_readiness_policy check.policy_id s)

  abbrev pub certified : ReadinessCheck → Left V ProofCertificate → Left V ReadinessCheck
  certified check (raised message, s) = (raised message, s)
  certified check (value cert, s) =
      let check' = record check { certificate_id = cert.id } in
      (value check', create_readiness_check check' s)

  abbrev pub check_run :
      GateDraw
      → (org_id environment_id agent_version : String) → ReadinessPolicy
      → Left V ScenarioRun
      → Left V ReadinessCheck
  check_run draw org_id environment_id agent_version policy (raised message, s) =
      (raised message, s)
  check_run draw org_id environment_id agent_version policy (value r, s) =
      let check = check_of draw org_id environment_id agent_version policy r in
      let s' = create_readiness_check check s in
      if check.verdict == "passed"
      then certified check (issue_proof_of_readiness draw check s')
      else (value check, s')

  abbrev pub check_policy :
      GateDraw
      → (agent_version org_id environment_id : String) → Fields
      → GateStorage V
      → Option ReadinessPolicy
      → Left V ReadinessCheck
  check_policy draw agent_version org_id environment_id fix_config s none =
      (raised "Readiness policy not found", s)
  check_policy draw agent_version org_id environment_id fix_config s (some policy) =
      if not (policy.org_id == org_id)
      then (raised "Readiness policy not found", s)
      else if not policy.enabled
      then (raised "Readiness policy is disabled", s)
      else check_run draw org_id environment_id agent_version policy (
          run replays draw policy.required_scenario_ids agent_version org_id environment_id
            fix_config s)

  -- `ReadinessService.run_check`
  unfoldable pub run_check :
      GateDraw
      → (policy_id agent_version org_id environment_id : String) → Fields
      → GateStorage V
      → Left V ReadinessCheck
  unfolding run issue_proof_of_readiness get_readiness_policy create_readiness_check with_status
  run_check draw policy_id agent_version org_id environment_id fix_config s =
      check_policy draw agent_version org_id environment_id fix_config s
        (get_readiness_policy policy_id s)

  abbrev pub gate_error : GateDraw → (policy_id agent_version org_id : String) → ReleaseGateResult
  gate_error draw policy_id agent_version org_id = record {
    id = "rg-" <> draw.gate_hex;
    org_id = org_id;
    readiness_check_id = "";
    status = "error";
    failing_scenarios = [];
    errored_scenarios = [];
    certificate_id = "";
    scenario_run_id = "";
    scenario_results = [];
    evidence_refs = [];
    error_code = "readiness_check_failed";
    retry_guidance =
        "Retry the request; if the error persists, verify the policy and scenario configuration.";
    ci_cd_command = ci_cd_command policy_id agent_version;
    created_at = draw.now;
  }

  -- `ScenarioRunResult.to_dict`
  abbrev pub result_dict : ScenarioRunResult → Fields
  result_dict r = field "scenario_id" (text r.scenario_id) (
      field "status" (text r.status) (
        field "expected_decision" (text r.expected_decision) (
          field "actual_decision" (text r.actual_decision)
            (field "reason" (text r.reason) (field "evidence_ref" (text r.evidence_ref) end)))))

  abbrev pub result_dicts : Option ScenarioRun → List Fields
  result_dicts none = []
  result_dicts (some r) = map result_dict r.results

  abbrev pub evidence_refs_of : ReadinessCheck → List String
  evidence_refs_of check =
      ("readiness_check:" <> check.id)
      ∷ ("scenario_run:" <> check.scenario_run_id)
      ∷ ((if nonblank check.certificate_id
            then ("certificate:" <> check.certificate_id) ∷ []
            else [])
          ++ (map (λ sid. "scenario:" <> sid) check.failing_scenarios
              ++ map (λ sid. "scenario:" <> sid) check.errored_scenarios))

  abbrev pub gate_result :
      GateDraw
      → (policy_id agent_version org_id : String) → ReadinessCheck
      → GateStorage V
      → ReleaseGateResult
  gate_result draw policy_id agent_version org_id check s = record {
    id = "rg-" <> draw.gate_hex;
    org_id = org_id;
    readiness_check_id = check.id;
    status = if check.verdict == "passed" then "pass" else "fail";
    failing_scenarios = check.failing_scenarios;
    errored_scenarios = check.errored_scenarios;
    certificate_id = check.certificate_id;
    scenario_run_id = check.scenario_run_id;
    scenario_results = result_dicts (get_scenario_run check.scenario_run_id s);
    evidence_refs = evidence_refs_of check;
    error_code = "";
    retry_guidance = "";
    ci_cd_command = ci_cd_command policy_id agent_version;
    created_at = draw.now;
  }

  abbrev pub gate_of :
      GateDraw
      → (policy_id agent_version org_id : String) → Left V ReadinessCheck
      → ReleaseGateResult × GateStorage V
  gate_of draw policy_id agent_version org_id (raised message, s) =
      let result = gate_error draw policy_id agent_version org_id in
      (result, create_release_gate_result result s)
  gate_of draw policy_id agent_version org_id (value check, s) =
      let result = gate_result draw policy_id agent_version org_id check s in
      (result, create_release_gate_result result s)

  -- `ReleaseGateService.check`
  unfoldable pub check_release :
      GateDraw
      → (policy_id agent_version org_id environment_id : String) → Fields
      → GateStorage V
      → ReleaseGateResult × GateStorage V
  unfolding run_check get_scenario_run create_release_gate_result
  check_release draw policy_id agent_version org_id environment_id fix_config s =
      gate_of draw policy_id agent_version org_id
        (run_check draw policy_id agent_version org_id environment_id fix_config s)

-- `ReadinessService.create_policy`
unfoldable pub create_policy :
    {V : Type 0}
    → GateDraw
    → (org_id environment_id name : String) → List String
    → (pass_condition : String) → GateStorage V
    → ReadinessPolicy × GateStorage V
unfolding create_readiness_policy
create_policy draw org_id environment_id name required_scenario_ids pass_condition s =
    let policy : ReadinessPolicy = record {
      id = "rp-" <> draw.policy_hex;
      org_id = org_id;
      environment_id = environment_id;
      name = name;
      required_scenario_ids = required_scenario_ids;
      pass_condition = pass_condition;
      enabled = true;
      version = 1;
      change_history = field "action" (text "created") (field "timestamp" (text draw.now) end) ∷ [];
      created_at = draw.now;
    } in
    (policy, create_readiness_policy policy s)

abbrev pub exit_code_of : Option Value → ℕ
exit_code_of (some (text status)) =
    if status == "pass" then 0 else if status == "fail" then 1 else 2
exit_code_of _ = 2

-- `exit_code_for_result`
unfoldable pub exit_code_for_result : Fields → ℕ
unfolding field?
exit_code_for_result result = exit_code_of (field? "status" result)
