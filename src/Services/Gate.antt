-- ===== src/Services/Gate.antt =====
-- The release gate of src/notary_platform/services/services.py: `ScenarioRunService.run`,
-- `ReadinessService`, `ReleaseGateService` and `CertificateService.issue_proof_of_readiness`, and
-- `exit_code_for_result` of release_gate_cli.py. The collections of `MemoryStorage` that they use
-- are `GateStorage`. What an exception leaves in the storage stands beside it.
pub mod Check
pub mod Run
pub mod Marks
pub mod Verdict
use notary_platform.Prelude.{
  ℕ, String, Bool, true, false, not, ◌&&◌, ◌||◌, ◌==◌, Option, none, some, List, [], ◌∷◌, ◌++◌,
  if◌then◌else◌, ◌<>◌, nonblank, nonempty, keep, map, length,
}
use notary_platform.Dict.{Dict, get, put, values}
use notary_platform.Value.{Value, Fields, end, field, text, texts, obj, num}
use notary_platform.Protocol.Digest.{Outcome, value, raised}
use notary_platform.Certificates.{
  Signing, CertificateRequest, certificate_request, generate_certificate,
}

-- without its replayability and the score of it, which the gate does not read
pub record Scenario : Type 0 where
  pub id : String
  pub org_id : String
  pub environment_id : String
  pub source_vr_id : String
  pub source_incident_id : String
  pub business_title : String
  pub source_system_id : String
  pub expected_outcome : String
  pub approved_label_id : String
  pub required_sandbox_id : String
  pub evidence_refs : List String
  pub state : String
  pub last_run_status : String
  pub created_at : String

pub record ScenarioRunResult : Type 0 where
  pub scenario_id : String
  pub status : String
  pub expected_decision : String
  pub actual_decision : String
  pub reason : String
  pub evidence_ref : String

pub record ScenarioRun : Type 0 where
  pub id : String
  pub org_id : String
  pub environment_id : String
  pub agent_version : String
  pub scenario_ids : List String
  pub results : List ScenarioRunResult
  pub fix_config : Fields
  pub status : String
  pub summary : Fields
  pub created_at : String

pub record ReadinessPolicy : Type 0 where
  pub id : String
  pub org_id : String
  pub environment_id : String
  pub name : String
  pub required_scenario_ids : List String
  pub pass_condition : String
  pub enabled : Bool
  pub version : ℕ
  pub change_history : List Fields
  pub created_at : String

pub record ReadinessCheck : Type 0 where
  pub id : String
  pub org_id : String
  pub environment_id : String
  pub policy_id : String
  pub agent_version : String
  pub scenario_run_id : String
  pub verdict : String
  pub failing_scenarios : List String
  pub errored_scenarios : List String
  pub certificate_id : String
  pub created_at : String

pub record ReleaseGateResult : Type 0 where
  pub id : String
  pub org_id : String
  pub readiness_check_id : String
  pub status : String
  pub failing_scenarios : List String
  pub errored_scenarios : List String
  pub certificate_id : String
  pub scenario_run_id : String
  pub scenario_results : List Fields
  pub evidence_refs : List String
  pub error_code : String
  pub retry_guidance : String
  pub ci_cd_command : String
  pub created_at : String

-- `ProofCertificate` with the fields of its claim that are no defaults
pub record ProofCertificate : Type 0 where
  pub id : String
  pub org_id : String
  pub certificate_id : String
  pub certificate_type : String
  pub subject_id : String
  pub claim_id : String
  pub claim_run_id : String
  pub claim_agent_version : String
  pub issued_at : String
  pub signature : String
  pub signed_payload : Fields
  pub integrity_status : String
  pub created_at : String

-- `V` is what a Verification Record is
pub record GateStorage (V : Type 0) : Type 0 where
  pub vrs : Dict V
  pub scenarios : Dict Scenario
  pub scenario_runs : Dict ScenarioRun
  pub readiness_policies : Dict ReadinessPolicy
  pub readiness_checks : Dict ReadinessCheck
  pub release_gate_results : Dict ReleaseGateResult
  pub proof_certs : Dict ProofCertificate

-- the draws of one check, and the clock
pub record GateDraw : Type 0 where
  pub run_hex : String
  pub check_hex : String
  pub claim_hex : String
  pub certificate_hex : String
  pub proof_hex : String
  pub uuid_hex : String
  pub gate_hex : String
  pub policy_hex : String
  pub now : String

module _ {V : Type 0} where
  unfoldable pub create_scenario : Scenario → GateStorage V → GateStorage V
  unfolding put
  create_scenario x s = record s { scenarios = put x.id x s.scenarios }

  unfoldable pub get_scenario : String → GateStorage V → Option Scenario
  unfolding get
  get_scenario key s = get key s.scenarios

  unfoldable pub list_scenarios : (org_id environment_id : String) → GateStorage V → List Scenario
  unfolding keep values
  list_scenarios org_id environment_id s =
      let owned = keep (λ x. x.org_id == org_id) (values s.scenarios) in
      if nonblank environment_id
      then keep (λ x. x.environment_id == environment_id) owned
      else owned

  unfoldable pub create_scenario_run : ScenarioRun → GateStorage V → GateStorage V
  unfolding put
  create_scenario_run x s = record s { scenario_runs = put x.id x s.scenario_runs }

  unfoldable pub get_scenario_run : String → GateStorage V → Option ScenarioRun
  unfolding get
  get_scenario_run key s = get key s.scenario_runs

  unfoldable pub create_readiness_policy : ReadinessPolicy → GateStorage V → GateStorage V
  unfolding put
  create_readiness_policy x s = record s { readiness_policies = put x.id x s.readiness_policies }

  unfoldable pub get_readiness_policy : String → GateStorage V → Option ReadinessPolicy
  unfolding get
  get_readiness_policy key s = get key s.readiness_policies

  unfoldable pub create_readiness_check : ReadinessCheck → GateStorage V → GateStorage V
  unfolding put
  create_readiness_check x s = record s { readiness_checks = put x.id x s.readiness_checks }

  unfoldable pub create_release_gate_result : ReleaseGateResult → GateStorage V → GateStorage V
  unfolding put
  create_release_gate_result x s = record s {
    release_gate_results = put x.id x s.release_gate_results;
  }

  unfoldable pub create_proof_certificate : ProofCertificate → GateStorage V → GateStorage V
  unfolding put
  create_proof_certificate x s = record s { proof_certs = put x.id x s.proof_certs }

-- a result, or an exception, and the storage that either leaves
abbrev pub Left : Type 0 → Type 0 → Type 0
Left V A = Outcome A × GateStorage V
