-- ===== src/Examples/Gates.antt =====
-- One release check, and one certificate.
use notary_platform.Prelude.{String, ◌≡◌, refl, sym, true, some, [], ◌∷◌, elem, keep}
use notary_platform.Dict.{get, put, values}
use notary_platform.Value.{Fields, end, field, field?, text}
use notary_platform.Protocol.Digest.{value, without}
use notary_platform.Certificates.{
  Signing, Sealing, CertificateRequest, certificate_request, signing_algorithm, signed_text, sign,
  certificate_with, generate_certificate, verify_certificate_signature, generate-verify,
}
use notary_platform.Services.Gate.{
  Scenario, ReadinessPolicy, GateStorage, GateDraw, get_scenario, list_scenarios, create_scenario,
  create_scenario_run, get_scenario_run, get_readiness_policy, create_readiness_check,
  create_release_gate_result, create_proof_certificate,
}
use notary_platform.Services.Gate.Run.{
  Replays, not_found, run_one, mark_all, run_summary, run, with_status,
}
use notary_platform.Services.Gate.Check.{issue_proof_of_readiness, run_check, check_release}
use notary_platform.Services.Gate.Verdict.{Released, check_release-Released}
use notary_platform.Services.Gate.Marks.{run_marks_foreign}

-- a key service whose ciphertext is the plaintext
abbrev signing : Signing
signing = record {
  canonical_json = λ d. "{}";
  hmac = λ t. "5f3a";
  kms_arn = "arn:1";
  encrypt = λ arn t. value t;
  decrypt = λ arn t. value t;
}

abbrev sealing : Sealing signing
sealing = record { hex_given = λ t. refl; hex_plain = λ t. refl; decrypts = λ t e h. sym h }

abbrev proof : CertificateRequest
proof = certificate_request "inc-1" (text "approve") (text "deny") end

abbrev certificate : Fields
certificate = certificate_with signing "p1" "u1" proof (field "signature" (text "kms:{}") end)

generate-verify_example : verify_certificate_signature signing certificate ≡ some true
unfolding generate_certificate certificate_with sign signed_text without elem signing_algorithm
generate-verify_example = generate-verify signing sealing "p1" "u1" proof certificate refl

-- an agent that decides what its record says
abbrev replays : Replays String
replays = λ scenario vr fix_config. value vr

abbrev scenario : Scenario
scenario = record {
  id = "sc-1";
  org_id = "org-1";
  environment_id = "env-1";
  source_vr_id = "vr-1";
  source_incident_id = "";
  business_title = "Loan denial";
  source_system_id = "core";
  expected_outcome = "deny";
  approved_label_id = "";
  required_sandbox_id = "";
  evidence_refs = "vr:vr-1" ∷ [];
  state = "active";
  last_run_status = "not_started";
  created_at = "t0";
}

abbrev policy : ReadinessPolicy
policy = record {
  id = "rp-1";
  org_id = "org-1";
  environment_id = "env-1";
  name = "release";
  required_scenario_ids = [];
  pass_condition = "all_pass";
  enabled = true;
  version = 1;
  change_history = [];
  created_at = "t0";
}

abbrev stored : GateStorage String
stored = record {
  vrs = ("vr-1", "deny") ∷ [];
  scenarios = ("sc-1", scenario) ∷ [];
  scenario_runs = [];
  readiness_policies = ("rp-1", policy) ∷ [];
  readiness_checks = [];
  release_gate_results = [];
  proof_certs = [];
}

abbrev gate_draw : GateDraw
gate_draw = record {
  run_hex = "a1";
  check_hex = "a2";
  claim_hex = "a3";
  certificate_hex = "a4";
  proof_hex = "a5";
  uuid_hex = "a6";
  gate_hex = "a7";
  policy_hex = "a8";
  now = "t1";
}

check_release-Released_example :
    Released replays signing gate_draw "v2" "org-1" "env-1" end "rp-1" stored
unfolding check_release run_check run run_one mark_all run_summary with_status
    issue_proof_of_readiness generate_certificate certificate_with sign signed_text without elem
    signing_algorithm field? get_scenario list_scenarios create_scenario create_scenario_run
    get_scenario_run get_readiness_policy create_readiness_check create_release_gate_result
    create_proof_certificate get put values keep
check_release-Released_example =
    check_release-Released replays signing gate_draw "v2" "org-1" "env-1" end "rp-1" stored refl

run_marks_foreign_example :
    (run_one replays "org-2" end stored "sc-1" ≡ not_found "sc-1")
    × (get_scenario "sc-1" (run replays gate_draw ("sc-1" ∷ []) "v2" "org-2" "env-1" end stored).1
        ≡ some (record scenario { last_run_status = "errored" }))
unfolding get_scenario get
run_marks_foreign_example =
    run_marks_foreign replays gate_draw "v2" "org-2" "env-1" end stored scenario refl refl
