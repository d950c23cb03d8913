-- ===== src/Services/Actions.antt =====
-- `ActionEligibilityService` and `KnownLimitationService` of
-- src/notary_platform/services/services.py: what may be done with a verification record. `repr` is
-- Python's text of a list of texts. The theorems are in the module below.
pub mod Proofs
use notary_platform.Prelude.{
  String, Bool, true, false, not, ◌&&◌, ◌||◌, ◌==◌, Option, none, some, List, [], ◌∷◌, ◌++◌,
  if◌then◌else◌, nonblank, nonempty, any, keep, last, map, ◌<>◌,
}
use notary_platform.Dict.{Dict, get, values}
use notary_platform.Services.Replayability.{
  VerificationRecord, KnownLimitation, ReplayabilityStatus, evidence_only, missing_context,
  has_cassette,
}

-- the fields that the services read
pub record HumanLabel : Type 0 where
  pub id : String
  pub status : String

pub record ReplayRun : Type 0 where
  pub id : String
  pub verification_record_id : String
  pub status : String
  pub known_limitations : List KnownLimitation

pub record MutationTest : Type 0 where
  pub id : String
  pub verification_record_id : String
  pub verdict : String
  pub known_limitations : List KnownLimitation

-- the collections of `MemoryStorage` that the services read
pub record VerificationStorage : Type 0 where
  pub vrs : Dict VerificationRecord
  pub labels : Dict HumanLabel
  pub replay_runs : Dict ReplayRun
  pub mutation_tests : Dict MutationTest

unfoldable pub get_vr : String → VerificationStorage → Option VerificationRecord
unfolding get
get_vr vr_id s = get vr_id s.vrs

unfoldable pub get_label : String → VerificationStorage → Option HumanLabel
unfolding get
get_label label_id s = get label_id s.labels

unfoldable pub list_replay_runs_for_vr : String → VerificationStorage → List ReplayRun
unfolding keep values
list_replay_runs_for_vr vr_id s =
    keep (λ r. r.verification_record_id == vr_id) (values s.replay_runs)

unfoldable pub list_mutation_tests_for_vr : String → VerificationStorage → List MutationTest
unfolding keep values
list_mutation_tests_for_vr vr_id s =
    keep (λ t. t.verification_record_id == vr_id) (values s.mutation_tests)

-- A flag is the dict that `KnownLimitation.to_dict` wrote: it has a code and no component,
-- description or location.
unfoldable pub from_flag : KnownLimitation → KnownLimitation
from_flag f = record {
  code = f.code;
  severity = f.severity;
  message = "";
  subject = "";
  certificate_blocking = f.severity == "NON_DETERMINISTIC_CORE";
  remediation = f.remediation;
}

abbrev pub replay_limitations : Option ReplayRun → List KnownLimitation
replay_limitations none = []
replay_limitations (some run) = run.known_limitations

unfoldable pub from_vr_and_replay : VerificationRecord → Option ReplayRun → List KnownLimitation
unfolding from_flag
from_vr_and_replay vr replay = map from_flag vr.non_deterministic_flags ++ replay_limitations replay

unfoldable pub blocking : List KnownLimitation → List KnownLimitation
unfolding keep
blocking limitations = keep (λ l. l.certificate_blocking) limitations

pub record ActionEligibility : Type 0 where
  pub action : String
  pub eligible : Bool
  pub reason : String
  pub blocking_limitations : List KnownLimitation
  pub next_action : String

abbrev pub refused : (action reason next_action : String) → ActionEligibility
refused action reason next_action = record {
  action = action;
  eligible = false;
  reason = reason;
  blocking_limitations = [];
  next_action = next_action;
}

abbrev pub granted : (action reason : String) → ActionEligibility
granted action reason = record {
  action = action;
  eligible = true;
  reason = reason;
  blocking_limitations = [];
  next_action = "";
}

unfoldable pub check_replay : VerificationRecord → ActionEligibility
unfolding has_cassette
check_replay vr = elim vr.replayability [
  | evidence_only ↦
      refused "replay" "Evidence-only record cannot be replayed" "Review evidence manually"
  | missing_context ↦ refused "replay" "Missing cassette or context" "Capture API/tool responses"
  | _ ↦
      if not (has_cassette vr)
      then refused "replay" "No cassette entries" "Capture API/tool responses"
      else granted "replay" "Cassette replay available"
]

abbrev pub check_label : Option HumanLabel → ActionEligibility
check_label none = refused "mutation" "Missing expected outcome label" "Add or approve label"
check_label (some label) =
    if not (label.status == "active")
    then refused "mutation" "Label not approved" "Approve the label"
    else granted "mutation" "Ready for fix verification"

abbrev pub check_mutation : Option ReplayRun → Option HumanLabel → ActionEligibility
check_mutation none label = refused "mutation" "Replay not run" "Run replay first"
check_mutation (some run) label =
    if not (run.status == "replayed")
    then refused "mutation" ("Replay status: " <> run.status) "Resolve replay blockers"
    else check_label label

unfoldable pub check_limitations : (List String → String) → List KnownLimitation → ActionEligibility
check_limitations repr blocked =
    if nonempty blocked
    then record {
      action = "issue_proof";
      eligible = false;
      reason = "Certificate-blocking limitations: " <> repr (map (λ l. l.code) blocked);
      blocking_limitations = blocked;
      next_action = "Resolve certificate-blocking limitations";
    }
    else granted "issue_proof" "Ready to issue proof"

abbrev pub check_issue_proof :
    (List String → String)
    → VerificationRecord
    → Option ReplayRun
    → Option MutationTest
    → ActionEligibility
check_issue_proof repr vr replay none =
    refused "issue_proof" "Mutation test not run" "Run mutation test"
check_issue_proof repr vr replay (some test) =
    if not (test.verdict == "verified")
    then refused "issue_proof" ("Mutation not verified: " <> test.verdict)
        "Fix the agent and re-run mutation"
    else check_limitations repr (blocking (from_vr_and_replay vr replay ++ test.known_limitations))

abbrev pub check_scenario_label : Option HumanLabel → ActionEligibility
check_scenario_label none = refused "promote_to_scenario" "Approved label required" "Add label"
check_scenario_label (some label) = granted "promote_to_scenario" "Ready to promote to scenario"

abbrev pub check_scenario : Option MutationTest → Option HumanLabel → ActionEligibility
check_scenario none label =
    refused "promote_to_scenario" "Verified mutation required" "Run and verify mutation"
check_scenario (some test) label =
    if not (test.verdict == "verified")
    then refused "promote_to_scenario" "Verified mutation required" "Run and verify mutation"
    else check_scenario_label label

abbrev pub label_of : VerificationRecord → VerificationStorage → Option HumanLabel
label_of vr s = if nonblank vr.current_label_id then get_label vr.current_label_id s else none

unfoldable pub check_found :
    (List String → String)
    → (vr_id action : String) → VerificationStorage
    → Option VerificationRecord
    → ActionEligibility
check_found repr vr_id action s none = refused action "Verification Record not found" ""
check_found repr vr_id action s (some vr) =
    let label = label_of vr s in
    let latest_replay = last (list_replay_runs_for_vr vr_id s) in
    let latest_mutation = last (list_mutation_tests_for_vr vr_id s) in
    if action == "replay"
    then check_replay vr
    else if action == "mutation"
    then check_mutation latest_replay label
    else if action == "issue_proof"
    then check_issue_proof repr vr latest_replay latest_mutation
    else if action == "promote_to_scenario"
    then check_scenario latest_mutation label
    else refused action ("Unknown action: " <> action) ""

unfoldable pub check :
    (List String → String) → (vr_id action : String) → VerificationStorage → ActionEligibility
unfolding check_found
check repr vr_id action s = check_found repr vr_id action s (get_vr vr_id s)
