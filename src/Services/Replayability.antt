-- ===== src/Services/Replayability.antt =====
-- `ReplayabilityService` of src/notary_platform/services/services.py: the replayability status of a
-- verification record and its determinism score. Penalties and the score are counted in twentieths,
-- so the score 1.0 is 20; the source computes them as floats, which are exact where it compares
-- them. `percent` is the text of `int(score * 100)`. The theorems are in the module below.
pub mod Status
use notary_platform.Prelude.{
  ℕ, ◌+◌, ◌-◌, String, Bool, true, false, not, ◌&&◌, ◌||◌, Option, none, some, List, [], ◌∷◌, ◌++◌,
  leb, nat_eq, if◌then◌else◌, nonblank, nonempty, any, all, keep, ◌<>◌,
}

-- `AIExecutionEvent` of the source is spelled `AiExecutionEvent` here.

pub data EventKind : Type 0 where
  model_call : EventKind
  tool_call : EventKind
  api_response : EventKind
  retrieval : EventKind
  policy_check : EventKind
  guardrail_check : EventKind
  human_action : EventKind
  decision : EventKind
  side_effect : EventKind
  evaluation_result : EventKind
  timestamp : EventKind
  rng_seed : EventKind

pub data ReplayabilityStatus : Type 0 where
  replayable : ReplayabilityStatus
  partially_replayable : ReplayabilityStatus
  evidence_only : ReplayabilityStatus
  missing_context : ReplayabilityStatus
  requires_sandbox : ReplayabilityStatus
  requires_human_label : ReplayabilityStatus
  blocked : ReplayabilityStatus
  unknown : ReplayabilityStatus

-- `temperature` and `seed` of a payload, or of its metadata: `none` where the key is missing,
-- `some none` where the value is None. The temperature is in thousandths.
pub record ModelParameters : Type 0 where
  pub temperature : Option (Option ℕ)
  pub seed : Option (Option ℕ)

pub record AiExecutionEvent : Type 0 where
  pub kind : EventKind
  pub payload : ModelParameters
  pub metadata : ModelParameters

pub record KnownLimitation : Type 0 where
  pub code : String
  pub severity : String
  pub message : String
  pub subject : String
  pub certificate_blocking : Bool
  pub remediation : String

-- the fields of a verification record that this service and `ActionEligibilityService` read or
-- write
pub record VerificationRecord : Type 0 where
  pub id : String
  pub events : List AiExecutionEvent
  pub replayability : ReplayabilityStatus
  pub current_label_id : String
  pub replayability_score : ℕ
  pub non_deterministic_flags : List KnownLimitation
  pub defensibility_summary : String

abbrev pub is_model_call : AiExecutionEvent → Bool
is_model_call e = elim e.kind [ model_call ↦ true | _ ↦ false ]

abbrev pub is_recorded : AiExecutionEvent → Bool
is_recorded e = elim e.kind [ tool_call ↦ true | api_response ↦ true | _ ↦ false ]

abbrev pub is_decision : AiExecutionEvent → Bool
is_decision e = elim e.kind [ decision ↦ true | _ ↦ false ]

-- payload.get(key, metadata.get(key))
abbrev pub get_or : Option (Option ℕ) → Option (Option ℕ) → Option ℕ
get_or (some v) otherwise = v
get_or none (some v) = v
get_or none none = none

abbrev pub is_zero : Option ℕ → Bool
is_zero none = false
is_zero (some n) = nat_eq n 0

abbrev pub is_given : Option ℕ → Bool
is_given none = false
is_given (some n) = true

unfoldable pub deterministic_llm_payload : AiExecutionEvent → Bool
deterministic_llm_payload e =
    is_zero (get_or e.payload.temperature e.metadata.temperature)
    && is_given (get_or e.payload.seed e.metadata.seed)

unfoldable pub has_llm : VerificationRecord → Bool
unfolding any
has_llm vr = any is_model_call vr.events

unfoldable pub has_cassette : VerificationRecord → Bool
unfolding any
has_cassette vr = any is_recorded vr.events

unfoldable pub has_decision : VerificationRecord → Bool
unfolding any
has_decision vr = any is_decision vr.events

abbrev pub has_label : VerificationRecord → Bool
has_label vr = nonblank vr.current_label_id

unfoldable pub deterministic_llm : VerificationRecord → Bool
unfolding all keep deterministic_llm_payload
deterministic_llm vr = all deterministic_llm_payload (keep is_model_call vr.events)

abbrev pub limitation : (code severity message subject : String) → Bool → String → KnownLimitation
limitation code severity message subject certificate_blocking remediation = record {
  code = code;
  severity = severity;
  message = message;
  subject = subject;
  certificate_blocking = certificate_blocking;
  remediation = remediation;
}

-- each limitation with its penalty, in the order in which they are found
unfoldable pub limitations :
    (llm deterministic cassette label decided : Bool) → List (ℕ × KnownLimitation)
limitations llm deterministic cassette label decided =
    (if llm
      then (if deterministic
          then (
            2,
            limitation "llm_call" "NON_DETERMINISTIC_SIDE_EFFECT"
                "LLM uses temp=0 and seed; outputs should be reproducible but model drift is still possible."
                "model_interaction" false "Pin model version and monitor for drift.",
          )
          else (
            6,
            limitation "llm_call" "NON_DETERMINISTIC_CORE"
                "LLM outputs are non-deterministic. May differ on replay." "model_interaction" true
                "Use temp=0 or seed.",
          ))
        ∷ []
      else [])
    ++ ((if not cassette
          then (
            4,
            limitation "missing_cassette" "NON_DETERMINISTIC_CORE"
                "No recorded API/tool responses. Cannot replay." "external_calls" true
                "Capture all API calls with responses.",
          )
            ∷ []
          else [])
        ++ ((if not label
              then (
                3,
                limitation "missing_label" "NON_DETERMINISTIC_SIDE_EFFECT"
                    "No expected outcome label." "human_review" true
                    "Add approved expected outcome.",
              )
                ∷ []
              else [])
            ++ (if not decided
                then (
                  2,
                  limitation "missing_decision" "NON_DETERMINISTIC_CORE"
                      "No decision event captured." "decision_path" true
                      "Capture final decision in SDK.",
                )
                  ∷ []
                else [])))

unfoldable pub penalty_of : List (ℕ × KnownLimitation) → ℕ
penalty_of [] = 0
penalty_of ((penalty, flag) ∷ rest) = penalty + penalty_of rest

unfoldable pub flags_of : List (ℕ × KnownLimitation) → List KnownLimitation
flags_of [] = []
flags_of ((penalty, flag) ∷ rest) = flag ∷ flags_of rest

-- max(0.0, min(1.0, 1.0 - penalty / total_weight))
abbrev pub score_of : ℕ → ℕ
score_of penalty = 20 - penalty

unfoldable pub found_in : VerificationRecord → List (ℕ × KnownLimitation)
unfolding limitations has_llm deterministic_llm has_cassette has_decision
found_in vr =
    limitations (has_llm vr) (deterministic_llm vr) (has_cassette vr) (has_label vr)
      (has_decision vr)

unfoldable pub compute_determinism : VerificationRecord → ℕ × List KnownLimitation
unfolding found_in penalty_of flags_of
compute_determinism vr = (score_of (penalty_of (found_in vr)), flags_of (found_in vr))

pub record Assessed : Type 0 where
  pub state : ReplayabilityStatus
  pub message : String
  pub missing : List String

abbrev pub assessed : ReplayabilityStatus → String → List String → Assessed
assessed state message missing = record { state = state; message = message; missing = missing }

-- the chain of tests on what the record holds
unfoldable pub state_of : (llm cassette decided label : Bool) → Assessed
state_of llm cassette decided label =
    if llm && not cassette
    then assessed evidence_only
        "LLM outputs are non-deterministic. Replay can verify conditions but not exact outputs." []
    else if not cassette && (not llm && not decided)
    then assessed missing_context
        "No recorded responses, model calls, or decisions found in this record."
        ("cassette_data" ∷ [])
    else if cassette && not label
    then assessed requires_human_label
        "Cassette data is present but no expected outcome label has been added."
        ("human_label" ∷ [])
    else if cassette && (label && decided)
    then assessed replayable
        "All prerequisites met: cassette data, human label, and decision present." []
    else if llm && cassette
    then assessed partially_replayable
        "LLM call present; replay can verify recorded system responses but LLM outputs may differ."
        []
    else assessed unknown "Replayability could not be determined." []

abbrev pub is_replayable : ReplayabilityStatus → Bool
is_replayable state = elim state [ replayable ↦ true | _ ↦ false ]

unfoldable pub summary_of : String → ℕ → ReplayabilityStatus → String
summary_of percent score state =
    if leb 16 score && is_replayable state
    then percent <> "% of the decision path is deterministically re-testable."
    else if leb 10 score
    then percent
      <> "% deterministically re-testable. Remaining relies on sealed evidence assumptions."
    else "Evidence-only: " <> percent
      <> "% deterministically testable. Manual verification required."

unfoldable pub assess : (ℕ → String) → VerificationRecord → Assessed × VerificationRecord
unfolding compute_determinism state_of summary_of has_llm has_cassette has_decision
assess percent vr =
    let (score, flags) = compute_determinism vr in
    let found = state_of (has_llm vr) (has_cassette vr) (has_decision vr) (has_label vr) in
    (
      found,
      record vr {
        replayability_score = score;
        non_deterministic_flags = flags;
        defensibility_summary = summary_of (percent score) score found.state;
      },
    )
