-- ===== src/Examples/Services.antt =====
-- The replayability of one verification record.
use notary_platform.Prelude.{
  last, nonempty, ◌&&◌, ◌≡◌, ◌↔◌, ◌≤◌, ◌||◌, not, refl, true, none, some, [], ◌∷◌, show,
}
use notary_platform.Services.Replayability.{
  EventKind, unknown, model_call, api_response, decision, ModelParameters, AiExecutionEvent,
  VerificationRecord, has_llm, has_cassette, has_decision, deterministic_llm, compute_determinism,
  penalty_of, found_in, assess,
}
use notary_platform.Dict.{get}
use notary_platform.Services.Actions.{
  VerificationStorage, check, blocking, from_vr_and_replay, get_vr, list_replay_runs_for_vr,
  list_mutation_tests_for_vr,
}
use notary_platform.Services.Actions.Proofs.{IsProven, issue_proof_iff, blocking-assess}
use notary_platform.Services.Replayability.Status.{compute_determinism_bounds}

abbrev no_parameters : ModelParameters
no_parameters = record { temperature = none; seed = none }

abbrev event_of : EventKind → AiExecutionEvent
event_of kind = record { kind = kind; payload = no_parameters; metadata = no_parameters }

-- a model call that sets its seed in the payload and its temperature in the metadata
abbrev seeded_call : AiExecutionEvent
seeded_call = record {
  kind = model_call;
  payload = record { temperature = none; seed = some (some 7) };
  metadata = record { temperature = some (some 0); seed = none };
}

abbrev labelled : VerificationRecord
labelled = record {
  id = "vr-1";
  replayability = unknown;
  events = seeded_call ∷ event_of api_response ∷ event_of decision ∷ [];
  current_label_id = "label-1";
  replayability_score = 0;
  non_deterministic_flags = [];
  defensibility_summary = "";
}

compute_determinism_bounds_example :
    (5 ≤ (compute_determinism labelled).0)
    × ((compute_determinism labelled).0 ≤ 20)
    × (penalty_of (found_in labelled) ≤ 20)
compute_determinism_bounds_example = compute_determinism_bounds labelled

abbrev stored : VerificationStorage
stored = record {
  vrs = ("vr-1", labelled) ∷ [];
  labels = ("label-1", record { id = "label-1"; status = "active" }) ∷ [];
  replay_runs = [];
  mutation_tests =
      (
        "mt-1",
        record {
          id = "mt-1";
          verification_record_id = "vr-1";
          verdict = "verified";
          known_limitations = [];
        },
      )
      ∷ [];
}

issue_proof_iff_example :
    ((check (λ codes. "codes") "vr-1" "issue_proof" stored).eligible ≡ true)
    ↔ IsProven labelled
        (last (list_replay_runs_for_vr "vr-1" stored))
        (last (list_mutation_tests_for_vr "vr-1" stored))
unfolding get_vr get
issue_proof_iff_example = issue_proof_iff (λ codes. "codes") "vr-1" stored labelled refl

blocking-assess_example : nonempty (blocking (from_vr_and_replay (assess show labelled).1 none)) ≡ (
    (has_llm labelled && not (deterministic_llm labelled))
    || (not (has_cassette labelled) || not (has_decision labelled)))
blocking-assess_example = blocking-assess show labelled
