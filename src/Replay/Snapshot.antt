-- ===== src/Replay/Snapshot.antt =====
-- `replay_snapshot` of src/notary_platform/replay_engine/replay.py and `run_mutation` of
-- src/notary_platform/replay_engine/mutation.py. An agent is the sequence of its lookups, each
-- depending on the answers before it. The theorems are in the module below.
pub mod Verdict
use notary_platform.Prelude.{
  ℕ, zero, suc, ◌+◌, String, Bool, true, false, not, ◌&&◌, ◌||◌, ◌==◌, Option, none, some, List, [],
  ◌∷◌, ◌++◌, length, if◌then◌else◌, nonempty, next, ◌<>◌, keep, show, nat_eq,
}
use notary_platform.Dict.{or_else}
use notary_platform.Replay.Cassette.{
  Ops, Request, dict, other, Call, Answer, Element, ResponseCassette, ReplayExecutionEvent, is_call,
  new_cassette, lookup, unconsumed_count,
}

-- What `agent_fn(cassette=cassette, **kwargs)` does: return a decision or None, raise, or look a
-- call up and go on with the answer. The decision is the text that `str` makes of it.
pub data Agent : Type 0 where
  done : Option String → Agent
  raises : (message : String) → Agent
  asks : Call → (Option Answer → Agent) → Agent

pub data Outcome : Type 0 where
  returned : Option String → Outcome
  raised : (message : String) → Outcome

unfoldable pub run_agent : Ops → Agent → ResponseCassette → Outcome × ResponseCassette
unfolding lookup
run_agent ops (done decision) c = (returned decision, c)
run_agent ops (raises message) c = (raised message, c)
run_agent ops (asks call next_step) c =
    let (answer, c') = lookup ops call c in run_agent ops (next_step answer) c'

pub data ReplayStatus : Type 0 where
  replayed : ReplayStatus
  escalation_required : (reason : String) → ReplayStatus
  error : (message : String) → ReplayStatus

pub record ReplayResult : Type 0 where
  pub decision : Option String
  pub replay_status : ReplayStatus
  pub misses : List Call
  pub unconsumed_entries : ℕ
  pub events : List ReplayExecutionEvent

abbrev pub event : (step source expected actual status : String) → ℕ → ReplayExecutionEvent
event step source expected actual status sequence = record {
  step = step;
  source = source;
  expected = expected;
  actual = actual;
  status = status;
  sequence = sequence;
}

abbrev pub of_kind : String → List Element → Option Element
of_kind kind elements = next (λ e. e.kind == kind) elements

abbrev pub method_shown : Request → String
method_shown (dict method url body) = or_else method "POST"
method_shown (other written) = "POST"

abbrev pub url_shown : Request → String
url_shown (dict method url body) = or_else url "—"
url_shown (other written) = "—"

abbrev pub applicant_facts : Option Element → ℕ → List ReplayExecutionEvent
applicant_facts none sequence = []
applicant_facts (some e) sequence =
    event "Applicant facts loaded" "sealed input" "match" (or_else e.applicant_id "—") "pass"
      sequence
    ∷ []

-- one event for each recorded call, numbered from `sequence` on; `i` is the loop's counter
unfoldable pub entry_events : (i sequence : ℕ) → List Element → List ReplayExecutionEvent
unfolding show
entry_events i sequence [] = []
entry_events i sequence (e ∷ rest) =
    event ("Cassette entry " <> show (i + 1)) "cassette"
      (method_shown e.request <> " " <> url_shown e.request) "recorded" "pass" sequence
    ∷ entry_events (suc i) (suc sequence) rest

abbrev pub policy_version : Option Element → ℕ → List ReplayExecutionEvent
policy_version none sequence = []
policy_version (some e) sequence =
    event "Policy version loaded" "sealed metadata" (or_else e.version "—") (or_else e.version "—")
      "pass" sequence
    ∷ []

abbrev pub decision_text : Option Element → String
decision_text none = "—"
decision_text (some e) = or_else e.decision "—"

-- the number of the event "Cassette selected", which the cassette's own events count from too
abbrev pub cassette_sequence : List Element → ℕ
cassette_sequence elements = 2 + length (applicant_facts (of_kind "input" elements) 1)

unfoldable pub events_before : List Element → List ReplayExecutionEvent
unfolding show entry_events keep is_call next
events_before elements =
    let input = applicant_facts (of_kind "input" elements) 1 in
    let calls = keep is_call elements in
    let start = cassette_sequence elements in
    let policy = policy_version (of_kind "policy" elements) (start + 1 + length calls) in
    (event "Sealed inputs loaded" "snapshot" (show (length elements) <> " elements") "loaded" "pass"
        0
      ∷ input)
    ++ ((event "Cassette selected" "cassette" (show (length calls) <> " recorded calls") "built"
            "pass" start
          ∷ entry_events 0 (start + 1) calls)
        ++ (policy
            ++ (event "Execute replay agent" "replay" "agent_fn(cassette=cassette)" "running"
                  "running" (start + 1 + length calls + length policy)
                ∷ [])))

-- the number of the first event after the agent has run
abbrev pub sequence_after : List Element → ℕ
sequence_after elements =
    cassette_sequence elements
    + 2
    + length (keep is_call elements)
    + length (policy_version (of_kind "policy" elements) 0)

unfoldable pub verdict_events :
    (original replayed_decision : String) → ℕ → List ReplayExecutionEvent
verdict_events original replayed_decision sequence =
    event "Model/agent decision reconstructed" "replay" original replayed_decision "pass" sequence
    ∷ event "Original decision compared to replayed decision" "comparison" original
        replayed_decision (if replayed_decision == original then "reproduced" else "diverged")
        (sequence + 1)
    ∷ event "Replay verdict" "comparison" "reproduce known failure"
        (if replayed_decision == original then "reproduced" else "diverged")
        (if replayed_decision == original then "replayed" else "diverged") (sequence + 2)
    ∷ []

-- what follows the agent's run: the result, and the events that come with it
unfoldable pub conclude : Bool → (original : String) → ℕ → Outcome × ResponseCassette → ReplayResult
unfolding show verdict_events
conclude strict_order original sequence (raised message, c) = record {
  decision = none;
  replay_status = error message;
  misses = [];
  unconsumed_entries = 0;
  events =
      event "Agent execution error" "replay" "agent_fn completes" ("error: " <> message) "error"
        sequence
      ∷ [];
}
conclude strict_order original sequence (returned decision, c) =
    if strict_order && nonempty c.misses
    then record {
      decision = decision;
      replay_status = escalation_required "agent call did not match cassette order";
      misses = c.misses;
      unconsumed_entries = 0;
      events =
          event "Cassette strict-order miss" "cassette" "all calls matched in order"
            ("misses: " <> show (length c.misses)) "escalation_required" sequence
          ∷ [];
    }
    else if strict_order && not (nat_eq (unconsumed_count c) 0)
    then record {
      decision = decision;
      replay_status = escalation_required "agent did not consume all cassette entries";
      misses = [];
      unconsumed_entries = unconsumed_count c;
      events =
          event "Cassette unconsumed entries" "cassette" "all entries consumed"
            (show (unconsumed_count c) <> " unused") "escalation_required" sequence
          ∷ [];
    }
    else record {
      decision = decision;
      replay_status = replayed;
      misses = [];
      unconsumed_entries = 0;
      events = verdict_events original (or_else decision "—") sequence;
    }

unfoldable pub ran :
    Ops → List Element → Agent → (strict_order has_callback : Bool) → Outcome × ResponseCassette
unfolding run_agent new_cassette
ran ops elements agent strict_order has_callback =
    run_agent ops agent
      (new_cassette ops elements strict_order has_callback (cassette_sequence elements))

-- with the events in the order in which the callback receives them
unfoldable pub replay_snapshot :
    Ops → List Element → Agent → (strict_order has_callback : Bool) → ReplayResult
unfolding conclude events_before ran
replay_snapshot ops elements agent strict_order has_callback =
    let run = ran ops elements agent strict_order has_callback in
    let result =
      conclude strict_order (decision_text (of_kind "decision" elements)) (sequence_after elements)
        run in
    record result {
      events =
          if has_callback then events_before elements ++ (run.1.events ++ result.events) else [];
    }

pub record Mutation : Type 0 where
  pub original_decision : Option String
  pub mutated_decision : Option String
  pub decision_changed : Bool
  pub mitigated : Bool
  pub replay_status : ReplayStatus

abbrev pub same_decision : Option String → Option String → Bool
same_decision none none = true
same_decision none (some b) = false
same_decision (some a) none = false
same_decision (some a) (some b) = a == b

-- `agent` is the agent with its own arguments, `fixed` the agent with the fix's as well
unfoldable pub run_mutation : Ops → List Element → (agent fixed : Agent) → String → Mutation
unfolding replay_snapshot
run_mutation ops elements agent fixed expected_correct_behavior =
    let original = replay_snapshot ops elements agent false false in
    let mutated = replay_snapshot ops elements fixed false false in
    let changed = not (same_decision original.decision mutated.decision) in
    record {
      original_decision = original.decision;
      mutated_decision = mutated.decision;
      decision_changed = changed;
      mitigated = changed && same_decision mutated.decision (some expected_correct_behavior);
      replay_status = mutated.replay_status;
    }
