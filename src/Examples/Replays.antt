-- ===== src/Examples/Replays.antt =====
-- The replay of two recorded calls.
use notary_platform.Prelude.{
  ℕ, ◌≡◌, refl, List, true, false, none, some, String, [], ◌∷◌, map, keep, elem, is_some,
  if◌then◌else◌,
}
use notary_platform.Value.{num}
use notary_platform.Replay.Cassette.{
  Ops, dict, Element, Entry, ResponseCassette, answer_of, new_cassette, recorded_entries, is_call,
  call_signature, lookup, lookups, served, matches, unconsumed_count,
}
use notary_platform.Replay.Cassette.Strict.{strict_replay}
use notary_platform.Replay.Cassette.Recorded.{recorded_call_answered}
use notary_platform.Replay.Snapshot.{
  Agent, asks, done, raises, run_agent, replayed, replay_snapshot, cassette_sequence,
}
use notary_platform.Replay.Snapshot.Verdict.{
  strict_replay_accepts, strict_replay_sound, Follows, asked,
}

-- signatures that are the texts themselves
abbrev ops : Ops
ops = record { upper = λ t. t; sha256 = λ t. t; str = λ v. "v" }

abbrev call_element : String → ℕ → Element
call_element url n = record {
  kind = "http";
  request = dict (some "GET") (some url) none;
  response = num n;
  status = num 200;
  applicant_id = none;
  version = none;
  decision = none;
}

abbrev decision_element : Element
decision_element = record (call_element "" 0) { kind = "decision"; decision = some "deny" }

abbrev snapshot : List Element
snapshot = call_element "/score" 610 ∷ call_element "/income" 40 ∷ decision_element ∷ []

abbrev score : Entry
score = record {
  call = record { method = "GET"; url = "/score"; body = none };
  response = num 610;
  status = num 200;
}

abbrev income : Entry
income = record {
  call = record { method = "GET"; url = "/income"; body = none };
  response = num 40;
  status = num 200;
}

abbrev cassette : ResponseCassette
cassette = new_cassette ops snapshot true true 2

-- asks for the income only where there is a score
abbrev agent : Agent
agent = asks score.call (λ answer.
    if is_some answer then asks income.call (λ found. done (some "deny")) else raises "no score")

strict_replay_accepts_example :
    (replay_snapshot ops snapshot agent true true).replay_status ≡ replayed
unfolding run_agent asked lookup served matches new_cassette recorded_entries keep
strict_replay_accepts_example =
    strict_replay_accepts ops snapshot agent true (some "deny") (refl, (refl, tt)) refl

strict_replay_sound_example :
    Follows ops
      (recorded_entries snapshot)
      (asked ops agent (new_cassette ops snapshot true true (cassette_sequence snapshot)))
strict_replay_sound_example =
    strict_replay_sound ops snapshot agent true strict_replay_accepts_example

strict_replay_example :
    ((lookups ops (map (λ e. e.call) (score ∷ income ∷ [])) cassette).0
      ≡ map (λ e. some (answer_of e)) (score ∷ income ∷ []))
    × (((lookups ops (map (λ e. e.call) (score ∷ income ∷ [])) cassette).1.misses ≡ cassette.misses)
        × (unconsumed_count (lookups ops (map (λ e. e.call) (score ∷ income ∷ [])) cassette).1 ≡ 0))
unfolding new_cassette recorded_entries is_call keep elem
strict_replay_example = strict_replay ops (score ∷ income ∷ []) cassette refl refl

recorded_call_answered_example :
    (lookup ops score.call (new_cassette ops snapshot false true 2)).0 ≡ some (answer_of score)
unfolding recorded_entries is_call keep elem call_signature
recorded_call_answered_example =
    recorded_call_answered ops snapshot true 2 [] (income ∷ []) score refl (refl, tt)
