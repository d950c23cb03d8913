-- ===== src/Services/Actions/Proofs.antt =====
-- When `ActionEligibilityService.check` (src/notary_platform/services/services.py) lets a proof be
-- issued, and what it makes of the flags of `ReplayabilityService`.
use notary_platform.Prelude.{
  ℕ, String, ◌≡◌, refl, ◌↔◌, Bool, true, false, not, ◌&&◌, ◌||◌, ◌==◌, Bool-cases, inl, inr, Option,
  none, some, List, [], ◌∷◌, ◌++◌, nonempty, keep, last, map, arith,
}
use notary_platform.Services.Replayability.{
  VerificationRecord, KnownLimitation, has_llm, has_cassette, has_decision, has_label,
  deterministic_llm, limitations, flags_of, found_in, compute_determinism, assess,
}
use notary_platform.Services.Actions.{
  VerificationStorage, ReplayRun, MutationTest, get_vr, list_replay_runs_for_vr,
  list_mutation_tests_for_vr, from_flag, from_vr_and_replay, blocking, check_limitations,
  check_issue_proof, check,
}

check_limitations-eligible :
    (repr : List String → String) (blocked : List KnownLimitation)
    → (check_limitations repr blocked).eligible ≡ not (nonempty blocked)
unfolding check_limitations
check_limitations-eligible repr [] = refl
check_limitations-eligible repr (l ∷ ls) = refl

-- The latest mutation test is verified and nothing blocks a certificate.
abbrev pub IsProven : VerificationRecord → Option ReplayRun → Option MutationTest → Type 0
IsProven vr replay none = ⊥
IsProven vr replay (some test) =
    (test.verdict == "verified" ≡ true)
    × (nonempty (blocking (from_vr_and_replay vr replay ++ test.known_limitations)) ≡ false)

check_issue_proof_iff :
    (repr : List String → String) (vr : VerificationRecord) (replay : Option ReplayRun)
    (mutation : Option MutationTest)
    → ((check_issue_proof repr vr replay mutation).eligible ≡ true) ↔ IsProven vr replay mutation
check_issue_proof_iff repr vr replay none = ground arith
check_issue_proof_iff repr vr replay (some test) =
    let b = blocking (from_vr_and_replay vr replay ++ test.known_limitations) in
    elim (Bool-cases (test.verdict == "verified")) [
      | inr other ↦ rw other (ground arith)
      | inl verified ↦ rw (verified, check_limitations-eligible repr b) (ground arith)
    ]

-- A proof may be issued for a stored record exactly when its latest mutation test is verified and
-- no limitation of the record, of its latest replay or of that test blocks a certificate.
pub issue_proof_iff :
    (repr : List String → String) (vr_id : String) (s : VerificationStorage)
    (vr : VerificationRecord)
    → get_vr vr_id s ≡ some vr
    → ((check repr vr_id "issue_proof" s).eligible ≡ true)
      ↔ IsProven vr
          (last (list_replay_runs_for_vr vr_id s))
          (last (list_mutation_tests_for_vr vr_id s))
unfolding check
issue_proof_iff repr vr_id s vr found = rw found (
    check_issue_proof_iff repr vr (last (list_replay_runs_for_vr vr_id s))
      (last (list_mutation_tests_for_vr vr_id s)))

blocking-from_flag :
    (llm deterministic cassette label decided : Bool)
    → nonempty (
        blocking
          (map from_flag (flags_of (limitations llm deterministic cassette label decided)) ++ []))
      ≡ ((llm && not deterministic) || (not cassette || not decided))
unfolding blocking from_flag limitations flags_of keep
blocking-from_flag true false cassette label decided = refl
blocking-from_flag false deterministic false label decided = refl
blocking-from_flag false deterministic true true true = refl
blocking-from_flag false deterministic true true false = refl
blocking-from_flag false deterministic true false true = refl
blocking-from_flag false deterministic true false false = refl
blocking-from_flag true true false label decided = refl
blocking-from_flag true true true true true = refl
blocking-from_flag true true true true false = refl
blocking-from_flag true true true false true = refl
blocking-from_flag true true true false false = refl

-- What blocks a certificate for an assessed record that has not been replayed: a model call without
-- temperature 0 and a seed, no recorded response, or no decision. A missing label of the expected
-- outcome does not, although the flag that the assessment stores for it is marked as blocking.
pub blocking-assess :
    (percent : ℕ → String) (vr : VerificationRecord)
    → nonempty (blocking (from_vr_and_replay (assess percent vr).1 none)) ≡ (
        (has_llm vr && not (deterministic_llm vr))
        || (not (has_cassette vr) || not (has_decision vr)))
unfolding assess compute_determinism found_in from_vr_and_replay
blocking-assess percent vr =
    blocking-from_flag (has_llm vr) (deterministic_llm vr) (has_cassette vr) (has_label vr)
      (has_decision vr)
