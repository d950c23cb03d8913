-- ===== src/Services/Replayability/Status.antt =====
-- What the status and the score of `ReplayabilityService.assess`
-- (src/notary_platform/services/services.py) say of a verification record, and of each other.
use notary_platform.Prelude.{
  ℕ, ◌+◌, ◌-◌, ◌≤◌, String, ◌≡◌, ◌↔◌, Bool, true, false, not, ◌&&◌, ◌||◌, arith, any, if◌then◌else◌,
}
use notary_platform.Services.Replayability.{
  VerificationRecord, is_replayable, has_llm, has_cassette, has_decision, has_label,
  deterministic_llm, limitations, penalty_of, flags_of, found_in, compute_determinism, state_of,
  assess,
}

state_of-replayable :
    (llm cassette decided label : Bool)
    → (is_replayable (state_of llm cassette decided label).state ≡ true)
      ↔ ((cassette ≡ true) × (decided ≡ true) × (label ≡ true))
unfolding state_of
state_of-replayable llm cassette decided label = ground arith

-- A record is assessed as replayable exactly when it holds a recorded response, a decision, and a
-- label of the expected outcome, with or without a model call.
pub assess-replayable :
    (percent : ℕ → String) (vr : VerificationRecord)
    → (is_replayable (assess percent vr).0.state ≡ true)
      ↔ ((has_cassette vr ≡ true) × (has_decision vr ≡ true) × (has_label vr ≡ true))
unfolding assess
assess-replayable percent vr =
    state_of-replayable (has_llm vr) (has_cassette vr) (has_decision vr) (has_label vr)

-- the penalty, condition by condition
abbrev pub llm_penalty : Bool → Bool → ℕ
llm_penalty llm deterministic = if llm then (if deterministic then 2 else 6) else 0

penalty-limitations :
    (llm deterministic cassette label decided : Bool)
    → penalty_of (limitations llm deterministic cassette label decided)
      ≡ llm_penalty llm deterministic
        + ((if cassette then 0 else 4) + ((if label then 0 else 3) + (if decided then 0 else 2)))
unfolding limitations penalty_of
penalty-limitations llm deterministic cassette label decided = ground arith

-- The score stays between 0.25 and 1.0, so the source's `max` and `min` never change it.
pub compute_determinism_bounds :
    (vr : VerificationRecord)
    → (5 ≤ (compute_determinism vr).0)
      × ((compute_determinism vr).0 ≤ 20)
      × (penalty_of (found_in vr) ≤ 20)
unfolding compute_determinism found_in
compute_determinism_bounds vr =
    let p =
      penalty-limitations (has_llm vr) (deterministic_llm vr) (has_cassette vr) (has_label vr)
        (has_decision vr) in
    ground arith

-- The score of a replayable record is 1.0 less what its model calls cost: nothing without one, 0.1
-- where each has temperature 0 and a seed, and 0.3 otherwise.
pub replayable_score :
    (percent : ℕ → String) (vr : VerificationRecord)
    → is_replayable (assess percent vr).0.state ≡ true
    → (assess percent vr).1.replayability_score
      ≡ 20 - llm_penalty (has_llm vr) (deterministic_llm vr)
unfolding assess compute_determinism found_in
replayable_score percent vr h =
    let parts = (assess-replayable percent vr).0 h in
    let p =
      penalty-limitations (has_llm vr) (deterministic_llm vr) (has_cassette vr) (has_label vr)
        (has_decision vr) in
    ground arith

blocking-limitations :
    (llm deterministic cassette label decided : Bool)
    → any
        (λ f. f.certificate_blocking)
        (flags_of (limitations llm deterministic cassette label decided))
      ≡ not ((not llm || deterministic) && (cassette && (label && decided)))
unfolding limitations flags_of any
blocking-limitations llm deterministic cassette label decided = ground arith

-- No flag blocks the certificate exactly when the record is replayable and each of its model calls,
-- if it has any, has temperature 0 and a seed.
pub blocking_iff :
    (percent : ℕ → String) (vr : VerificationRecord)
    → (any (λ f. f.certificate_blocking) (assess percent vr).1.non_deterministic_flags ≡ false) ↔ (
        (is_replayable (assess percent vr).0.state ≡ true)
        × ((not (has_llm vr) || deterministic_llm vr) ≡ true))
unfolding assess compute_determinism found_in
blocking_iff percent vr =
    let a = state_of-replayable (has_llm vr) (has_cassette vr) (has_decision vr) (has_label vr) in
    let b =
      blocking-limitations (has_llm vr) (deterministic_llm vr) (has_cassette vr) (has_label vr)
        (has_decision vr) in
    ground arith
