-- ===== src/Sweep/Candidates/Review.antt =====
-- The life of a candidate under review: `record_review` of src/notary_platform/sweep/candidates.py.
use notary_platform.Prelude.{
  String, ◌≡◌, refl, sym, ap, ◌∙◌, Bool, true, false, not, ◌&&◌, ◌||◌, ◌==◌, eq_iff, Bool-cases,
  inl, inr, Option, none, some, arith, nonblank, if◌then◌else◌,
}
use mathlib.Core.Path.{subst}
use notary_platform.Dict.{get, get-put_self, Entries-get}
use notary_platform.Records.Candidate.{AssuranceCandidate}
use notary_platform.Records.Review.{ReviewDecision}
use notary_platform.Storage.{
  MemoryStorage, get_assurance_candidate, update_assurance_candidate, create_review_decision,
}
use notary_platform.Sweep.Candidates.{
  needs_basis, lifecycle_map, move_candidate, review_found, record_review,
}

-- The reviewer's organization is the candidate's, the actor, the role and the decision are given,
-- and so is the basis of a decision that needs one.
abbrev pub is_acceptable : AssuranceCandidate → ReviewDecision → Bool
is_acceptable c d =
    c.org_id == d.org_id
    && (nonblank d.actor
        && (nonblank d.role
            && (nonblank d.decision && (not (needs_basis d.decision) || nonblank d.basis))))

state_nonblank :
    (decision state : String) → get decision lifecycle_map ≡ some state → nonblank state ≡ true
state_nonblank decision state h =
    Entries-get (λ k v. nonblank v ≡ true) decision state lifecycle_map
      (refl, (refl, (refl, (refl, (refl, (refl, tt)))))) h

three_guards :
    {A : Type 0} (a b g : Bool) (x y : A)
    → (if not a then x else if b then x else if g then x else y)
      ≡ (if a && (not b && not g) then y else x)
three_guards true true g x y = refl
three_guards true false true x y = refl
three_guards true false false x y = refl
three_guards false b g x y = refl

module _ (d : ReviewDecision) (c : AssuranceCandidate) (s : MemoryStorage) where
  abbrev reviewed : Option ReviewDecision × MemoryStorage
  reviewed = (some d, move_candidate c (get d.decision lifecycle_map) (create_review_decision d s))

  guards-is_acceptable :
      (c.org_id == d.org_id
        && (not (not (nonblank d.actor) || (not (nonblank d.role) || not (nonblank d.decision)))
            && not (needs_basis d.decision && not (nonblank d.basis))))
      ≡ is_acceptable c d
  guards-is_acceptable = ground arith

  review_found_lem : review_found d s (some c) ≡ (if is_acceptable c d then reviewed else (none, s))
  review_found_lem =
      three_guards (c.org_id == d.org_id)
        (not (nonblank d.actor) || (not (nonblank d.role) || not (nonblank d.decision)))
        (needs_basis d.decision && not (nonblank d.basis)) (none, s) reviewed
      ∙ ap (λ b. if b then reviewed else (none, s)) guards-is_acceptable

move_candidate_lem :
    (c : AssuranceCandidate) (state : String) (s : MemoryStorage)
    → nonblank state ≡ true
    → get_assurance_candidate c.id s ≡ some c
    → get_assurance_candidate c.id (move_candidate c (some state) s)
      ≡ some (record c { lifecycle_state = state })
unfolding get_assurance_candidate update_assurance_candidate
move_candidate_lem c state s given stored = elim (Bool-cases (state == c.lifecycle_state)) [
  | inl same ↦
      rw (given, same)
        (stored ∙ ap (λ t. some (record c { lifecycle_state = t })) (sym ((eq_iff _ _).0 same)))
  | inr other ↦ rw (given, other) (get-put_self c.id _ s.assurance_candidates)
]

module _ (candidate_id : String) (d : ReviewDecision) (c : AssuranceCandidate) (s : MemoryStorage)
    (found : get_assurance_candidate candidate_id s ≡ some c) where
  -- A review of a stored candidate that is not acceptable is refused: nothing is returned and
  -- nothing is stored.
  pub record_review_refused : is_acceptable c d ≡ false → record_review candidate_id d s ≡ (none, s)
  unfolding record_review
  record_review_refused h =
      rw found (review_found_lem d c s ∙ ap (λ b. if b then reviewed d c s else (none, s)) h)

  -- An acceptable review whose decision moves the lifecycle, of a candidate stored under its own
  -- id, is returned, and the candidate is then stored as it was but in the new state.
  pub record_review_accepted :
      (state : String)
      → c.id ≡ candidate_id
      → is_acceptable c d ≡ true
      → get d.decision lifecycle_map ≡ some state
      → ((record_review candidate_id d s).0 ≡ some d)
        × (get_assurance_candidate candidate_id (record_review candidate_id d s).1
            ≡ some (record c { lifecycle_state = state }))
  unfolding record_review
  record_review_accepted state named ok moves =
      let done : record_review candidate_id d s ≡ reviewed d c s =
        rw found (review_found_lem d c s ∙ ap (λ b. if b then reviewed d c s else (none, s)) ok) in
      let stored : get_assurance_candidate c.id (create_review_decision d s) ≡ some c =
        unfold get_assurance_candidate create_review_decision in
        subst (λ k. get k s.assurance_candidates ≡ some c) (sym named) found in
      (
        ap (λ p. p.0) done,
        ap (λ p. get_assurance_candidate candidate_id p.1) done
            ∙ subst
                (λ k.
                  get_assurance_candidate k (reviewed d c s).1
                  ≡ some (record c { lifecycle_state = state }))
                named
                (rw moves (
                  move_candidate_lem c state (create_review_decision d s)
                    (state_nonblank d.decision state moves) stored)),
      )
