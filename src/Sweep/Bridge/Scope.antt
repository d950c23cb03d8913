-- ===== src/Sweep/Bridge/Scope.antt =====
-- The organization's boundary and the authority in `check_eligibility` and `_resolve_authority` of
-- src/notary_platform/sweep/bridge.py.
use notary_platform.Prelude.{
  &&-eq-true, String, ◌≡◌, refl, Bool, true, false, ◌==◌, Bool-cases, inl, inr, Option, none, some,
  List, [], ◌∷◌, arith, is_some, next, nonempty,
}
use notary_platform.Records.Candidate.{AssuranceCandidate}
use notary_platform.Records.Review.{ReviewDecision}
use notary_platform.Records.Delegation.{PromotionDelegation}
use notary_platform.Storage.{MemoryStorage, get_assurance_candidate, list_promotion_delegations}
use notary_platform.Sweep.Candidates
use notary_platform.Sweep.Candidates.{delegation_applies}
use notary_platform.Sweep.Bridge.{
  Clock, Authority, check_delegation, delegation_grants, delegation_matches, resolve_authority,
  scoped_reviews, active_reviews, authority_of_reviews, check_eligibility,
}

-- The answer about a candidate of another organization is the answer about a candidate that does
-- not exist: it shows nothing of the other organization.
pub foreign_candidate_hidden :
    (clock : Clock) (candidate_id absent_id org_id : String) (s : MemoryStorage)
    (c : AssuranceCandidate)
    → get_assurance_candidate candidate_id s ≡ some c
    → (c.org_id == org_id) ≡ false
    → get_assurance_candidate absent_id s ≡ none
    → check_eligibility clock candidate_id org_id s ≡ check_eligibility clock absent_id org_id s
unfolding check_eligibility
foreign_candidate_hidden clock candidate_id absent_id org_id s c found foreign absent =
    rw (found, foreign, absent)

matches-applies :
    (clock : Clock) (c : AssuranceCandidate) (org_id : String) (d : PromotionDelegation)
    → delegation_matches clock c org_id d ≡ true
    → delegation_applies c d ≡ true
unfolding delegation_matches delegation_applies
matches-applies clock c org_id d h = ground arith

grants-applies :
    (clock : Clock) (c : AssuranceCandidate) (org_id : String) (d : PromotionDelegation)
    → delegation_grants clock c org_id d ≡ true
    → delegation_applies c d ≡ true
unfolding delegation_grants
grants-applies clock c org_id d h = matches-applies clock c org_id d (&&-eq-true _ _ h).0

next_weaker :
    {A : Type 0} (p q : A → Bool) (xs : List A)
    → ((x : A) → p x ≡ true → q x ≡ true)
    → is_some (next p xs) ≡ true
    → is_some (next q xs) ≡ true
unfolding next
next_weaker p q [] w h = h
next_weaker p q (x ∷ xs) w h = elim (Bool-cases (q x)) [
  | inl here ↦ rw here
  | inr out ↦ elim (Bool-cases (p x)) [
    | inl e ↦ absurd (let wx = w x e in ground arith)
    | inr e ↦ rw out (next_weaker p q xs w (rw e at h))
  ]
]

-- A delegation that lets the bridge promote a candidate is accepted by the review service too:
-- where the bridge finds one, the review service finds one.
pub check_delegation_weaker :
    (clock : Clock) (c : AssuranceCandidate) (org_id : String) (s : MemoryStorage)
    → is_some (check_delegation clock c org_id s) ≡ true
    → is_some (Candidates.check_delegation c org_id s) ≡ true
unfolding check_delegation Candidates.check_delegation
check_delegation_weaker clock c org_id s h =
    next_weaker (delegation_grants clock c org_id) (delegation_applies c)
      (list_promotion_delegations org_id s) (grants-applies clock c org_id) h

authority-nonempty :
    (otherwise : Option Authority) (reviews : List ReviewDecision)
    → nonempty reviews ≡ true
    → authority_of_reviews otherwise reviews ≡ authority_of_reviews none reviews
unfolding authority_of_reviews
authority-nonempty otherwise [] h = absurd (ground arith)
authority-nonempty otherwise (r ∷ rest) h = refl

-- While a review is active, no delegation matters: the authority is that of the reviews alone.
pub reviews_before_delegations :
    (clock : Clock) (c : AssuranceCandidate) (org_id : String) (s : MemoryStorage)
    → nonempty (active_reviews clock (scoped_reviews c org_id s)) ≡ true
    → resolve_authority clock c org_id s
      ≡ authority_of_reviews none (active_reviews clock (scoped_reviews c org_id s))
unfolding resolve_authority
reviews_before_delegations clock c org_id s h =
    authority-nonempty _ (active_reviews clock (scoped_reviews c org_id s)) h
