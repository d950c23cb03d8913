-- ===== src/Sweep/Bridge/Grants.antt =====
-- Who may promote a candidate: `_resolve_authority`, `_check_delegation` and `_period_is_active`
-- of src/notary_platform/sweep/bridge.py. What `datetime`, `str.split` and the iteration over a text
-- compute is in `Clock`.
use notary_platform.Prelude.{
  ℕ, String, Bool, true, false, not, ◌&&◌, ◌||◌, ◌==◌, Option, none, some, List, [], ◌∷◌, leb,
  if◌then◌else◌, nonblank, elem, keep, next, text_le, any, is_some, nonempty,
}
use notary_platform.Value.{Value, null, bool, num, text, texts, obj, Fields, end, field, field?}
use notary_platform.Records.Candidate.{AssuranceCandidate}
use notary_platform.Records.Review.{ReviewDecision}
use notary_platform.Records.Delegation.{PromotionDelegation}
use notary_platform.Storage.{MemoryStorage, list_review_decisions, list_promotion_delegations}
use notary_platform.Sweep.Candidates.{level_matches, scope_matches, is_text}

-- `split` is `period.split("/", 1)` unpacked in two, `none` where there is no slash. `instant`
-- reads one bound, `none` where reading it, or comparing it with the clock, raises.
pub record Clock : Type 0 where
  pub now : ℕ
  pub split : String → Option (String × String)
  pub instant : String → Option ℕ
  -- the characters of a text, over which `set` runs
  pub characters : String → List String

abbrev not_before : ℕ → Option ℕ → Bool
not_before now none = false
not_before now (some start) = leb start now

abbrev not_after : ℕ → Option ℕ → Bool
not_after now none = false
not_after now (some finish) = leb now finish

abbrev within : Clock → Option (String × String) → Bool
within clock none = false
within clock (some (start, finish)) =
    (not (nonblank start) || not_before clock.now (clock.instant start))
    && (not (nonblank finish) || not_after clock.now (clock.instant finish))

unfoldable pub period_is_active : Clock → String → Bool
period_is_active clock period =
    if not (nonblank period) then true else within clock (clock.split period)

abbrev pub keys_of : Fields → List String
keys_of end = []
keys_of (field k v rest) = k ∷ keys_of rest

-- `set(conditions.get("required_prerequisites", []))`: a text gives its characters and a dict its
-- keys; a value over which one cannot run is a TypeError
abbrev pub required_set : Clock → Option Value → Option (List String)
required_set clock none = some []
required_set clock (some (texts l)) = some l
required_set clock (some (text t)) = some (clock.characters t)
required_set clock (some (obj fields)) = some (keys_of fields)
required_set clock (some null) = none
required_set clock (some (bool b)) = none
required_set clock (some (num n)) = none

abbrev same_org : String → Option Value → Bool
same_org org_id none = true
same_org org_id (some v) = is_text org_id (some v)

-- the conditions of one delegation, in the order of the source
unfoldable pub delegation_matches : Clock → AssuranceCandidate → String → PromotionDelegation → Bool
unfolding period_is_active level_matches scope_matches field?
delegation_matches clock c org_id d =
    d.active
    && (d.environment_id == c.environment_id
        && (d.rule_type == "deterministic"
            && (period_is_active clock d.effective_period
                && (scope_matches d c
                    && (level_matches d c && same_org org_id (field? "org_id" d.conditions))))))

abbrev pub required_by : Clock → PromotionDelegation → Option (List String)
required_by clock d = required_set clock (field? "required_prerequisites" d.conditions)

-- `not required.intersection(candidate.missing_prerequisites)`
abbrev pub none_missing : AssuranceCandidate → Option (List String) → Bool
none_missing c none = false
none_missing c (some required) = not (any (λ p. elem p c.missing_prerequisites) required)

unfoldable pub delegation_grants : Clock → AssuranceCandidate → String → PromotionDelegation → Bool
unfolding delegation_matches any elem field?
delegation_grants clock c org_id d =
    delegation_matches clock c org_id d && none_missing c (required_by clock d)

-- the loop over the delegations reaches one that matches and of which `set` raises
unfoldable pub delegations_raise :
    Clock → AssuranceCandidate → String → List PromotionDelegation → Bool
unfolding delegation_matches delegation_grants field?
delegations_raise clock c org_id [] = false
delegations_raise clock c org_id (d ∷ rest) =
    let later = delegations_raise clock c org_id rest in
    if delegation_matches clock c org_id d && not (is_some (required_by clock d))
    then true
    else not (delegation_grants clock c org_id d) && later

-- what `_check_delegation` returns where it does not raise
unfoldable pub check_delegation :
    Clock → AssuranceCandidate → String → MemoryStorage → Option PromotionDelegation
unfolding next delegation_grants
check_delegation clock c org_id s =
    next (delegation_grants clock c org_id) (list_promotion_delegations org_id s)

pub data Authority : Type 0 where
  review : ReviewDecision → Authority
  delegation : PromotionDelegation → Authority

abbrev of_delegation : Option PromotionDelegation → Option Authority
of_delegation none = none
of_delegation (some d) = some (delegation d)

unfoldable pub scoped_reviews : AssuranceCandidate → String → MemoryStorage → List ReviewDecision
unfolding keep
scoped_reviews c org_id s =
    keep (λ r. r.org_id == org_id && r.environment_id == c.environment_id)
      (list_review_decisions c.id s)

unfoldable pub is_superseded : List ReviewDecision → ReviewDecision → Bool
unfolding any
is_superseded reviews r =
    any (λ other. nonblank other.superseded_decision_id && other.superseded_decision_id == r.id)
      reviews

unfoldable pub active_reviews : Clock → List ReviewDecision → List ReviewDecision
unfolding keep is_superseded period_is_active
active_reviews clock reviews =
    keep
      (λ r.
        not (is_superseded reviews r)
        && (not (r.decision == "supersede") && period_is_active clock r.effective_period))
      reviews

-- (a.created_at, a.id) < (b.created_at, b.id)
unfoldable pub is_earlier : ReviewDecision → ReviewDecision → Bool
unfolding text_le
is_earlier a b =
    not (text_le b.created_at a.created_at)
    || (a.created_at == b.created_at && not (text_le b.id a.id))

-- `max` keeps the first of the greatest
unfoldable pub latest_from : ReviewDecision → List ReviewDecision → ReviewDecision
unfolding is_earlier
latest_from best [] = best
latest_from best (r ∷ rest) = latest_from (if is_earlier best r then r else best) rest

unfoldable pub authority_of_reviews : Option Authority → List ReviewDecision → Option Authority
unfolding latest_from
authority_of_reviews otherwise [] = otherwise
authority_of_reviews otherwise (r ∷ rest) =
    if (latest_from r rest).decision == "approve_incident"
    then some (review (latest_from r rest))
    else none

unfoldable pub resolve_authority :
    Clock → AssuranceCandidate → String → MemoryStorage → Option Authority
unfolding authority_of_reviews active_reviews scoped_reviews check_delegation
resolve_authority clock c org_id s =
    authority_of_reviews (of_delegation (check_delegation clock c org_id s))
      (active_reviews clock (scoped_reviews c org_id s))

-- `_resolve_authority` raises: no review is active, and the delegations raise
unfoldable pub authority_raises : Clock → AssuranceCandidate → String → MemoryStorage → Bool
unfolding active_reviews scoped_reviews delegations_raise
authority_raises clock c org_id s =
    not (nonempty (active_reviews clock (scoped_reviews c org_id s)))
    && delegations_raise clock c org_id (list_promotion_delegations org_id s)
