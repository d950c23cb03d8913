-- ===== src/Sweep/Bridge/Lineage.antt =====
-- What an eligible candidate has behind it, by `ProofBridgeService.check_eligibility` of
-- src/notary_platform/sweep/bridge.py.
use notary_platform.Prelude.{
  String, ◌≡◌, refl, true, false, ◌==◌, Bool-cases, inl, inr, Option, none, some, List, [], ◌∷◌,
  ◌++◌, arith, is_some, All, nonempty, elem,
}
use notary_platform.Records.Candidate.{AssuranceCandidate}
use notary_platform.Records.Evidence.{DecisionEvidenceRecord}
use notary_platform.Records.Run.{SweepRun}
use notary_platform.Records.Resource.{DecisionEvidenceResource}
use notary_platform.Storage.{
  MemoryStorage, get_assurance_candidate, get_decision_evidence_record, get_sweep_run, get_resource,
}
use notary_platform.Sweep.Bridge.{
  Clock, Authority, resolve_authority, check_eligibility, all_failures, der_failures, run_failures,
  level_failures, resource_failure, resource_failures, each_resource_failures,
  supporting_resource_ids, each_binding_failures, authority_failures, lookup_if, in_environment,
  binding_ids,
}

append-none :
    {A : Type 0} (xs ys : List A)
    → nonempty (xs ++ ys) ≡ false
    → (nonempty xs ≡ false) × (nonempty ys ≡ false)
append-none [] ys h = (refl, h)
append-none (x ∷ xs) ys h = absurd (ground arith)

-- the lookup found a record of the organization, in the environment of the candidate
abbrev pub HasRecord : AssuranceCandidate → String → Option DecisionEvidenceRecord → Type 0
HasRecord c org_id none = ⊥
HasRecord c org_id (some der) =
    ((der.org_id == org_id) ≡ true) × (in_environment der.environment_id c ≡ true)

abbrev pub HasRun : AssuranceCandidate → String → Option SweepRun → Type 0
HasRun c org_id none = ⊥
HasRun c org_id (some run) =
    ((run.org_id == org_id) ≡ true) × (in_environment run.environment_id c ≡ true)

abbrev pub HasResource : AssuranceCandidate → Option DecisionEvidenceResource → Type 0
HasResource c none = ⊥
HasResource c (some resource) = in_environment resource.environment_id c ≡ true

der-clear :
    (c : AssuranceCandidate) (org_id : String) (found : Option DecisionEvidenceRecord)
    → nonempty (der_failures c org_id found) ≡ false
    → HasRecord c org_id found
unfolding der_failures
der-clear c org_id none h = absurd (ground arith)
der-clear c org_id (some der) h = elim (Bool-cases (der.org_id == org_id)) [
  | inl own ↦ elim (Bool-cases (in_environment der.environment_id c)) [
    | inl here ↦ (own, here)
    | inr out ↦ absurd (let h' = rw (own, out) at h in ground arith)
  ]
  | inr out ↦ absurd (let h' = rw out at h in ground arith)
]

run-clear :
    (c : AssuranceCandidate) (org_id : String) (s : MemoryStorage) (found : Option SweepRun)
    → nonempty (run_failures c org_id s found) ≡ false
    → HasRun c org_id found
unfolding run_failures
run-clear c org_id s none h = absurd (ground arith)
run-clear c org_id s (some run) h = elim (Bool-cases (run.org_id == org_id)) [
  | inl own ↦ elim (Bool-cases (in_environment run.environment_id c)) [
    | inl here ↦ (own, here)
    | inr out ↦ absurd (let h' = rw (own, out) at h in ground arith)
  ]
  | inr out ↦ absurd (let h' = rw out at h in ground arith)
]

level-clear :
    (c : AssuranceCandidate)
    → nonempty (level_failures c) ≡ false
    → elem c.evidence_level ("E3" ∷ "E4" ∷ []) ≡ true
unfolding level_failures
level-clear c h = elim (Bool-cases (elem c.evidence_level ("E3" ∷ "E4" ∷ []))) [
  | inl e ↦ e
  | inr e ↦ absurd (let h' = rw e at h in ground arith)
]

authority-clear :
    (found : Option Authority) → nonempty (authority_failures found) ≡ false → is_some found ≡ true
authority-clear none h = absurd (ground arith)
authority-clear (some a) h = refl

resource-clear :
    (c : AssuranceCandidate) (id : String) (found : Option DecisionEvidenceResource)
    → nonempty (resource_failure c id found) ≡ false
    → HasResource c found
unfolding resource_failure
resource-clear c id none h = absurd (ground arith)
resource-clear c id (some resource) h =
    elim (Bool-cases (in_environment resource.environment_id c)) [
      | inl e ↦ e
      | inr e ↦ absurd (let h' = rw e at h in ground arith)
    ]

each-clear :
    (c : AssuranceCandidate) (org_id : String) (s : MemoryStorage) (ids : List String)
    → nonempty (each_resource_failures c org_id s ids) ≡ false
    → All (λ id. HasResource c (get_resource id org_id s)) ids
unfolding each_resource_failures
each-clear c org_id s [] h = tt
each-clear c org_id s (id ∷ ids) h =
    let clear =
      append-none (resource_failure c id (get_resource id org_id s))
        (each_resource_failures c org_id s ids) h in
    (resource-clear c id (get_resource id org_id s) clear.0, each-clear c org_id s ids clear.1)

resources-clear :
    (c : AssuranceCandidate) (org_id : String) (s : MemoryStorage) (ids : List String)
    → nonempty (resource_failures c org_id s ids) ≡ false
    → (nonempty ids ≡ true) × All (λ id. HasResource c (get_resource id org_id s)) ids
unfolding resource_failures
resources-clear c org_id s [] h = absurd (ground arith)
resources-clear c org_id s (id ∷ ids) h = (refl, each-clear c org_id s (id ∷ ids) h)

unfoldable pub record_of : AssuranceCandidate → MemoryStorage → Option DecisionEvidenceRecord
record_of c s = lookup_if c.der_id (get_decision_evidence_record c.der_id s)

-- A stored candidate that is eligible belongs to the organization: its decision evidence record and
-- its sweep run are found, belong to the organization and lie in the candidate's environment, its
-- level is E3 or E4, some supporting resource is linked and each one is found in that environment,
-- and someone has the authority to promote it.
pub eligible_lem :
    (clock : Clock) (candidate_id org_id : String) (s : MemoryStorage) (c : AssuranceCandidate)
    → get_assurance_candidate candidate_id s ≡ some c
    → (check_eligibility clock candidate_id org_id s).eligible ≡ true
    → ((c.org_id == org_id) ≡ true)
      × (HasRecord c org_id (record_of c s)
          × (HasRun c org_id (lookup_if c.sweep_run_id (get_sweep_run c.sweep_run_id s))
              × ((elem c.evidence_level ("E3" ∷ "E4" ∷ []) ≡ true)
                  × (((nonempty (supporting_resource_ids c (record_of c s)) ≡ true)
                        × All
                            (λ id. HasResource c (get_resource id org_id s))
                            (supporting_resource_ids c (record_of c s)))
                      × (is_some (resolve_authority clock c org_id s) ≡ true)))))
unfolding check_eligibility all_failures record_of
eligible_lem clock candidate_id org_id s c found h = elim (Bool-cases (c.org_id == org_id)) [
  | inr other ↦ absurd (let h' = rw (found, other) at h in ground arith)
  | inl own ↦
      let h' = rw (found, own) at h in
      let clear : nonempty (all_failures clock c org_id s) ≡ false = ground arith in
      let der = record_of c s in
      let e₁ = append-none (der_failures c org_id der) _ clear in
      let e₂ =
        append-none
          (run_failures c org_id s (lookup_if c.sweep_run_id (get_sweep_run c.sweep_run_id s))) _
          e₁.1 in
      let e₃ = append-none (level_failures c) _ e₂.1 in
      let e₄ = append-none (resource_failures c org_id s (supporting_resource_ids c der)) _ e₃.1 in
      let e₅ = append-none (each_binding_failures c org_id s (binding_ids der)) _ e₄.1 in
      (
        own,
        (
          der-clear c org_id der e₁.0,
          (
            run-clear c org_id s _ e₂.0,
            (level-clear c e₃.0, (resources-clear c org_id s _ e₄.0, authority-clear _ e₅.1)),
          ),
        ),
      )
]
