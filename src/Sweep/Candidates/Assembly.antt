-- ===== src/Sweep/Candidates/Assembly.antt =====
-- Which candidates `assemble` of src/notary_platform/sweep/candidates.py makes of the assessments.
use notary_platform.Prelude.{
  ℕ, suc, String, ◌≡◌, refl, sym, true, false, not, ◌==◌, Bool-cases, Option-cases, inl, inr, some,
  is_some, List, [], ◌∷◌, arith, keep, All, elem, leb,
}
use notary_platform.Value.{Draw, field?}
use notary_platform.Records.Assessment.{AssessmentRecord}
use notary_platform.Records.Candidate.{AssuranceCandidate}
use notary_platform.Storage.{MemoryStorage}
use notary_platform.Sweep.Evidence.{FrozenDecisionEvidenceRecord, ResolvedContext}
use notary_platform.Sweep.Sufficiency.{calculate}
use notary_platform.Sweep.Sufficiency.Levels.{rank}
use notary_platform.Sweep.Candidates.{
  text_or_empty, is_passed_over, assess_severity, candidate_with, candidate_from, candidates_from,
  create_candidates, assemble,
}

-- The outcomes in the details of an assessment are texts, where there are any.
pub record HasOutcomes (a : AssessmentRecord) : Type 0 where
  pub actual : is_some (text_or_empty (field? "actual_outcome" a.details)) ≡ true
  pub expected : is_some (text_or_empty (field? "expected_outcome" a.details)) ≡ true

-- the assessments that a candidate is made of
abbrev pub taken : List AssessmentRecord → List AssessmentRecord
taken l = keep (λ a. not (is_passed_over a)) l

module _ (draw : ℕ → Draw) (r : FrozenDecisionEvidenceRecord)
    (level sweep_run_id environment_id : String) where
  -- What the candidate of one assessment is.
  pub record IsOf (a : AssessmentRecord) (c : AssuranceCandidate) : Type 0 where
    pub own : c.org_id ≡ r.org_id
    pub der : c.der_id ≡ r.id
    pub of_run : c.sweep_run_id ≡ sweep_run_id
    pub finding : c.candidate_type ≡ a.finding_type
    pub assessments : c.assessment_ids ≡ a.id ∷ []
    pub severity_of : c.severity ≡ assess_severity a
    pub actual : some c.actual_outcome ≡ text_or_empty (field? "actual_outcome" a.details)
    pub expected : some c.expected_outcome ≡ text_or_empty (field? "expected_outcome" a.details)
    pub level_of : c.evidence_level ≡ level
    pub reviewable : (c.lifecycle_state == "reviewable") ≡ leb 3 (rank level)

  -- the candidates are those of the assessments, one by one
  abbrev pub AreOf : List AssessmentRecord → List AssuranceCandidate → Type 0
  AreOf [] [] = Unit
  AreOf [] (c ∷ cs) = ⊥
  AreOf (a ∷ l) [] = ⊥
  AreOf (a ∷ l) (c ∷ cs) = IsOf a c × AreOf l cs

  candidate_with-IsOf :
      (d : Draw) (a : AssessmentRecord) (actual expected : String)
      → text_or_empty (field? "actual_outcome" a.details) ≡ some actual
      → text_or_empty (field? "expected_outcome" a.details) ≡ some expected
      → IsOf a (candidate_with d r level sweep_run_id environment_id a actual expected)
  unfolding candidate_with elem
  candidate_with-IsOf d a actual expected e e' = record {
    own = refl;
    der = refl;
    of_run = refl;
    finding = refl;
    assessments = refl;
    severity_of = refl;
    actual = sym e;
    expected = sym e';
    level_of = refl;
    reviewable = elim (Bool-cases (elem level ("E2" ∷ "E3" ∷ "E4" ∷ []))) [
      | inl high ↦ rw high (ground arith)
      | inr low ↦ rw low (ground arith)
    ];
  }

  candidate_from-IsOf :
      (d : Draw) (a : AssessmentRecord)
      → HasOutcomes a
      → (c : AssuranceCandidate) × (candidate_from d r level sweep_run_id environment_id a ≡ some c)
        × IsOf a c
  unfolding candidate_from
  candidate_from-IsOf d a texts =
      elim (Option-cases (text_or_empty (field? "actual_outcome" a.details))) [
        | inl e ↦ absurd (let h = rw e at texts.actual in ground arith)
        | inr (actual, e) ↦
            elim (Option-cases (text_or_empty (field? "expected_outcome" a.details))) [
              | inl e' ↦ absurd (let h = rw e' at texts.expected in ground arith)
              | inr (expected, e') ↦ (
                candidate_with d r level sweep_run_id environment_id a actual expected,
                rw (e, e') refl,
                candidate_with-IsOf d a actual expected e e',
              )
            ]
      ]

  candidates_from-AreOf :
      (k : ℕ) (l : List AssessmentRecord)
      → All HasOutcomes (taken l)
      → (cs : List AssuranceCandidate) × (candidates_from draw r level sweep_run_id environment_id k
            l
          ≡ some cs)
        × AreOf (taken l) cs
  unfolding candidates_from keep
  candidates_from-AreOf k [] h = ([], refl, tt)
  candidates_from-AreOf k (a ∷ rest) h = elim (Bool-cases (is_passed_over a)) [
    | inl over ↦
        let (cs, made, of) = candidates_from-AreOf k rest (rw over at h) in
        (cs, rw over made, rw over of)
    | inr used ↦
        let h' : All HasOutcomes (a ∷ taken rest) = rw used at h in
        let (c, here, is) = candidate_from-IsOf (draw k) a h'.0 in
        let (cs, made, of) = candidates_from-AreOf (suc k) rest h'.1 in
        (c ∷ cs, rw (used, here, made) refl, rw used (is, of))
  ]

-- Where the outcomes in the details are texts, a candidate is assembled for each assessment that was
-- assessed with a finding, in order, and for no other, and they are created in the storage. Each has
-- the finding type, the id and the outcomes of its assessment, belongs to the record, its
-- organization and the run, has the evidence level of the record, and is reviewable exactly when
-- that level is at least E2.
pub assemble_lem :
    (draw : ℕ → Draw) (l : List AssessmentRecord) (r : FrozenDecisionEvidenceRecord)
    (c : ResolvedContext) (sweep_run_id environment_id : String) (s : MemoryStorage)
    → All HasOutcomes (taken l)
    → (cs : List AssuranceCandidate) × (assemble draw l r c sweep_run_id environment_id s
        ≡ some (cs, create_candidates cs s))
      × AreOf draw r
          (calculate r c false false).current_level
          sweep_run_id
          environment_id
          (taken l)
          cs
unfolding assemble
assemble_lem draw l r c sweep_run_id environment_id s h =
    let level = (calculate r c false false).current_level in
    let (cs, made, of) = candidates_from-AreOf draw r level sweep_run_id environment_id 0 l h in
    (cs, rw made refl, of)
