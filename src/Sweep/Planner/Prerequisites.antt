-- ===== src/Sweep/Planner/Prerequisites.antt =====
-- `check_prerequisites` of the planner (src/notary_platform/sweep/planner.py) and of the
-- evaluators (src/notary_platform/sweep/evaluators/base.py), compared on one record.
use notary_platform.Prelude.{
  String, ◌≡◌, refl, sym, ◌⊎◌, Bool, true, false, not, ◌&&◌, ◌||◌, ◌==◌, eq_iff, inl, inr, some,
  List, [], ◌∷◌, ◌++◌, arith, All, keep, elem, nonblank, nonempty,
}
use mathlib.Core.Path.{subst}
use notary_platform.Records.Contract.{EvaluatorContractRecord}
use notary_platform.Records.Evidence.{DecisionEvidenceRecord}
use notary_platform.Storage.{MemoryStorage, get_evaluator_contract}
use notary_platform.Sweep.Evidence.{FrozenDecisionEvidenceRecord}
use notary_platform.Sweep.Evaluators
use notary_platform.Sweep.Evaluators.{prerequisite_missing}
use notary_platform.Sweep.Registry.{verdict_of}
use notary_platform.Sweep.Planner.{name_if, available_of, check_prerequisites}

-- The frozen record shows the four fields that prerequisites are about as the record has them.
pub record Mirrors (r : FrozenDecisionEvidenceRecord) (der : DecisionEvidenceRecord) : Type 0 where
  pub trace : nonblank r.resolution_trace_id ≡ nonblank der.resolution_trace_id
  pub bindings : nonempty r.context_binding_ids ≡ nonempty der.context_binding_ids
  pub resources : nonempty r.source_resource_ids ≡ nonempty der.source_resource_ids
  pub links : nonempty r.link_assertion_ids ≡ nonempty der.link_assertion_ids

-- One of the four names that the code knows.
abbrev pub is_known : String → Bool
is_known p =
    p == "context_resolved"
    || (p == "context_bindings" || (p == "source_resources" || p == "link_assertions"))

elem-name_if-append :
    (p name : String) (b : Bool) (rest : List String)
    → elem p (name_if b name ++ rest) ≡ ((b && p == name) || elem p rest)
unfolding elem
elem-name_if-append p name true rest = refl
elem-name_if-append p name false rest = refl

elem-name_if : (p name : String) (b : Bool) → elem p (name_if b name) ≡ (b && p == name)
unfolding elem
elem-name_if p name true = ground arith
elem-name_if p name false = refl

elem-available_of :
    (p : String) (der : DecisionEvidenceRecord)
    → elem p (available_of der) ≡ (
        nonblank der.resolution_trace_id && p == "context_resolved"
        || (nonempty der.context_binding_ids && p == "context_bindings"
            || (nonempty der.source_resource_ids && p == "source_resources"
                || (nonempty der.link_assertion_ids && p == "link_assertions"))))
unfolding available_of
elem-available_of p der = simp (elem-name_if-append, elem-name_if)

is_known_cases :
    (p : String)
    → is_known p ≡ true
    → (p ≡ "context_resolved")
      ⊎ (p ≡ "context_bindings")
      ⊎ (p ≡ "source_resources")
      ⊎ (p ≡ "link_assertions")
is_known_cases p h = ground (
  arith,
  eq_iff p "context_resolved",
  eq_iff p "context_bindings",
  eq_iff p "source_resources",
  eq_iff p "link_assertions",
)

module _ (r : FrozenDecisionEvidenceRecord) (der : DecisionEvidenceRecord) (m : Mirrors r der) where
  abbrev Agree : String → Type 0
  Agree p = not (elem p (available_of der)) ≡ prerequisite_missing r p

  missing-Agree : (p : String) → is_known p ≡ true → Agree p
  unfolding prerequisite_missing
  missing-Agree p known = elim (is_known_cases p known) [
    | inl e ↦ subst Agree (sym e) (rw (elem-available_of, m.trace) (ground arith))
    | inr (inl e) ↦ subst Agree (sym e) (rw (elem-available_of, m.bindings) (ground arith))
    | inr (inr (inl e)) ↦ subst Agree (sym e) (rw (elem-available_of, m.resources) (ground arith))
    | inr (inr (inr e)) ↦ subst Agree (sym e) (rw (elem-available_of, m.links) (ground arith))
  ]

  missing_unknown :
      (p : String)
      → is_known p ≡ false
      → (not (elem p (available_of der)) ≡ true) × (prerequisite_missing r p ≡ false)
  unfolding prerequisite_missing
  missing_unknown p unknown = (rw elem-available_of (ground arith), ground arith)

  keep_agree :
      (ps : List String)
      → All (λ p. is_known p ≡ true) ps
      → keep (λ p. not (elem p (available_of der))) ps ≡ keep (prerequisite_missing r) ps
  unfolding keep
  keep_agree [] h = refl
  keep_agree (p ∷ ps) h = rw (missing-Agree p h.0, keep_agree ps h.1)

  -- On a stored contract that requires only prerequisites of the four known names, and a frozen
  -- record that mirrors the record, the planner and the evaluators name the same missing ones.
  pub check_prerequisites_agree :
      (contract : EvaluatorContractRecord) (s : MemoryStorage)
      → get_evaluator_contract contract.id s ≡ some contract
      → All (λ p. is_known p ≡ true) contract.required_prerequisites
      → check_prerequisites contract.id der s
        ≡ verdict_of (Evaluators.check_prerequisites contract r)
  unfolding check_prerequisites Evaluators.check_prerequisites
  check_prerequisites_agree contract s found known =
      rw (found, keep_agree contract.required_prerequisites known)

  -- The single prerequisite of a stored contract, when it has any other name, is always missing
  -- for the planner and never for an evaluator.
  pub check_prerequisites_differ :
      (contract : EvaluatorContractRecord) (s : MemoryStorage) (p : String)
      → get_evaluator_contract contract.id s ≡ some contract
      → contract.required_prerequisites ≡ p ∷ []
      → is_known p ≡ false
      → (check_prerequisites contract.id der s ≡ (false, p ∷ []))
        × (Evaluators.check_prerequisites contract r ≡ [])
  unfolding check_prerequisites Evaluators.check_prerequisites keep
  check_prerequisites_differ contract s p found only unknown =
      let (planner, evaluator) = missing_unknown p unknown in
      (rw (found, only, planner), rw (only, evaluator))
