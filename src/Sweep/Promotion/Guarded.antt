-- ===== src/Sweep/Promotion/Guarded.antt =====
-- When `promote` of src/notary_platform/sweep/bridge.py writes, and on whose authority.
use notary_platform.Prelude.{
  String, ◌≡◌, refl, true, ◌==◌, Bool-cases, Option-cases, inl, inr, Option, none, some, List, [],
  ◌∷◌, nonblank, arith,
}
use mathlib.Core.Path.{subst}
use mathlib.Core.Option.{some-injective}
use notary_platform.Records.Candidate.{AssuranceCandidate}
use notary_platform.Records.Evidence.{DecisionEvidenceRecord}
use notary_platform.Storage.{get_assurance_candidate, get_decision_evidence_record}
use notary_platform.Sweep.Bridge.{Authority, Clock, check_eligibility}
use notary_platform.Sweep.Bridge.Lineage.{eligible_lem}
use notary_platform.Sweep.Promotion.{
  Incident, BridgedRecord, BridgeStorage, BridgeTexts, list_vrs_by_bridge_key,
}
use notary_platform.Sweep.Promotion.Bundle.{bridge_key_of}
use notary_platform.Sweep.Promotion.Promote.{
  promote_checked, promote-checked, Promotion, refused, promoted, promote_known, promote_new,
  promote_keyed, promote_parts, promote, incident_named, lineage_ref, not_eligible,
}
use notary_platform.Sweep.Promotion.Incidents.{bridged_record}

-- a refusal leaves the storage; a promotion carries the authority it was given
abbrev pub Guarded : Option Authority → BridgeStorage → Promotion × BridgeStorage → Type 0
Guarded authority s (refused r, s₁) = s₁ ≡ s
Guarded authority s (promoted p, s₁) = authority ≡ some p.authority

known-Guarded :
    (c : AssuranceCandidate) (a : Authority) (org_id bridge_key : String) (vr : BridgedRecord)
    (found : Option Incident) (s : BridgeStorage)
    → Guarded (some a) s (promote_known c a org_id bridge_key vr found, s)
known-Guarded c a org_id bridge_key vr none s = refl
known-Guarded c a org_id bridge_key vr (some incident) s =
    elim (Bool-cases (nonblank (lineage_ref incident.lineage))) [
      | inr e ↦ rw e refl
      | inl e ↦ elim (Bool-cases (incident.org_id == org_id)) [
        | inr f ↦ rw (e, f) refl
        | inl f ↦ rw (e, f) refl
      ]
    ]

keyed-Guarded :
    (t : BridgeTexts) (c : AssuranceCandidate) (der : DecisionEvidenceRecord) (a : Authority)
    (org_id bridge_key : String) (s : BridgeStorage) (records : List BridgedRecord)
    → (c.org_id == org_id) ≡ true
    → Guarded (some a) s (promote_keyed t c der a org_id bridge_key s records)
unfolding promote_new bridged_record
keyed-Guarded t c der a org_id bridge_key s [] own = rw own refl
keyed-Guarded t c der a org_id bridge_key s (vr ∷ others) own =
    known-Guarded c a org_id bridge_key vr (incident_named vr s) s

parts-Guarded :
    (t : BridgeTexts) (org_id : String) (s : BridgeStorage) (c : AssuranceCandidate)
    (authority : Option Authority) (outcome : Promotion × BridgeStorage)
    → (c.org_id == org_id) ≡ true
    → promote_parts t org_id s (some c) authority ≡ some outcome
    → Guarded authority s outcome
parts-Guarded t org_id s c none outcome own h =
    elim (Option-cases (get_decision_evidence_record c.der_id s.sweep)) [
      | inl e ↦ absurd (let h' = rw e at h in ground arith)
      | inr (der, e) ↦ absurd (let h' = rw e at h in ground arith)
    ]
parts-Guarded t org_id s c (some a) outcome own h =
    elim (Option-cases (get_decision_evidence_record c.der_id s.sweep)) [
      | inl e ↦ absurd (let h' = rw e at h in ground arith)
      | inr (der, e) ↦
          let key = bridge_key_of t c in
          let records = list_vrs_by_bridge_key key org_id s in
          let written : some (promote_keyed t c der a org_id key s records) ≡ some outcome =
            rw e at h in
          subst (Guarded (some a) s) (some-injective _ _ written)
            (keyed-Guarded t c der a org_id key s records own)
    ]

-- Promoting a candidate either refuses and leaves the storage as it was, or promotes with the
-- authority by which the candidate was found eligible.
pub promote-Guarded :
    (clock : Clock) (t : BridgeTexts) (candidate_id org_id : String) (s : BridgeStorage)
    (outcome : Promotion × BridgeStorage)
    → promote clock t candidate_id org_id s ≡ some outcome
    → Guarded (check_eligibility clock candidate_id org_id s.sweep).authority s outcome
unfolding promote_checked
promote-Guarded clock t candidate_id org_id s outcome h =
    let answered = (promote-checked clock t candidate_id org_id s outcome h).1 in
    let eligibility = check_eligibility clock candidate_id org_id s.sweep in
    elim (Bool-cases eligibility.eligible) [
      | inr e ↦
          let answer : Promotion × BridgeStorage = (refused (not_eligible eligibility), s) in
          let written : some answer ≡ some outcome = rw e at answered in
          subst (Guarded eligibility.authority s) (some-injective _ _ written) refl
      | inl e ↦ elim (Option-cases (get_assurance_candidate candidate_id s.sweep)) [
        | inl gone ↦ absurd (let h' = rw (e, gone) at answered in ground arith)
        | inr (c, found) ↦
            let own = (eligible_lem clock candidate_id org_id s.sweep c found e).0 in
            let parts : promote_parts t org_id s (get_assurance_candidate candidate_id s.sweep)
                  eligibility.authority
                ≡ some outcome =
              rw e at answered in
            parts-Guarded t org_id s c eligibility.authority outcome own (
              subst (λ x. promote_parts t org_id s x eligibility.authority ≡ some outcome) found
                parts)
      ]
    ]
