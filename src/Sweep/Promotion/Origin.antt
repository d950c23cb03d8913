-- ===== src/Sweep/Promotion/Origin.antt =====
-- Where a new promotion comes from, and the record and the incident that it stores, by `promote` of
-- src/notary_platform/sweep/bridge.py.
use notary_platform.Prelude.{
  String, ◌≡◌, refl, sym, ap, true, false, ◌++◌, Bool-cases, Option-cases, inl, inr, Option, none,
  some, List, [], ◌∷◌, ◌<>◌, arith,
}
use mathlib.Core.Option.{some-injective}
use notary_platform.Dict.{get, get-put_self}
use notary_platform.Records.Candidate.{AssuranceCandidate}
use notary_platform.Records.Evidence.{DecisionEvidenceRecord}
use notary_platform.Storage.{get_assurance_candidate, get_decision_evidence_record}
use notary_platform.Sweep.Bridge.{Authority, Clock, check_eligibility}
use notary_platform.Sweep.Promotion.{
  BridgedRecord, Incident, BridgeStorage, BridgeTexts, list_vrs_by_bridge_key, get_incident, put_vr,
  update_incident,
}
use notary_platform.Sweep.Promotion.Bundle.{bridge_key_of, incident_id_of}
use notary_platform.Sweep.Promotion.Promote.{
  promote_checked, promote-checked, Promoted, Promotion, promoted, promote_new, promote_keyed,
  promote_known, promote_parts, promote, incident_named,
}
use notary_platform.Sweep.Promotion.Incidents.{
  bridged_record, create_vr_for_candidate, incident_from_vr, create_incident_from_vr,
  record_incident_lineage, lineage_of, custody, authority_actor,
}
use notary_platform.Sweep.Promotion.Again.{new_own, new_done, made, bundle_made}

not_known :
    (c : AssuranceCandidate) (authority : Authority) (org_id bridge_key : String)
    (vr : BridgedRecord) (found : Option Incident) (p : Promoted)
    → promote_known c authority org_id bridge_key vr found ≡ promoted p
    → p.is_new_record ≡ false
not_known c authority org_id bridge_key vr none p h = absurd (ground arith)
not_known c authority org_id bridge_key vr (some incident) p h = ground arith

-- the candidate, the record and the authority of a new promotion
pub record NewFrom (t : BridgeTexts) (org_id : String) (s : BridgeStorage) (p : Promoted)
    (s₁ : BridgeStorage) (candidate : Option AssuranceCandidate) : Type 0 where
  pub source : AssuranceCandidate
  pub evidence : DecisionEvidenceRecord
  pub authority : Authority
  pub has_source : candidate ≡ some source
  pub has_evidence : get_decision_evidence_record source.der_id s.sweep ≡ some evidence
  pub none_yet : list_vrs_by_bridge_key (bridge_key_of t source) org_id s ≡ []
  pub by_new :
      promote_new t source evidence authority org_id (bridge_key_of t source) s ≡ (promoted p, s₁)

keyed_new :
    (t : BridgeTexts) (c : AssuranceCandidate) (der : DecisionEvidenceRecord) (a : Authority)
    (org_id bridge_key : String) (s : BridgeStorage) (p : Promoted) (s₁ : BridgeStorage)
    (records : List BridgedRecord)
    → promote_keyed t c der a org_id bridge_key s records ≡ (promoted p, s₁)
    → p.is_new_record ≡ true
    → (records ≡ [])
      × ◌≡◌ {A = Promotion × BridgeStorage}
          (promote_new t c der a org_id bridge_key s)
          (promoted p, s₁)
keyed_new t c der a org_id bridge_key s p s₁ [] h is_new = (refl, h)
keyed_new t c der a org_id bridge_key s p s₁ (vr ∷ others) h is_new =
    let result : promote_known c a org_id bridge_key vr (incident_named vr s) ≡ promoted p =
      ap (λ x. x.0) h in
    absurd
      (let old = not_known c a org_id bridge_key vr (incident_named vr s) p result in ground arith)

parts_new :
    (t : BridgeTexts) (org_id : String) (s : BridgeStorage) (candidate : Option AssuranceCandidate)
    (authority : Option Authority) (p : Promoted) (s₁ : BridgeStorage)
    → promote_parts t org_id s candidate authority ≡ some (promoted p, s₁)
    → p.is_new_record ≡ true
    → NewFrom t org_id s p s₁ candidate
parts_new t org_id s none authority p s₁ h is_new = absurd (ground arith)
parts_new t org_id s (some c) authority p s₁ h is_new =
    elim (Option-cases (get_decision_evidence_record c.der_id s.sweep)) [
      | inl e ↦ absurd (let h' = rw e at h in ground arith)
      | inr (der, e) ↦ elim (Option-cases authority) [
        | inl f ↦ absurd (let h' = rw (e, f) at h in ground arith)
        | inr (a, f) ↦
            let key = bridge_key_of t c in
            let outcome =
              promote_keyed t c der a org_id key s (list_vrs_by_bridge_key key org_id s) in
            let written : some outcome ≡ some (promoted p, s₁) = rw (e, f) at h in
            let new =
              keyed_new t c der a org_id key s p s₁ (list_vrs_by_bridge_key key org_id s)
                (some-injective _ _ written) is_new in
            record {
              source = c;
              evidence = der;
              authority = a;
              has_source = refl;
              has_evidence = e;
              none_yet = new.0;
              by_new = new.1;
            }
      ]
    ]

pub promote-NewFrom :
    (clock : Clock) (t : BridgeTexts) (candidate_id org_id : String) (s : BridgeStorage)
    (p : Promoted) (s₁ : BridgeStorage)
    → promote clock t candidate_id org_id s ≡ some (promoted p, s₁)
    → p.is_new_record ≡ true
    → NewFrom t org_id s p s₁ (get_assurance_candidate candidate_id s.sweep)
      × ((check_eligibility clock candidate_id org_id s.sweep).eligible ≡ true)
unfolding promote_checked
promote-NewFrom clock t candidate_id org_id s p s₁ h is_new =
    let answered = (promote-checked clock t candidate_id org_id s (promoted p, s₁) h).1 in
    elim (Bool-cases (check_eligibility clock candidate_id org_id s.sweep).eligible) [
      | inr e ↦ absurd (let h' = rw e at answered in ground arith)
      | inl e ↦ (
        parts_new t org_id s (get_assurance_candidate candidate_id s.sweep)
            (check_eligibility clock candidate_id org_id s.sweep).authority p s₁ (rw e at answered)
            is_new,
        e,
      )
    ]

module _ (t : BridgeTexts) (c : AssuranceCandidate) (der : DecisionEvidenceRecord)
    (authority : Authority) (org_id bridge_key : String) (s : BridgeStorage) where
  -- the incident of the promotion, with its lineage
  abbrev pub incident_made : Incident
  incident_made =
      let incident =
        incident_from_vr t
          (bridged_record t c (bundle_made t c der authority org_id bridge_key s) bridge_key)
          (incident_id_of t bridge_key) in
      let b = bundle_made t c der authority org_id bridge_key s in
      record incident {
        lineage = some (lineage_of c der b.id authority b.subjects);
        custody =
            incident.custody
            ++ (custody t "promoted_from_assurance_candidate" (authority_actor authority)
                  ("candidate=" <> c.id <> "; bundle=" <> b.id)
                ∷ []);
      }

  pub record_stored :
      (p : Promoted) (s₁ : BridgeStorage)
      → promote_new t c der authority org_id bridge_key s ≡ (promoted p, s₁)
      → get p.verification_record_id s₁.vrs ≡ some (made t c der authority org_id bridge_key s)
  unfolding promote_new bridged_record create_vr_for_candidate create_incident_from_vr
      record_incident_lineage put_vr update_incident
  record_stored p s₁ h =
      let own = new_own t c der authority org_id bridge_key s p s₁ h in
      let at : (promote_new t c der authority org_id bridge_key s).1 ≡ s₁ = ap (λ x. x.1) h in
      let same = new_done t c der authority org_id bridge_key s p s₁ h in
      rw (sym same, sym at, own, get-put_self) refl

  pub incident_stored :
      (p : Promoted) (s₁ : BridgeStorage)
      → promote_new t c der authority org_id bridge_key s ≡ (promoted p, s₁)
      → get_incident (incident_id_of t bridge_key) s₁ ≡ some incident_made
  unfolding promote_new bridged_record create_incident_from_vr record_incident_lineage put_vr
      update_incident get_incident incident_from_vr
  incident_stored p s₁ h =
      let own = new_own t c der authority org_id bridge_key s p s₁ h in
      let at : (promote_new t c der authority org_id bridge_key s).1 ≡ s₁ = ap (λ x. x.1) h in
      rw (sym at, own, get-put_self) refl
