-- ===== src/Sweep/Promotion/Again.antt =====
-- Promoting twice: `promote` of src/notary_platform/sweep/bridge.py finds the record it has stored.
use notary_platform.Prelude.{
  String, ◌≡◌, refl, sym, ap, ◌∙◌, eq_refl, true, false, ◌&&◌, ◌==◌, Bool-cases, Option-cases, inl,
  inr, Option, none, some, List, [], ◌∷◌, ◌<>◌, nonblank, arith, nonblank-append,
}
use mathlib.Core.Option.{some-injective}
use notary_platform.Dict.{get-put_self, put-put, keep-put}
use notary_platform.Records.Candidate.{AssuranceCandidate}
use notary_platform.Records.Evidence.{DecisionEvidenceRecord}
use notary_platform.Storage.{get_assurance_candidate, get_decision_evidence_record}
use notary_platform.Sweep.Bridge.{eligibility_raises, Authority, Clock, check_eligibility}
use notary_platform.Sweep.Promotion.{
  BridgedRecord, Incident, BridgeStorage, BridgeTexts, list_vrs_by_bridge_key, get_incident,
  EvidenceBundle, put_vr, update_incident,
}
use notary_platform.Sweep.Promotion.Bundle.{
  bundle_of, bridge_key_of, incident_id_of, verification_record_id, freeze_evidence_bundle,
  recalculate_evidence_level,
}
use notary_platform.Sweep.Promotion.Promote.{
  promote_checked, promote-checked, Promoted, Promotion, promoted, promoted_as, promote_known,
  promote_new, promote_keyed, incident_named, promote, promote_parts, lineage_ref,
}
use notary_platform.Sweep.Promotion.Incidents.{
  bridged_record, incident_from_vr, lineage_of, create_vr_for_candidate, create_incident_from_vr,
  record_incident_lineage,
}

-- the result and the storage of a promotion that is written out
promoted_parts :
    (p q : Promoted) (s s₁ : BridgeStorage)
    (h : ◌≡◌ {A = Promotion × BridgeStorage} (promoted p, s) (promoted q, s₁))
    → (p ≡ q) × (s ≡ s₁)
promoted_parts p q s s₁ h =
    let same : promoted p ≡ promoted q = ap (λ x. x.0) h in (ground (arith, same), ap (λ x. x.1) h)

-- a candidate whose record is there
known_again :
    (c : AssuranceCandidate) (authority : Authority) (org_id bridge_key : String)
    (vr : BridgedRecord) (found : Option Incident) (p : Promoted)
    → promote_known c authority org_id bridge_key vr found ≡ promoted p
    → record p { is_new_record = false } ≡ p
known_again c authority org_id bridge_key vr none p h = absurd (ground arith)
known_again c authority org_id bridge_key vr (some incident) p h =
    elim (Bool-cases (nonblank (lineage_ref incident.lineage))) [
      | inr e ↦ absurd (let h' = rw e at h in ground arith)
      | inl e ↦ elim (Bool-cases (incident.org_id == org_id)) [
        | inr f ↦ absurd (let h' = rw (e, f) at h in ground arith)
        | inl f ↦
            let done =
              promoted_as c authority vr (lineage_ref incident.lineage) false incident.incident_id
                bridge_key in
            let written : promoted done ≡ promoted p = rw (e, f) at h in
            let same : done ≡ p = ground (arith, written) in
            let unmarked : Promoted → Promoted = λ q. record q { is_new_record = false } in
            ap unmarked (sym same) ∙ same
      ]
    ]

-- a candidate whose record is made
module _ (t : BridgeTexts) (c : AssuranceCandidate) (der : DecisionEvidenceRecord)
    (authority : Authority) (org_id bridge_key : String) (s : BridgeStorage) where
  abbrev pub bundle_made : EvidenceBundle
  bundle_made =
      freeze_evidence_bundle t c der bridge_key authority
        (recalculate_evidence_level c.id org_id bridge_key s) s.sweep

  -- the record as it is left, with its incident
  abbrev pub made : BridgedRecord
  made = record (bridged_record t c bundle_made bridge_key) {
    promoted_to_incident = incident_id_of t bridge_key;
  }

  pub new_own :
      (p : Promoted) (s₁ : BridgeStorage)
      → promote_new t c der authority org_id bridge_key s ≡ (promoted p, s₁)
      → (c.org_id == org_id) ≡ true
  unfolding promote_new bridged_record
  new_own p s₁ h = elim (Bool-cases (c.org_id == org_id)) [
    | inl e ↦ e
    | inr e ↦
        let gone : (promote_new t c der authority org_id bridge_key s).0 ≡ promoted p =
          ap (λ x. x.0) h in
        absurd (let h' = rw e at gone in ground arith)
  ]

  abbrev pub done : Promoted
  done =
      promoted_as c authority (bridged_record t c bundle_made bridge_key) bundle_made.id true
        (incident_id_of t bridge_key) bridge_key

  pub new_done :
      (p : Promoted) (s₁ : BridgeStorage)
      → promote_new t c der authority org_id bridge_key s ≡ (promoted p, s₁)
      → done ≡ p
  unfolding promote_new bridged_record
  new_done p s₁ h =
      let own = new_own p s₁ h in
      let result : (promote_new t c der authority org_id bridge_key s).0 ≡ promoted p =
        ap (λ x. x.0) h in
      let written : promoted done ≡ promoted p = rw own at result in ground (arith, written)

  new_listed :
      (p : Promoted) (s₁ : BridgeStorage)
      → promote_new t c der authority org_id bridge_key s ≡ (promoted p, s₁)
      → list_vrs_by_bridge_key bridge_key org_id s ≡ []
      → list_vrs_by_bridge_key bridge_key org_id s₁ ≡ made ∷ []
  unfolding promote_new bridged_record list_vrs_by_bridge_key create_vr_for_candidate
      create_incident_from_vr record_incident_lineage put_vr update_incident
  new_listed p s₁ h none_yet =
      let own = new_own p s₁ h in
      let at : (promote_new t c der authority org_id bridge_key s).1 ≡ s₁ = ap (λ x. x.1) h in
      let passes : (bridge_key == bridge_key && c.org_id == org_id) ≡ true =
        rw (eq_refl bridge_key, own) refl in
      rw (sym at, own, put-put)
        (keep-put (λ vr. vr.bridge_key == bridge_key && vr.org_id == org_id)
          (verification_record_id t bridge_key) made s.vrs none_yet passes)

  -- the incident that the record names, with its lineage
  new_named :
      (later : BridgeTexts) (p : Promoted) (s₁ : BridgeStorage)
      → promote_new t c der authority org_id bridge_key s ≡ (promoted p, s₁)
      → promote_known c authority org_id bridge_key made (incident_named made s₁)
        ≡ promoted (record p { is_new_record = false })
  unfolding promote_new bridged_record create_vr_for_candidate create_incident_from_vr
      record_incident_lineage put_vr update_incident get_incident incident_from_vr lineage_of
      incident_id_of freeze_evidence_bundle bundle_of
  new_named later p s₁ h =
      let own = new_own p s₁ h in
      let at : (promote_new t c der authority org_id bridge_key s).1 ≡ s₁ = ap (λ x. x.1) h in
      let same = new_done p s₁ h in
      let unmarked : Promoted → Promoted = λ q. record q { is_new_record = false } in
      let has_incident : nonblank (incident_id_of t bridge_key) ≡ true =
        nonblank-append "inc-bridge-" _ refl in
      let has_bundle : nonblank bundle_made.id ≡ true =
        nonblank-append "urn:notary:evidence-bundle:" _ refl in
      rw (sym at, own, has_incident, put-put, get-put_self)
        (rw (has_bundle, own) (ap (λ q. promoted (unmarked q)) same))

  pub new_sweep :
      (p : Promoted) (s₁ : BridgeStorage)
      → promote_new t c der authority org_id bridge_key s ≡ (promoted p, s₁)
      → s₁.sweep ≡ s.sweep
  unfolding promote_new create_vr_for_candidate create_incident_from_vr record_incident_lineage
      put_vr update_incident
  new_sweep p s₁ h =
      let own = new_own p s₁ h in
      let at : (promote_new t c der authority org_id bridge_key s).1 ≡ s₁ = ap (λ x. x.1) h in
      rw (sym at, own) refl

-- what is left of a promotion, when it is asked for again with a later clock and other draws
abbrev Repeats :
    BridgeTexts
    → BridgeTexts
    → AssuranceCandidate
    → DecisionEvidenceRecord
    → Authority
    → (org_id bridge_key : String) → BridgeStorage
    → Promoted
    → BridgeStorage
    → Type 0
Repeats t later c der authority org_id bridge_key s p s₁ =
    (s₁.sweep ≡ s.sweep)
    × ◌≡◌ {A = Promotion × BridgeStorage}
        (promote_keyed later c der authority org_id bridge_key s₁
          (list_vrs_by_bridge_key bridge_key org_id s₁))
        (promoted (record p { is_new_record = false }), s₁)

keyed_again :
    (t later : BridgeTexts) (c : AssuranceCandidate) (der : DecisionEvidenceRecord)
    (authority : Authority) (org_id bridge_key : String) (s : BridgeStorage) (p : Promoted)
    (s₁ : BridgeStorage) (records : List BridgedRecord)
    → list_vrs_by_bridge_key bridge_key org_id s ≡ records
    → promote_keyed t c der authority org_id bridge_key s records ≡ (promoted p, s₁)
    → Repeats t later c der authority org_id bridge_key s p s₁
keyed_again t later c der authority org_id bridge_key s p s₁ [] listed h =
    let at = new_named t c der authority org_id bridge_key s later p s₁ h in
    (
      new_sweep t c der authority org_id bridge_key s p s₁ h,
      rw (new_listed t c der authority org_id bridge_key s p s₁ h listed)
          (ap (λ (r : Promotion). (r, s₁)) at),
    )
keyed_again t later c der authority org_id bridge_key s p s₁ (vr ∷ others) listed h =
    let same : s ≡ s₁ = ap (λ x. x.1) h in
    let result : promote_known c authority org_id bridge_key vr (incident_named vr s) ≡ promoted p =
      ap (λ x. x.0) h in
    let kept = known_again c authority org_id bridge_key vr (incident_named vr s) p result in
    (
      ap (λ (x : BridgeStorage). x.sweep) (sym same),
      rw (sym same, listed) (ap (λ (r : Promotion). (r, s)) (result ∙ ap promoted (sym kept))),
    )

parts_again :
    (t later : BridgeTexts) (org_id : String) (s : BridgeStorage)
    (candidate : Option AssuranceCandidate) (authority : Option Authority) (p : Promoted)
    (s₁ : BridgeStorage)
    → later.sha256 ≡ t.sha256
    → promote_parts t org_id s candidate authority ≡ some (promoted p, s₁)
    → (s₁.sweep ≡ s.sweep)
      × (promote_parts later org_id s₁ candidate authority
          ≡ some (promoted (record p { is_new_record = false }), s₁))
unfolding bridge_key_of
parts_again t later org_id s none authority p s₁ digest h = absurd (ground arith)
parts_again t later org_id s (some c) none p s₁ digest h =
    elim (Option-cases (get_decision_evidence_record c.der_id s.sweep)) [
      | inl e ↦ absurd (let h' = rw e at h in ground arith)
      | inr (der, e) ↦ absurd (let h' = rw e at h in ground arith)
    ]
parts_again t later org_id s (some c) (some a) p s₁ digest h =
    elim (Option-cases (get_decision_evidence_record c.der_id s.sweep)) [
      | inl e ↦ absurd (let h' = rw e at h in ground arith)
      | inr (der, e) ↦
          let key = bridge_key_of t c in
          let outcome =
            promote_keyed t c der a org_id key s (list_vrs_by_bridge_key key org_id s) in
          let written : some outcome ≡ some (promoted p, s₁) = rw e at h in
          let repeats =
            keyed_again t later c der a org_id key s p s₁ (list_vrs_by_bridge_key key org_id s) refl
              (some-injective _ _ written) in
          let still : get_decision_evidence_record c.der_id s₁.sweep ≡ some der =
            ap (get_decision_evidence_record c.der_id) repeats.0 ∙ e in
          let same_key : bridge_key_of later c ≡ key =
            ap (λ f. "bridge-" <> f (c.org_id <> "|" <> c.environment_id <> "|" <> c.id)) digest in
          (repeats.0, rw (still, same_key) (ap (λ x. some x) repeats.1))
    ]

-- Promoting a candidate that was promoted answers the same promotion, as not new, and changes
-- nothing: later, with other draws and another time of creation, the eligibility's clock and the
-- digest being as before.
pub promote_again :
    (clock : Clock) (t later : BridgeTexts) (candidate_id org_id : String) (s : BridgeStorage)
    (p : Promoted) (s₁ : BridgeStorage)
    → later.sha256 ≡ t.sha256
    → promote clock t candidate_id org_id s ≡ some (promoted p, s₁)
    → promote clock later candidate_id org_id s₁
      ≡ some (promoted (record p { is_new_record = false }), s₁)
unfolding promote promote_checked bridge_key_of
promote_again clock t later candidate_id org_id s p s₁ digest h =
    let (quiet, answered) = promote-checked clock t candidate_id org_id s (promoted p, s₁) h in
    elim (Bool-cases (check_eligibility clock candidate_id org_id s.sweep).eligible) [
      | inr e ↦ absurd (let h' = rw e at answered in ground arith)
      | inl e ↦
          let found = rw e at answered in
          let again =
            parts_again t later org_id s (get_assurance_candidate candidate_id s.sweep)
              (check_eligibility clock candidate_id org_id s.sweep).authority p s₁ digest found in
          let eligible₁ : (check_eligibility clock candidate_id org_id s₁.sweep).eligible ≡ true =
            ap (λ x. (check_eligibility clock candidate_id org_id x).eligible) again.0 ∙ e in
          let quiet₁ : eligibility_raises clock candidate_id org_id s₁.sweep ≡ false =
            ap (eligibility_raises clock candidate_id org_id) again.0 ∙ quiet in
          let authority₁ =
            ap (λ x. (check_eligibility clock candidate_id org_id x).authority) again.0 in
          let found₁ = ap (get_assurance_candidate candidate_id) again.0 in
          rw (quiet₁, eligible₁, authority₁, found₁) again.1
    ]
