-- ===== src/Sweep/Promotion/Sealed.antt =====
-- What a new promotion leaves behind, by `promote` of src/notary_platform/sweep/bridge.py: the sealed
-- bundle and the incident that names it.
use notary_platform.Prelude.{
  String, ◌≡◌, refl, ap, eq_refl, true, false, ◌==◌, Option-cases, inl, inr, Option, none, some, [],
  ◌<>◌, arith, apart_append, any,
}
use mathlib.Core.Path.{subst}
use notary_platform.Sweep.Sufficiency.{recalculate_after_verification}
use text.Mathlib.TextLemmas.{append_assoc}
use notary_platform.Dict.{get, get-put, get-put_self}
use notary_platform.Records.Candidate.{AssuranceCandidate}
use notary_platform.Records.Evidence.{DecisionEvidenceRecord}
use notary_platform.Storage.{MemoryStorage, get_assurance_candidate}
use notary_platform.Sweep.Bridge.{Authority, Clock}
use notary_platform.Sweep.Promotion.{
  Evidence, bundle, snapshot, Incident, BridgeStorage, BridgeTexts, list_vrs_by_bridge_key,
  get_incident, store_evidence_bundle, put_vr, update_incident, persist_evidence,
  create_evidence_artifact,
}
use notary_platform.Sweep.Promotion.Bundle.{
  bundle_of, manifest_of, verify_bundle_digest, bridge_key_of, incident_id_of,
  freeze_evidence_bundle, recalculate_evidence_level,
}
use notary_platform.Sweep.Promotion.Promote.{Promoted, promoted, promote_new, promote, lineage_ref}
use notary_platform.Sweep.Promotion.Incidents.{
  bridged_record, lineage_of, incident_from_vr, create_vr_for_candidate, create_incident_from_vr,
  record_incident_lineage,
}
use notary_platform.Sweep.Promotion.Origin.{promote-NewFrom}
use notary_platform.Sweep.Promotion.Again.{new_own, new_done, done}

abbrev pub level_of : Option AssuranceCandidate → String
level_of none = ""
level_of (some c) = c.evidence_level

-- what is stored under the reference of a promotion is a bundle for it, whose digest is right and
-- whose level is the stored candidate's own
abbrev pub SealedFor : BridgeTexts → MemoryStorage → Promoted → Option Evidence → Type 0
SealedFor t s p none = ⊥
SealedFor t s p (some (snapshot d)) = ⊥
SealedFor t s p (some (bundle b)) =
    (verify_bundle_digest t b ≡ true)
    × ((b.manifest.bridge_key ≡ p.bridge_key)
        × ((b.manifest.authority ≡ p.authority)
            × ((b.manifest.candidate_id ≡ p.candidate_id)
                × (b.manifest.evidence_level
                    ≡ level_of (get_assurance_candidate p.candidate_id s)))))

-- the incident of a promotion is the organization's and names its bundle
abbrev pub NamedBy : String → Promoted → Option Incident → Type 0
NamedBy org_id p none = ⊥
NamedBy org_id p (some incident) =
    ((incident.org_id == org_id) ≡ true) × (lineage_ref incident.lineage ≡ p.evidence_bundle_ref)

-- the reference of an incident's snapshot is no reference of a bundle
refs_apart :
    (h rest d : String)
    → ((("inc-bridge-" <> h) <> rest) == ("urn:notary:evidence-bundle:" <> d)) ≡ false
refs_apart h rest d =
    let left = append_assoc "inc-bridge-" h rest in
    let right = append_assoc "urn:notary:" "evidence-bundle:" d in
    rw (left, right)
      (apart_append "inc-bridge-" "urn:notary:" (h <> rest) ("evidence-bundle:" <> d) refl refl)

level_unraised : (level : String) → recalculate_after_verification level false false ≡ level
unfolding recalculate_after_verification
level_unraised level = ground arith

-- with no record of the key there is no replay and no test that could raise the level
level_kept :
    (id org_id bridge_key : String) (s : BridgeStorage)
    → list_vrs_by_bridge_key bridge_key org_id s ≡ []
    → recalculate_evidence_level id org_id bridge_key s
      ≡ level_of (get_assurance_candidate id s.sweep)
unfolding recalculate_evidence_level any
level_kept id org_id bridge_key s h = elim (Option-cases (get_assurance_candidate id s.sweep)) [
  | inl e ↦ rw e refl
  | inr (c, e) ↦ rw (e, h) (level_unraised c.evidence_level)
]

module _ (t : BridgeTexts) (c : AssuranceCandidate) (der : DecisionEvidenceRecord)
    (authority : Authority) (org_id bridge_key : String) (s : BridgeStorage) where
  new_sealed :
      (p : Promoted) (s₁ : BridgeStorage)
      → promote_new t c der authority org_id bridge_key s ≡ (promoted p, s₁)
      → list_vrs_by_bridge_key bridge_key org_id s ≡ []
      → SealedFor t s.sweep p (get p.evidence_bundle_ref s₁.evidence)
  unfolding promote_new bundle_of freeze_evidence_bundle manifest_of store_evidence_bundle
      create_vr_for_candidate create_incident_from_vr record_incident_lineage put_vr update_incident
      persist_evidence create_evidence_artifact verify_bundle_digest incident_id_of
  new_sealed p s₁ h none_yet =
      let own = new_own t c der authority org_id bridge_key s p s₁ h in
      let at : (promote_new t c der authority org_id bridge_key s).1 ≡ s₁ = ap (λ x. x.1) h in
      let marked = done t c der authority org_id bridge_key s in
      let level = level_kept c.id org_id bridge_key s none_yet in
      subst (λ q. SealedFor t s.sweep q (get q.evidence_bundle_ref s₁.evidence))
        (new_done t c der authority org_id bridge_key s p s₁ h)
        (subst (λ x. SealedFor t s.sweep marked (get marked.evidence_bundle_ref x.evidence)) at
          (rw (own, get-put, refs_apart, get-put_self) (eq_refl _, (refl, (refl, (refl, level))))))

  new_incident :
      (p : Promoted) (s₁ : BridgeStorage)
      → promote_new t c der authority org_id bridge_key s ≡ (promoted p, s₁)
      → NamedBy org_id p (get_incident p.incident_ref s₁)
  unfolding promote_new bridged_record bundle_of freeze_evidence_bundle incident_from_vr
      create_incident_from_vr record_incident_lineage lineage_of put_vr update_incident get_incident
  new_incident p s₁ h =
      let own = new_own t c der authority org_id bridge_key s p s₁ h in
      let at : (promote_new t c der authority org_id bridge_key s).1 ≡ s₁ = ap (λ x. x.1) h in
      let marked = done t c der authority org_id bridge_key s in
      subst (λ q. NamedBy org_id q (get_incident q.incident_ref s₁))
        (new_done t c der authority org_id bridge_key s p s₁ h)
        (subst (λ x. NamedBy org_id marked (get_incident marked.incident_ref x)) at
          (rw (own, get-put_self) (own, refl)))

-- A new promotion leaves a bundle under the reference it answers: its digest is that of its
-- manifest, which names the promotion's bridge key, authority and candidate and states the stored
-- candidate's own evidence level. It leaves an incident of the organization under the one it
-- answers, whose lineage names that bundle.
pub promote_sealed :
    (clock : Clock) (t : BridgeTexts) (candidate_id org_id : String) (s : BridgeStorage)
    (p : Promoted) (s₁ : BridgeStorage)
    → promote clock t candidate_id org_id s ≡ some (promoted p, s₁)
    → p.is_new_record ≡ true
    → SealedFor t s.sweep p (get p.evidence_bundle_ref s₁.evidence)
      × NamedBy org_id p (get_incident p.incident_ref s₁)
promote_sealed clock t candidate_id org_id s p s₁ h is_new =
    let from = (promote-NewFrom clock t candidate_id org_id s p s₁ h is_new).0 in
    let key = bridge_key_of t from.source in
    (
      new_sealed t from.source from.evidence from.authority org_id key s p s₁ from.by_new
          from.none_yet,
      new_incident t from.source from.evidence from.authority org_id key s p s₁ from.by_new,
    )
