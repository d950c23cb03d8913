-- ===== src/Services/Mutations/Levels.antt =====
-- A verified fix of a promoted candidate, by `run_mutation` of
-- src/notary_platform/services/services.py after `promote` of src/notary_platform/sweep/bridge.py.
use notary_platform.Prelude.{
  String, ◌≡◌, refl, ap, ◌∙◌, true, ◌==◌, ◌||◌, Option, none, some, nonblank, last, [], ◌∷◌, ◌<>◌,
}
use notary_platform.Dict.{get-put_self}
use notary_platform.Value.{Fields}
use notary_platform.Protocol.Digest.{Outcome, value, raised}
use notary_platform.Records.Candidate.{AssuranceCandidate}
use notary_platform.Records.Evidence.{DecisionEvidenceRecord}
use notary_platform.Storage.{
  MemoryStorage, get_assurance_candidate, update_assurance_candidate, get_decision_evidence_record,
  create_decision_evidence_record,
}
use notary_platform.Replay.Snapshot.{Mutation}
use notary_platform.Services.Labels.{LabelRecord, ProofStorage, stored_vr}
use notary_platform.Sweep.Sufficiency.{recalculate_after_verification}
use notary_platform.Sweep.Promotion.{
  BridgedRecord, BridgeLineage, Incident, LinkedRun, LinkedTest, BridgeStorage, BridgeTexts,
  get_incident, update_incident, create_evidence_artifact, linked_runs,
}
use notary_platform.Sweep.Promotion.Sealed.{level_of}
use notary_platform.Services.Mutations.{
  run_mutation_test, finish_test, store_test, new_test, tested, label_for, expected_for,
  create_mutation_test, is_lineage_of, with_level,
}

raised_level :
    (level : String)
    → (level == "E3" || level == "E4") ≡ true
    → recalculate_after_verification level true true ≡ "E4"
unfolding recalculate_after_verification
raised_level level h = rw h refl

expected_given :
    (given : String) (label : Option LabelRecord)
    → nonblank given ≡ true
    → expected_for given label ≡ given
expected_given given none h = refl
expected_given given (some label) h = rw h refl

level_read :
    (level : String) (c : AssuranceCandidate) (der : DecisionEvidenceRecord) (s : MemoryStorage)
    → level_of (get_assurance_candidate c.id (with_level level c der s)) ≡ level
unfolding get_assurance_candidate update_assurance_candidate create_decision_evidence_record
level_read level c der s = rw get-put_self refl

module _ (t : BridgeTexts) (org_id : String) (vr : BridgedRecord) (fix_config : Fields)
    (lineage : BridgeLineage) (c : AssuranceCandidate) (der : DecisionEvidenceRecord) where
  finish_raised :
      (test : LinkedTest) (s : BridgeStorage) (incident : Incident)
      → (test.verdict == "verified") ≡ true
      → nonblank vr.promoted_to_incident ≡ true
      → get_incident vr.promoted_to_incident s ≡ some incident
      → incident.lineage ≡ some lineage
      → get_assurance_candidate lineage.candidate_id s.sweep ≡ some c
      → get_decision_evidence_record lineage.der_id s.sweep ≡ some der
      → is_lineage_of t org_id vr lineage c der ≡ true
      → (c.evidence_level == "E3" || c.evidence_level == "E4") ≡ true
      → level_of (get_assurance_candidate c.id (finish_test t org_id vr test fix_config s).sweep)
        ≡ "E4"
  unfolding update_incident update_assurance_candidate create_decision_evidence_record
  finish_raised test s incident verified promoted found named has_c has_der is enough =
      rw (promoted, found, verified, named, has_c, has_der, is)
        (level_read (recalculate_after_verification c.evidence_level true true) c der s.sweep
          ∙ raised_level c.evidence_level enough)

abbrev pub verdict_of : Outcome LinkedTest → String
verdict_of (raised message) = ""
verdict_of (value test) = test.verdict

-- the test is verified and the stored candidate has the highest level
abbrev pub Proven : (candidate_id : String) → Outcome LinkedTest × ProofStorage → Type 0
Proven candidate_id (outcome, s) =
    (verdict_of outcome ≡ "verified")
    × (level_of (get_assurance_candidate candidate_id s.bridge.sweep) ≡ "E4")

module _ (t : BridgeTexts) (org_id : String) (fix_config : Fields) where
  pub verified-Proven :
      (engine : String → Outcome Mutation) (m : Mutation) (vr_id given : String) (s : ProofStorage)
      (vr : BridgedRecord) (run : LinkedRun) (incident : Incident) (lineage : BridgeLineage)
      (c : AssuranceCandidate) (der : DecisionEvidenceRecord)
      → stored_vr vr_id s ≡ some vr
      → (vr.org_id == org_id) ≡ true
      → last (linked_runs vr_id s.bridge) ≡ some run
      → (run.status == "replayed") ≡ true
      → nonblank given ≡ true
      → engine given ≡ value m
      → m.mitigated ≡ true
      → nonblank vr.promoted_to_incident ≡ true
      → get_incident vr.promoted_to_incident s.bridge ≡ some incident
      → incident.lineage ≡ some lineage
      → get_assurance_candidate lineage.candidate_id s.bridge.sweep ≡ some c
      → get_decision_evidence_record lineage.der_id s.bridge.sweep ≡ some der
      → is_lineage_of t org_id vr lineage c der ≡ true
      → (c.evidence_level == "E3" || c.evidence_level == "E4") ≡ true
      → Proven c.id (run_mutation_test t engine vr_id org_id fix_config given s)
  unfolding run_mutation_test create_mutation_test create_evidence_artifact get_incident
  verified-Proven engine m vr_id given s vr run incident lineage c der found own has_run replayed
        expected answered mitigated promoted has_incident named has_c has_der is enough =
      let outcome = expected_given given (label_for vr s) expected in
      let test = tested (new_test t vr run fix_config given) (engine given) in
      let shown : LinkedTest = record test { evidence_refs = ("ev-" <> t.drawn "artifact") ∷ [] } in
      let verified : shown.verdict ≡ "verified" = rw (answered, mitigated) refl in
      let raised_to =
        finish_raised t org_id vr fix_config lineage c der shown (store_test t vr test s.bridge)
          incident (ap (λ v. v == "verified") verified) promoted has_incident named has_c has_der is
          enough in
      rw (found, own, has_run, outcome, replayed, expected) (verified, raised_to)
