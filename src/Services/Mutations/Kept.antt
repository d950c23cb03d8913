-- ===== src/Services/Mutations/Kept.antt =====
-- What a test of a fix leaves alone, by `run_mutation` of src/notary_platform/services/services.py.
use notary_platform.Prelude.{
  String, ◌≡◌, refl, sym, ap, ◌∙◌, false, ◌==◌, Bool-cases, Option-cases, inl, inr, Option, none,
  some, nonblank, arith, last, [], ◌∷◌, ◌<>◌,
}
use notary_platform.Dict.{get, get-put_self}
use notary_platform.Value.{Fields}
use notary_platform.Protocol.Digest.{Outcome, value, raised}
use notary_platform.Replay.Snapshot.{Mutation}
use notary_platform.Services.Labels.{ProofStorage, stored_vr}
use notary_platform.Sweep.Promotion.{
  BridgedRecord, Incident, LinkedRun, LinkedTest, BridgeStorage, BridgeTexts, get_incident,
  update_incident, create_evidence_artifact, linked_runs,
}
use notary_platform.Services.Mutations.{
  run_mutation_test, test_run, on_incident, finish_test, store_test, new_test, tested, label_for,
  expected_for, create_mutation_test,
}

-- An error leaves the storage. A test that is returned is stored, and the verification records, the
-- labels, the replay runs and the sealed evidence are as before.
abbrev pub Traced : ProofStorage → Outcome LinkedTest × ProofStorage → Type 0
Traced s (raised message, s₁) = s₁ ≡ s
Traced s (value test, s₁) =
    (get test.id s₁.bridge.mutation_tests ≡ some test)
    × ((s₁.bridge.vrs ≡ s.bridge.vrs)
        × ((s₁.label_records ≡ s.label_records)
            × ((s₁.bridge.replay_runs ≡ s.bridge.replay_runs)
                × (s₁.bridge.evidence ≡ s.bridge.evidence))))

module _ (t : BridgeTexts) (org_id : String) (vr : BridgedRecord) (fix_config : Fields) where
  -- what `on_incident` leaves, whatever it finds
  incident_kept :
      (test : LinkedTest) (s : BridgeStorage) (found : Option Incident)
      → let s₁ = on_incident t org_id vr test fix_config s found in
        (s₁.mutation_tests ≡ s.mutation_tests)
        × ((s₁.vrs ≡ s.vrs) × ((s₁.replay_runs ≡ s.replay_runs) × (s₁.evidence ≡ s.evidence)))
  unfolding update_incident
  incident_kept test s none = (refl, (refl, (refl, refl)))
  incident_kept test s (some incident) = elim (Bool-cases (test.verdict == "verified")) [
    | inl e ↦ rw e (refl, (refl, (refl, refl)))
    | inr e ↦ rw e (refl, (refl, (refl, refl)))
  ]

  finish_kept :
      (test : LinkedTest) (s : BridgeStorage)
      → let s₁ = finish_test t org_id vr test fix_config s in
        (s₁.mutation_tests ≡ s.mutation_tests)
        × ((s₁.vrs ≡ s.vrs) × ((s₁.replay_runs ≡ s.replay_runs) × (s₁.evidence ≡ s.evidence)))
  finish_kept test s = elim (Bool-cases (nonblank vr.promoted_to_incident)) [
    | inl e ↦ rw e (incident_kept test s (get_incident vr.promoted_to_incident s))
    | inr e ↦ rw e (refl, (refl, (refl, refl)))
  ]

  run-Traced :
      (engine : String → Outcome Mutation) (given : String) (s : ProofStorage)
      (found : Option LinkedRun)
      → Traced s (test_run t engine org_id vr fix_config given s found)
  unfolding create_mutation_test create_evidence_artifact
  run-Traced engine given s none = refl
  run-Traced engine given s (some run) =
      let expected = expected_for given (label_for vr s) in
      let test = tested (new_test t vr run fix_config expected) (engine expected) in
      let shown : LinkedTest = record test { evidence_refs = ("ev-" <> t.drawn "artifact") ∷ [] } in
      let kept = finish_kept shown (store_test t vr test s.bridge) in
      elim (Bool-cases (run.status == "replayed")) [
        | inr e ↦ rw e refl
        | inl e ↦ elim (Bool-cases (nonblank expected)) [
          | inr f ↦ rw (e, f) refl
          | inl f ↦
              rw (e, f)
                (
                  ap (get shown.id) kept.0 ∙ get-put_self shown.id shown s.bridge.mutation_tests,
                  (kept.1.0, (refl, (kept.1.1.0, kept.1.1.1))),
                )
        ]
      ]

-- Testing a fix either says what is wrong and leaves the storage, or returns a test that is stored,
-- and leaves the verification records, the labels, the replay runs and the sealed evidence.
pub run_mutation_test-Traced :
    (t : BridgeTexts) (engine : String → Outcome Mutation) (vr_id org_id : String)
    (fix_config : Fields) (given : String) (s : ProofStorage)
    → Traced s (run_mutation_test t engine vr_id org_id fix_config given s)
unfolding run_mutation_test
run_mutation_test-Traced t engine vr_id org_id fix_config given s =
    elim (Option-cases (stored_vr vr_id s)) [
      | inl gone ↦ rw gone refl
      | inr (vr, found) ↦ elim (Bool-cases (vr.org_id == org_id)) [
        | inr other ↦ rw (found, other) refl
        | inl own ↦
            rw (found, own)
              (run-Traced t org_id vr fix_config engine given s (last (linked_runs vr_id s.bridge)))
      ]
    ]

module _ (t : BridgeTexts) (org_id : String) (vr : BridgedRecord) (fix_config : Fields) where
  incident_unverified :
      (test : LinkedTest) (s : BridgeStorage) (found : Option Incident)
      → (test.verdict == "verified") ≡ false
      → (on_incident t org_id vr test fix_config s found).sweep ≡ s.sweep
  unfolding update_incident
  incident_unverified test s none h = refl
  incident_unverified test s (some incident) h = rw h refl

  finish_unverified :
      (test : LinkedTest) (s : BridgeStorage)
      → (test.verdict == "verified") ≡ false
      → (finish_test t org_id vr test fix_config s).sweep ≡ s.sweep
  finish_unverified test s h = elim (Bool-cases (nonblank vr.promoted_to_incident)) [
    | inl e ↦ rw e (incident_unverified test s (get_incident vr.promoted_to_incident s) h)
    | inr e ↦ rw e refl
  ]

  run_unverified :
      (engine : String → Outcome Mutation) (given : String) (s : ProofStorage)
      (found : Option LinkedRun) (test : LinkedTest) (s₁ : ProofStorage)
      → test_run t engine org_id vr fix_config given s found ≡ (value test, s₁)
      → (test.verdict == "verified") ≡ false
      → s₁.bridge.sweep ≡ s.bridge.sweep
  unfolding create_mutation_test create_evidence_artifact
  run_unverified engine given s none test s₁ h unverified =
      let answer : raised "Mutation requires a reproduced replay run" ≡ value test =
        ap (λ x. x.0) h in
      absurd (ground arith)
  run_unverified engine given s (some run) test s₁ h unverified =
      let expected = expected_for given (label_for vr s) in
      let made = tested (new_test t vr run fix_config expected) (engine expected) in
      let shown : LinkedTest = record made { evidence_refs = ("ev-" <> t.drawn "artifact") ∷ [] } in
      elim (Bool-cases (run.status == "replayed")) [
        | inr e ↦
            let answer : raised ("Replay not successful: " <> run.status) ≡ value test =
              let h' = rw e at h in ap (λ x. x.0) h' in
            absurd (ground arith)
        | inl e ↦ elim (Bool-cases (nonblank expected)) [
          | inr f ↦
              let answer : raised "Expected outcome is required for mutation test" ≡ value test =
                let h' = rw (e, f) at h in ap (λ x. x.0) h' in
              absurd (ground arith)
          | inl f ↦
              let h' = rw (e, f) at h in
              let answer : value shown ≡ value test = ap (λ x. x.0) h' in
              let same : shown ≡ test = ground (arith, answer) in
              let left : record s {
                bridge = finish_test t org_id vr shown fix_config (store_test t vr made s.bridge);
              }
                  ≡ s₁ =
                ap (λ x. x.1) h' in
              let none_verified : (shown.verdict == "verified") ≡ false =
                ap (λ (x : LinkedTest). x.verdict == "verified") same ∙ unverified in
              ap (λ (x : ProofStorage). x.bridge.sweep) (sym left)
              ∙ finish_unverified shown (store_test t vr made s.bridge) none_verified
        ]
      ]

-- A test that is not verified changes no evidence level: nothing of what the sweep stores.
pub unverified_kept :
    (t : BridgeTexts) (engine : String → Outcome Mutation) (vr_id org_id : String)
    (fix_config : Fields) (given : String) (s : ProofStorage) (test : LinkedTest)
    (s₁ : ProofStorage)
    → run_mutation_test t engine vr_id org_id fix_config given s ≡ (value test, s₁)
    → (test.verdict == "verified") ≡ false
    → s₁.bridge.sweep ≡ s.bridge.sweep
unfolding run_mutation_test
unverified_kept t engine vr_id org_id fix_config given s test s₁ h unverified =
    elim (Option-cases (stored_vr vr_id s)) [
      | inl gone ↦
          let answer : raised "Verification Record not found" ≡ value test =
            let h' = rw gone at h in ap (λ x. x.0) h' in
          absurd (ground arith)
      | inr (vr, found) ↦ elim (Bool-cases (vr.org_id == org_id)) [
        | inr other ↦
            let answer : raised "Verification Record not found" ≡ value test =
              let h' = rw (found, other) at h in ap (λ x. x.0) h' in
            absurd (ground arith)
        | inl own ↦
            run_unverified t org_id vr fix_config engine given s (last (linked_runs vr_id s.bridge))
              test s₁ (rw (found, own) at h) unverified
      ]
    ]
