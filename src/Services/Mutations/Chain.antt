-- ===== src/Services/Mutations/Chain.antt =====
-- Promotion, replay and test of a fix in a row: `promote` of src/notary_platform/sweep/bridge.py, then
-- `run_replay` and `run_mutation` of src/notary_platform/services/services.py.
use notary_platform.Prelude.{
  String, ◌≡◌, refl, sym, ap, ◌∙◌, eq_iff, true, ◌==◌, ◌&&◌, ◌<>◌, not, Bool-cases, inl, inr, none,
  some, nonblank, last, keep,
}
use mathlib.Core.Path.{subst}
use notary_platform.Dict.{Dict, get, values, last-put}
use notary_platform.Value.{Fields}
use notary_platform.Protocol.Digest.{Outcome, value}
use notary_platform.Records.Candidate.{AssuranceCandidate}
use notary_platform.Storage.{get_assurance_candidate}
use notary_platform.Replay.Snapshot.{Mutation, ReplayResult}
use notary_platform.Services.Labels.{LabelRecord, ProofStorage}
use notary_platform.Services.Mutations.{run_mutation_test}
use notary_platform.Services.Mutations.Levels.{Proven}
use notary_platform.Services.Mutations.Loop.{proof_loop, incident_id_of-nonblank}
use notary_platform.Services.Replays.{
  Execution, run_replay, finish_run, store_run, with_artifact, compared, executed, new_run,
  create_replay_run, trace_on,
}
use notary_platform.Services.Replays.Stored.{lineage_in, finish-Untouched, trace_lineage}
use notary_platform.Sweep.Bridge.{Clock}
use notary_platform.Sweep.Promotion.{
  BridgedRecord, Incident, BridgeStorage, BridgeTexts, LinkedRun, linked_runs, get_incident,
  create_evidence_artifact,
}
use notary_platform.Sweep.Promotion.Bundle.{bridge_key_of, incident_id_of}
use notary_platform.Sweep.Promotion.Promote.{Promoted, promoted, promote}
use notary_platform.Sweep.Promotion.Incidents.{bridged_record, incident_from_vr}
use notary_platform.Sweep.Promotion.Again.{made, new_own, new_done}
use notary_platform.Sweep.Promotion.Origin.{
  promote-NewFrom, incident_made, record_stored, incident_stored,
}

-- comparing the decisions adds limitations only
compared_kept :
    (run : LinkedRun)
    → ((compared run).id ≡ run.id)
      × (((compared run).status ≡ run.status)
          × ((compared run).verification_record_id ≡ run.verification_record_id))
compared_kept run =
    elim (Bool-cases (
      nonblank run.replayed_decision
      && nonblank run.original_decision
      && not (run.replayed_decision == run.original_decision))) [
        | inl e ↦ rw e (refl, (refl, refl))
        | inr e ↦ rw e (refl, (refl, refl))
      ]

-- the replay of a record whose incident is there
module _ (t : BridgeTexts) (vr : BridgedRecord) (run : LinkedRun) (incident : Incident)
    (s : BridgeStorage) where
  abbrev pub finished : BridgeStorage
  finished = finish_run t vr (with_artifact t run) (store_run t vr run s)

  finished-last :
      (id : String)
      → get run.id s.replay_runs ≡ none
      → (run.verification_record_id == id) ≡ true
      → last (linked_runs id finished) ≡ some (with_artifact t run)
  unfolding linked_runs create_replay_run create_evidence_artifact
  finished-last id fresh same =
      let kept = finish-Untouched t (with_artifact t run) vr (store_run t vr run s) in
      ap (λ (m : Dict LinkedRun). last (keep (λ r. r.verification_record_id == id) (values m)))
        kept.0
      ∙ last-put (λ r. r.verification_record_id == id) run.id (with_artifact t run) s.replay_runs
          fresh same

  finished_lineage :
      nonblank vr.promoted_to_incident ≡ true
      → get_incident vr.promoted_to_incident s ≡ some incident
      → incident.incident_id ≡ vr.promoted_to_incident
      → lineage_in (get_incident vr.promoted_to_incident finished) ≡ incident.lineage
  unfolding create_replay_run create_evidence_artifact get_incident
  finished_lineage named there keyed =
      let traced = trace_lineage t (with_artifact t run) incident (store_run t vr run s) in
      let there' : get_incident vr.promoted_to_incident (store_run t vr run s) ≡ some incident =
        there in
      rw (named, there')
        (subst
          (λ i.
            lineage_in (
              get_incident i
                (trace_on t (with_artifact t run) (store_run t vr run s) (some incident)))
            ≡ incident.lineage)
          keyed traced)

-- A candidate that is promoted, replayed by the configured runner and then tested with a fix that
-- mitigates has level E4, and the test is verified: whatever the runner decides, provided it ends
-- as replayed, and its run's id is new. The candidate is stored under its own id, and the test has
-- the digest of the promotion.
pub proof_chain :
    (clock : Clock) (t during later : BridgeTexts) (candidate_id org_id : String)
    (s : BridgeStorage) (p : Promoted) (b : BridgeStorage) (c : AssuranceCandidate)
    (labels : Dict LabelRecord) (execution : Execution) (demo : Outcome ReplayResult)
    (engine : String → Outcome Mutation) (m : Mutation) (fix_config : Fields) (given : String)
    → promote clock t candidate_id org_id s ≡ some (promoted p, b)
    → p.is_new_record ≡ true
    → get_assurance_candidate candidate_id s.sweep ≡ some c
    → c.id ≡ candidate_id
    → later.sha256 ≡ t.sha256
    → get ("rr-" <> during.drawn "run") b.replay_runs ≡ none
    → (execution.status == "replayed") ≡ true
    → nonblank given ≡ true
    → engine given ≡ value m
    → m.mitigated ≡ true
    → Proven candidate_id (
        run_mutation_test later engine p.verification_record_id org_id fix_config given (record {
          bridge = (run_replay during (some execution) demo p.verification_record_id org_id b).1;
          label_records = labels;
        }))
unfolding run_replay bridged_record incident_from_vr create_replay_run create_evidence_artifact
proof_chain clock t during later candidate_id org_id s p b c labels execution demo engine m
      fix_config given h is_new found keyed digest fresh ended_well expected answered mitigated =
    let from = (promote-NewFrom clock t candidate_id org_id s p b h is_new).0 in
    let key = bridge_key_of t from.source in
    let own = new_own t from.source from.evidence from.authority org_id key s p b from.by_new in
    let vr = made t from.source from.evidence from.authority org_id key s in
    let incident = incident_made t from.source from.evidence from.authority org_id key s in
    let stored =
      record_stored t from.source from.evidence from.authority org_id key s p b from.by_new in
    let there =
      incident_stored t from.source from.evidence from.authority org_id key s p b from.by_new in
    let same = new_done t from.source from.evidence from.authority org_id key s p b from.by_new in
    let run =
      compared (executed vr (some execution) demo (new_run during vr "cassette" "not_started")) in
    let kept =
      compared_kept
        (executed vr (some execution) demo (new_run during vr "cassette" "not_started")) in
    let left = finished during vr run incident b in
    let untouched =
      finish-Untouched during (with_artifact during run) vr (store_run during vr run b) in
    let answer : (run_replay during (some execution) demo p.verification_record_id org_id b).1
        ≡ left =
      rw (stored, own) refl in
    let id : p.verification_record_id ≡ vr.assessed.id =
      ap (λ (q : Promoted). q.verification_record_id) (sym same) in
    let ref : p.incident_ref ≡ incident_id_of t key =
      ap (λ (q : Promoted). q.incident_ref) (sym same) in
    let new_id : get run.id b.replay_runs ≡ none = ap (λ k. get k b.replay_runs) kept.0 ∙ fresh in
    let reproduced : (run.status == "replayed") ≡ true =
      ap (λ x. x == "replayed") kept.1.0 ∙ ended_well in
    let listed =
      finished-last during vr run incident b p.verification_record_id new_id
        ((eq_iff _ _).1 (kept.1.1 ∙ sym id)) in
    let lineage =
      subst (λ r. lineage_in (get_incident r left) ≡ lineage_in (get_incident r b)) (sym ref)
        (finished_lineage during vr run incident b (incident_id_of-nonblank t key) there refl
          ∙ sym (ap lineage_in there)) in
    let after : BridgeStorage → ProofStorage = λ x. record { bridge = x; label_records = labels } in
    subst
      (λ x.
        Proven candidate_id (
          run_mutation_test later engine p.verification_record_id org_id fix_config given
            (after x)))
      (sym answer)
      (proof_loop clock t later candidate_id org_id s p b c (after left) (with_artifact during run)
        engine m fix_config given h is_new found keyed digest untouched.1.0 untouched.1.1.1.1
        lineage listed reproduced expected answered mitigated)
