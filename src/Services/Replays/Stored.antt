-- ===== src/Services/Replays/Stored.antt =====
-- What one replay leaves, by `run_replay` of src/notary_platform/services/services.py.
use notary_platform.Prelude.{
  String, ◌≡◌, refl, ap, ◌∙◌, ◌==◌, Bool-cases, Option-cases, inl, inr, Option, none, some,
  nonblank,
}
use notary_platform.Dict.{get, get-put_self}
use notary_platform.Protocol.Digest.{Outcome, value, raised}
use notary_platform.Replay.Snapshot.{ReplayResult}
use notary_platform.Sweep.Promotion.{
  BridgedRecord, BridgeLineage, Incident, LinkedRun, BridgeStorage, BridgeTexts, get_incident,
  update_incident, create_evidence_artifact,
}
use notary_platform.Services.Replays.{
  Execution, run_replay, run_known, finish_run, trace_on, store_run, with_artifact, compared,
  executed, new_run, unreplayable, create_replay_run,
}

-- An error leaves the storage. A run that is returned is stored, and the verification records, the
-- tests, the sealed evidence and the sweep's collections are as before.
abbrev pub Recorded : BridgeStorage → Outcome LinkedRun × BridgeStorage → Type 0
Recorded s (raised message, s₁) = s₁ ≡ s
Recorded s (value run, s₁) =
    (get run.id s₁.replay_runs ≡ some run)
    × ((s₁.vrs ≡ s.vrs)
        × ((s₁.mutation_tests ≡ s.mutation_tests)
            × ((s₁.evidence ≡ s.evidence) × (s₁.sweep ≡ s.sweep))))

module _ (t : BridgeTexts) (run : LinkedRun) where
  abbrev pub Untouched : BridgeStorage → BridgeStorage → Type 0
  Untouched s s₁ =
      (s₁.replay_runs ≡ s.replay_runs)
      × ((s₁.vrs ≡ s.vrs)
          × ((s₁.mutation_tests ≡ s.mutation_tests)
              × ((s₁.evidence ≡ s.evidence) × (s₁.sweep ≡ s.sweep))))

  trace-Untouched :
      (s : BridgeStorage) (found : Option Incident) → Untouched s (trace_on t run s found)
  unfolding update_incident
  trace-Untouched s none = (refl, (refl, (refl, (refl, refl))))
  trace-Untouched s (some incident) = (refl, (refl, (refl, (refl, refl))))

  pub finish-Untouched :
      (vr : BridgedRecord) (s : BridgeStorage) → Untouched s (finish_run t vr run s)
  finish-Untouched vr s = elim (Bool-cases (nonblank vr.promoted_to_incident)) [
    | inl e ↦ rw e (trace-Untouched s (get_incident vr.promoted_to_incident s))
    | inr e ↦ rw e (refl, (refl, (refl, (refl, refl))))
  ]

known-Recorded :
    (t : BridgeTexts) (runner : Option Execution) (demo : Outcome ReplayResult) (vr : BridgedRecord)
    (s : BridgeStorage) (state : Option String)
    → Recorded s (run_known t runner demo vr s state)
unfolding create_replay_run create_evidence_artifact
known-Recorded t runner demo vr s (some state) =
    (get-put_self _ _ s.replay_runs, (refl, (refl, (refl, refl))))
known-Recorded t runner demo vr s none =
    let run = compared (executed vr runner demo (new_run t vr "cassette" "not_started")) in
    let kept = finish-Untouched t (with_artifact t run) vr (store_run t vr run s) in
    (ap (get run.id) kept.0 ∙ get-put_self run.id (with_artifact t run) s.replay_runs, kept.1)

-- Replaying a record either says that it is not found and leaves the storage, or returns a run that
-- is stored, and leaves the verification records, the tests, the sealed evidence and the sweep.
pub run_replay-Recorded :
    (t : BridgeTexts) (runner : Option Execution) (demo : Outcome ReplayResult)
    (vr_id org_id : String) (s : BridgeStorage)
    → Recorded s (run_replay t runner demo vr_id org_id s)
unfolding run_replay
run_replay-Recorded t runner demo vr_id org_id s = elim (Option-cases (get vr_id s.vrs)) [
  | inl gone ↦ rw gone refl
  | inr (vr, found) ↦ elim (Bool-cases (vr.org_id == org_id)) [
    | inr other ↦ rw (found, other) refl
    | inl own ↦
        rw (found, own) (known-Recorded t runner demo vr s (unreplayable vr.assessed.replayability))
  ]
]

abbrev pub lineage_in : Option Incident → Option BridgeLineage
lineage_in none = none
lineage_in (some incident) = incident.lineage

-- a run that is traced on an incident leaves its lineage
pub trace_lineage :
    (t : BridgeTexts) (run : LinkedRun) (incident : Incident) (s : BridgeStorage)
    → lineage_in (get_incident incident.incident_id (trace_on t run s (some incident)))
      ≡ incident.lineage
unfolding update_incident get_incident
trace_lineage t run incident s = rw get-put_self refl
