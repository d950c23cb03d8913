-- ===== src/Services/Gate/Marks.antt =====
-- What a run of src/notary_platform/services/services.py writes to the scenarios it was given.
use notary_platform.Prelude.{
  ◌≡◌, sym, ap, ◌∙◌, String, false, not, ◌==◌, some, [], ◌∷◌, if◌then◌else◌,
}
use mathlib.Core.Path.{subst}
use notary_platform.Dict.{get, get-put_self}
use notary_platform.Value.{Fields}
use notary_platform.Services.Gate.{
  Scenario, ScenarioRunResult, GateStorage, GateDraw, create_scenario_run, get_scenario,
  create_scenario,
}
use notary_platform.Services.Gate.Run.{
  Replays, not_found, run_record, run_found, run_one, mark_found, run, mark_all,
}

module _ {V : Type 0} (replays : Replays V) where
  foreign_not_found :
      (org_id : String) (fix_config : Fields) (s : GateStorage V) (theirs : Scenario)
      → get_scenario theirs.id s ≡ some theirs
      → (theirs.org_id == org_id) ≡ false
      → run_one replays org_id fix_config s theirs.id ≡ not_found theirs.id
  unfolding run_one
  foreign_not_found org_id fix_config s theirs found foreign =
      ap (run_found replays org_id theirs.id fix_config s) found
      ∙ ap
          (λ b.
            if not b
            then not_found theirs.id
            else run_record replays theirs fix_config (get theirs.source_vr_id s.vrs))
          foreign

  mark_all-one :
      (s : GateStorage V) (theirs : Scenario) (x : ScenarioRunResult)
      → get_scenario theirs.id s ≡ some theirs
      → x ≡ not_found theirs.id
      → get_scenario theirs.id (mark_all replays (x ∷ []) s)
        ≡ some (record theirs { last_run_status = "errored" })
  unfolding mark_all get_scenario create_scenario
  mark_all-one s theirs x found same =
      subst
        (λ y.
          get_scenario theirs.id (mark_all replays (y ∷ []) s)
          ≡ some (record theirs { last_run_status = "errored" }))
        (sym same)
        (ap (λ o. get_scenario theirs.id (mark_found replays "errored" s o)) found
          ∙ get-put_self theirs.id (record theirs { last_run_status = "errored" }) s.scenarios)

  -- A run over the id of a scenario of another organization does not find it, and still writes the
  -- status "errored" to the other organization's scenario.
  pub run_marks_foreign :
      (draw : GateDraw) (agent_version org_id environment_id : String) (fix_config : Fields)
      (s : GateStorage V) (theirs : Scenario)
      → get_scenario theirs.id s ≡ some theirs
      → (theirs.org_id == org_id) ≡ false
      → (run_one replays org_id fix_config s theirs.id ≡ not_found theirs.id)
        × (get_scenario theirs.id
              (run replays draw (theirs.id ∷ []) agent_version org_id environment_id fix_config s).1
            ≡ some (record theirs { last_run_status = "errored" }))
  unfolding run run_one get_scenario create_scenario_run
  run_marks_foreign draw agent_version org_id environment_id fix_config s theirs found foreign =
      let missed = foreign_not_found org_id fix_config s theirs found foreign in
      (missed, mark_all-one _ theirs _ found missed)
