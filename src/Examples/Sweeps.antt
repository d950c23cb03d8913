-- ===== src/Examples/Sweeps.antt =====
-- The sweep's parts on the organization's data.
use notary_platform.Prelude.{
  ◌≤◌, ◌≡◌, ◌↔◌, refl, true, false, none, some, List, [], ◌∷◌, map, nonempty, keep, All, show,
}
use notary_platform.Dict.{get, values}
use notary_platform.Value.{field?}
use notary_platform.Examples.{
  draws, contract, definition, sweep_run, evidence, frozen, resolved, assessment, unreviewed,
}
use notary_platform.Storage.{list_sweep_jobs, get_evaluator_contract}
use notary_platform.Sweep.Budget.{BudgetState, new_budget, check, timed_out}
use notary_platform.Sweep.Sufficiency.{calculate, e0_ok, has_context}
use notary_platform.Sweep.Sufficiency.Levels.{rank, calculate-E4}
use notary_platform.Sweep.Sufficiency.Report.{failed-empty_iff}
use notary_platform.Sweep.Runner.{advanced}
use notary_platform.Sweep.Runner.Phases.{pipeline_completes}
use notary_platform.Sweep.Planner.{
  planned_run, planned_jobs, plan, check_prerequisites, job_of, evaluate_jobs,
}
use notary_platform.Sweep.Planner.Jobs.{task, tasks_of, list_sweep_jobs-plan}
use notary_platform.Sweep.Worker.{process_job}
use notary_platform.Sweep.Planner.Prerequisites.{
  Mirrors, check_prerequisites_agree, check_prerequisites_differ,
}
use notary_platform.Sweep.Registry.{verdict_of}
use notary_platform.Sweep.Evaluators
use notary_platform.Sweep.Evaluators.{
  ReplayabilityParameters, evaluate_replayability, evaluate_missing_evidence,
}
use notary_platform.Sweep.Evaluators.Outcome.{TextOps, OutcomeParameters}
use notary_platform.Sweep.Candidates.{assemble, create_candidates, is_passed_over}
use notary_platform.Sweep.Candidates.Assembly.{AreOf, taken, assemble_lem}
use notary_platform.Records.Candidate.{AssuranceCandidate}

abbrev spent : BudgetState
spent = record new_budget { record_count = 10000 }

calculate-E4_example : (rank (calculate frozen resolved true true).current_level ≡ 5) ↔ (
    (e0_ok frozen ≡ true)
    × (nonempty frozen.context_binding_ids ≡ true)
    × (nonempty resolved.conflicted_bindings ≡ false)
    × (has_context resolved ≡ true)
    × (1 ≤ frozen.version)
    × (true ≡ true)
    × (true ≡ true))
calculate-E4_example = calculate-E4 frozen resolved true true

failed-empty_iff_example :
    (nonempty (calculate frozen resolved true true).failed ≡ false)
    ↔ (rank (calculate frozen resolved true true).current_level ≡ 5)
failed-empty_iff_example = failed-empty_iff frozen resolved true true

pipeline_completes_example :
    ((advanced 4 "t4" new_budget (
        advanced 3 "t3" new_budget
          (advanced 2 "t2" new_budget (advanced 1 "t1" new_budget sweep_run)))).status
      ≡ "completed")
    × ((advanced 4 "t4" new_budget (
          advanced 3 "t3" new_budget
            (advanced 2 "t2" new_budget (advanced 1 "t1" new_budget sweep_run)))).completed_at
        ≡ "t4")
unfolding check timed_out
pipeline_completes_example =
    pipeline_completes new_budget sweep_run 1 2 3 4 "t1" "t2" "t3" "t4" refl refl refl refl refl

list_sweep_jobs-plan_example :
    (map task (
        list_sweep_jobs
          (planned_run (draws 0) definition).id
          (plan draws definition ("der-1" ∷ []) unreviewed).1)
      ≡ tasks_of definition ("der-1" ∷ []))
    × All
        (λ j. (process_job j).status ≡ "completed")
        (list_sweep_jobs
          (planned_run (draws 0) definition).id
          (plan draws definition ("der-1" ∷ []) unreviewed).1)
unfolding planned_jobs evaluate_jobs job_of get values keep show
list_sweep_jobs-plan_example =
    list_sweep_jobs-plan draws definition ("der-1" ∷ []) unreviewed
      (refl, (refl, (refl, (refl, (refl, tt))))) refl

frozen-Mirrors : Mirrors frozen evidence
frozen-Mirrors = record { trace = refl; bindings = refl; resources = refl; links = refl }

check_prerequisites_agree_example :
    check_prerequisites contract.id evidence unreviewed
    ≡ verdict_of (Evaluators.check_prerequisites contract frozen)
unfolding get_evaluator_contract get
check_prerequisites_agree_example =
    check_prerequisites_agree frozen evidence frozen-Mirrors contract unreviewed refl
      (refl, (refl, tt))

check_prerequisites_differ_example :
    (check_prerequisites "ec-1" evidence (record unreviewed {
      evaluator_contracts =
          ("ec-1", record contract { required_prerequisites = "schema" ∷ [] }) ∷ [];
    })
      ≡ (false, "schema" ∷ []))
    × (Evaluators.check_prerequisites
          (record contract { required_prerequisites = "schema" ∷ [] })
          frozen
        ≡ [])
unfolding get_evaluator_contract get
check_prerequisites_differ_example =
    check_prerequisites_differ frozen evidence frozen-Mirrors
      (record contract { required_prerequisites = "schema" ∷ [] })
      (record unreviewed {
        evaluator_contracts =
            ("ec-1", record contract { required_prerequisites = "schema" ∷ [] }) ∷ [];
      })
      "schema" refl refl refl

abbrev no_seed : ReplayabilityParameters
no_seed = record {
  cassette_missing = none;
  mutable_dependencies = none;
  unsupported_tools = none;
  missing_seed = some true;
  runner_available = none;
  needs_instrumentation = none;
}

abbrev outcomes : OutcomeParameters
outcomes = record {
  actual_outcome = some "deny";
  expected_outcome = some "approve";
  comparison_rule = none;
}

abbrev text_ops : TextOps
text_ops = record { strip = λ t. t; lower = λ t. t; far_apart = λ a b. none }

assemble_lem_example :
    (cs : List AssuranceCandidate) × (assemble draws
        (assessment ∷ [])
        frozen
        resolved
        "sr-1"
        "env-1"
        unreviewed
      ≡ some (cs, create_candidates cs unreviewed))
    × AreOf draws frozen
        (calculate frozen resolved false false).current_level
        "sr-1"
        "env-1"
        (taken (assessment ∷ []))
        cs
unfolding keep field? is_passed_over
assemble_lem_example =
    assemble_lem draws (assessment ∷ []) frozen resolved "sr-1" "env-1" unreviewed
      (record { actual = refl; expected = refl }, tt)
