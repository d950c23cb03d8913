-- ===== src/Sweep/Planner.antt =====
-- `SweepPlanner` of src/notary_platform/sweep/planner.py. `draw k` is the k-th draw of an id and
-- a time by one call of `plan`. The theorems are in the modules below.
pub mod Jobs
pub mod Prerequisites
use notary_platform.Prelude.{
  ℕ, suc, String, Bool, true, false, ◌==◌, Option, none, some, List, [], ◌∷◌, ◌++◌, nonblank,
  nonempty, if◌then◌else◌,
}
use notary_platform.Value.{Fields, end, field, texts, text, Draw}
use notary_platform.Records.Definition.{SweepDefinition}
use notary_platform.Records.Run
use notary_platform.Records.Run.{SweepRun}
use notary_platform.Records.Job
use notary_platform.Records.Job.{SweepJob}
use notary_platform.Records.Evidence.{DecisionEvidenceRecord}
use notary_platform.Storage.{
  MemoryStorage, create_sweep_run, create_sweep_job, get_evaluator_contract,
}
use notary_platform.Sweep.Registry.{missing_from}
use notary_platform.Sweep.Budget.{BudgetState, new_budget}

abbrev pub planned_run : Draw → SweepDefinition → SweepRun
planned_run draw definition = Run.post_init draw (record Run.blank {
  org_id = definition.org_id;
  environment_id = definition.environment_id;
  definition_id = definition.id;
  status = "queued";
})

unfoldable pub job_of : Draw → SweepDefinition → (run_id job_type : String) → Fields → SweepJob
unfolding Job.post_init
job_of draw definition run_id job_type payload = Job.post_init draw (record Job.blank {
  org_id = definition.org_id;
  run_id = run_id;
  job_type = job_type;
  payload = payload;
})

-- one job for each evaluator of the definition, and the job that assembles at the end
unfoldable pub evaluate_jobs :
    (ℕ → Draw)
    → ℕ
    → SweepDefinition
    → (run_id : String) → (ders evaluators : List String) → List SweepJob
evaluate_jobs draw k definition run_id ders [] =
    job_of (draw k) definition run_id "assemble" end ∷ []
evaluate_jobs draw k definition run_id ders (evaluator_id ∷ evaluators) =
    job_of (draw k) definition run_id "evaluate"
      (field "evaluator_id" (text evaluator_id) (field "der_ids" (texts ders) end))
    ∷ evaluate_jobs draw (suc k) definition run_id ders evaluators

unfoldable pub planned_jobs :
    (ℕ → Draw) → SweepDefinition → (run_id : String) → List String → List SweepJob
planned_jobs draw definition run_id ders =
    job_of (draw 1) definition run_id "profile"
      (field "source_ids" (texts definition.source_ids) end)
    ∷ job_of (draw 2) definition run_id "resolve" (field "der_ids" (texts ders) end)
    ∷ evaluate_jobs draw 3 definition run_id ders definition.evaluator_ids

pub create_jobs : List SweepJob → MemoryStorage → MemoryStorage
create_jobs [] s = s
create_jobs (job ∷ jobs) s = create_jobs jobs (create_sweep_job job s)

pub plan : (ℕ → Draw) → SweepDefinition → List String → MemoryStorage → SweepRun × MemoryStorage
plan draw definition ders s =
    let run = planned_run (draw 0) definition in
    (run, create_jobs (planned_jobs draw definition run.id ders) (create_sweep_run run s))

abbrev name_if : Bool → String → List String
name_if b name = if b then name ∷ [] else []

-- the prerequisites that a record offers
pub available_of : DecisionEvidenceRecord → List String
available_of der =
    name_if (nonblank der.resolution_trace_id) "context_resolved"
    ++ (name_if (nonempty der.context_binding_ids) "context_bindings"
        ++ (name_if (nonempty der.source_resource_ids) "source_resources"
            ++ name_if (nonempty der.link_assertion_ids) "link_assertions"))

pub check_prerequisites : String → DecisionEvidenceRecord → MemoryStorage → Bool × List String
check_prerequisites evaluator_id der s =
    missing_from (available_of der) (get_evaluator_contract evaluator_id s)

pub estimate_budget : SweepDefinition → BudgetState
estimate_budget definition = record new_budget {
  record_limit = definition.budget_record_limit;
  evaluator_limit = definition.budget_evaluator_limit;
  timeout_seconds = definition.budget_timeout_seconds;
}
