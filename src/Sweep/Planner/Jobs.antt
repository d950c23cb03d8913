-- ===== src/Sweep/Planner/Jobs.antt =====
-- Which jobs `plan` of src/notary_platform/sweep/planner.py stores, and that the worker of
-- src/notary_platform/sweep_worker/main.py completes them.
use notary_platform.Prelude.{
  ℕ, suc, ◌+◌, String, ◌≡◌, refl, ap, sym, ◌∙◌, true, none, List, [], ◌∷◌, ◌++◌, map, arith, length,
  ◌==◌, eq_refl, keep, keep-append, keep-All, All,
}
use mathlib.Core.Path.{subst}
use mathlib.Core.List.{append-nil, append_assoc, map-append}
use notary_platform.Dict.{Dict, get, put, values}
use notary_platform.Value.{Draw, Fields, end, field, text, texts}
use notary_platform.Records.Definition.{SweepDefinition}
use notary_platform.Records.Job.{SweepJob}
use notary_platform.Storage.{MemoryStorage, create_sweep_run, create_sweep_job, list_sweep_jobs}
use notary_platform.Sweep.Planner.{
  planned_run, job_of, evaluate_jobs, planned_jobs, create_jobs, plan,
}
use notary_platform.Sweep.Worker.{process_job}

-- Each job's id is new at the time when the job is stored.
abbrev pub FreshIds : Dict SweepJob → List SweepJob → Type 0
FreshIds stored [] = Unit
FreshIds stored (job ∷ jobs) =
    (get job.id stored ≡ none) × FreshIds (stored ++ (job.id, job) ∷ []) jobs

put_fresh :
    (k : String) (v : SweepJob) (m : Dict SweepJob) → get k m ≡ none → put k v m ≡ m ++ (k, v) ∷ []
unfolding get put
put_fresh k v [] h = refl
put_fresh k v ((j, w) ∷ m) h = ground (arith, put_fresh k v m)

abbrev with_ids : List SweepJob → Dict SweepJob
with_ids jobs = map (λ j. (j.id, j)) jobs

sweep_jobs-create_jobs :
    (jobs : List SweepJob) (s : MemoryStorage)
    → FreshIds s.sweep_jobs jobs
    → (create_jobs jobs s).sweep_jobs ≡ s.sweep_jobs ++ with_ids jobs
unfolding create_jobs create_sweep_job
sweep_jobs-create_jobs [] s fresh = sym (append-nil s.sweep_jobs)
sweep_jobs-create_jobs (job ∷ jobs) s fresh =
    let stored = put_fresh job.id job s.sweep_jobs fresh.0 in
    sweep_jobs-create_jobs jobs (create_sweep_job job s)
      (subst (λ m. FreshIds m jobs) (sym stored) fresh.1)
    ∙ ap (λ m. m ++ with_ids jobs) stored
    ∙ append_assoc s.sweep_jobs ((job.id, job) ∷ []) (with_ids jobs)

values-with_ids : (jobs : List SweepJob) → values (with_ids jobs) ≡ jobs
unfolding values
values-with_ids [] = refl
values-with_ids (job ∷ jobs) = ap (λ l. job ∷ l) (values-with_ids jobs)

values-append : (m n : Dict SweepJob) → values (m ++ n) ≡ values m ++ values n
unfolding values
values-append m n = map-append _ m n

module _ (draw : ℕ → Draw) (definition : SweepDefinition) (run_id : String)
    (ders : List String) where
  abbrev OfRun : SweepJob → Type 0
  OfRun job = (job.run_id == run_id) ≡ true

  evaluate_jobs-OfRun :
      (k : ℕ) (evaluators : List String)
      → All OfRun (evaluate_jobs draw k definition run_id ders evaluators)
  unfolding evaluate_jobs job_of
  evaluate_jobs-OfRun k [] = (eq_refl run_id, tt)
  evaluate_jobs-OfRun k (e ∷ evaluators) = (eq_refl run_id, evaluate_jobs-OfRun (suc k) evaluators)

  planned_jobs-OfRun : All OfRun (planned_jobs draw definition run_id ders)
  unfolding planned_jobs job_of
  planned_jobs-OfRun =
      (eq_refl run_id, (eq_refl run_id, evaluate_jobs-OfRun 3 definition.evaluator_ids))

  abbrev pub Completed : SweepJob → Type 0
  Completed job = (process_job job).status ≡ "completed"

  evaluate_jobs-Completed :
      (k : ℕ) (evaluators : List String)
      → All Completed (evaluate_jobs draw k definition run_id ders evaluators)
  unfolding evaluate_jobs job_of process_job
  evaluate_jobs-Completed k [] = (refl, tt)
  evaluate_jobs-Completed k (e ∷ evaluators) = (refl, evaluate_jobs-Completed (suc k) evaluators)

  -- The worker knows every kind of job that is planned: it completes each of them.
  pub planned_jobs-Completed : All Completed (planned_jobs draw definition run_id ders)
  unfolding planned_jobs job_of process_job
  planned_jobs-Completed = (refl, (refl, evaluate_jobs-Completed 3 definition.evaluator_ids))

  length-evaluate_jobs :
      (k : ℕ) (evaluators : List String)
      → length (evaluate_jobs draw k definition run_id ders evaluators) ≡ length evaluators + 1
  unfolding evaluate_jobs
  length-evaluate_jobs k [] = omega arith
  length-evaluate_jobs k (e ∷ evaluators) = omega (arith, length-evaluate_jobs (suc k) evaluators)

-- the jobs of the run that are listed after `plan` are those it has made
listed_planned :
    (draw : ℕ → Draw) (definition : SweepDefinition) (ders : List String) (s : MemoryStorage)
    → FreshIds s.sweep_jobs (planned_jobs draw definition (planned_run (draw 0) definition).id ders)
    → keep (λ j. j.run_id == (planned_run (draw 0) definition).id) (values s.sweep_jobs) ≡ []
    → list_sweep_jobs (planned_run (draw 0) definition).id (plan draw definition ders s).1
      ≡ planned_jobs draw definition (planned_run (draw 0) definition).id ders
unfolding list_sweep_jobs plan create_sweep_run
listed_planned draw definition ders s fresh none_before =
    let run = planned_run (draw 0) definition in
    let jobs = planned_jobs draw definition run.id ders in
    let own = λ (j : SweepJob). j.run_id == run.id in
    ap (λ m. keep own (values m)) (sweep_jobs-create_jobs jobs (create_sweep_run run s) fresh)
    ∙ ap (keep own) (values-append s.sweep_jobs (with_ids jobs))
    ∙ keep-append own (values s.sweep_jobs) (values (with_ids jobs))
    ∙ ap (λ l. l ++ keep own (values (with_ids jobs))) none_before
    ∙ ap (keep own) (values-with_ids jobs)
    ∙ keep-All own jobs (planned_jobs-OfRun draw definition run.id ders)

-- what a job has to do
abbrev pub task : SweepJob → String × Fields
task j = (j.job_type, j.payload)

-- the task of one evaluator of the definition
abbrev pub evaluation : List String → String → String × Fields
evaluation ders evaluator_id =
    ("evaluate", field "evaluator_id" (text evaluator_id) (field "der_ids" (texts ders) end))

-- the tasks of a run, in the order in which they are to be done
abbrev pub tasks_of : SweepDefinition → List String → List (String × Fields)
tasks_of definition ders =
    ("profile", field "source_ids" (texts definition.source_ids) end)
    ∷ ("resolve", field "der_ids" (texts ders) end)
    ∷ (map (evaluation ders) definition.evaluator_ids ++ ("assemble", end) ∷ [])

map-task-evaluate_jobs :
    (draw : ℕ → Draw) (k : ℕ) (definition : SweepDefinition) (run_id : String)
    (ders evaluators : List String)
    → map task (evaluate_jobs draw k definition run_id ders evaluators)
      ≡ map (evaluation ders) evaluators ++ ("assemble", end) ∷ []
unfolding evaluate_jobs job_of
map-task-evaluate_jobs draw k definition run_id ders [] = refl
map-task-evaluate_jobs draw k definition run_id ders (e ∷ evaluators) =
    ap (λ l. evaluation ders e ∷ l)
      (map-task-evaluate_jobs draw (suc k) definition run_id ders evaluators)

map-task-planned_jobs :
    (draw : ℕ → Draw) (definition : SweepDefinition) (run_id : String) (ders : List String)
    → map task (planned_jobs draw definition run_id ders) ≡ tasks_of definition ders
unfolding planned_jobs job_of
map-task-planned_jobs draw definition run_id ders =
    ap
      (λ l.
        ("profile", field "source_ids" (texts definition.source_ids) end)
        ∷ ("resolve", field "der_ids" (texts ders) end)
        ∷ l)
      (map-task-evaluate_jobs draw 3 definition run_id ders definition.evaluator_ids)

-- With new job ids, and no job stored for the run before, the jobs listed for the run after `plan`
-- are in this order: a profile job with the sources of the definition, a resolve job with the record
-- ids, one evaluate job for each evaluator of the definition, with its id and the record ids, and an
-- assemble job; the worker completes each of them.
pub list_sweep_jobs-plan :
    (draw : ℕ → Draw) (definition : SweepDefinition) (ders : List String) (s : MemoryStorage)
    → FreshIds s.sweep_jobs (planned_jobs draw definition (planned_run (draw 0) definition).id ders)
    → keep (λ j. j.run_id == (planned_run (draw 0) definition).id) (values s.sweep_jobs) ≡ []
    → (map task
          (list_sweep_jobs (planned_run (draw 0) definition).id (plan draw definition ders s).1)
        ≡ tasks_of definition ders)
      × All
          (λ j. (process_job j).status ≡ "completed")
          (list_sweep_jobs (planned_run (draw 0) definition).id (plan draw definition ders s).1)
list_sweep_jobs-plan draw definition ders s fresh none_before =
    let run_id = (planned_run (draw 0) definition).id in
    let listed = listed_planned draw definition ders s fresh none_before in
    (
      ap (map task) listed ∙ map-task-planned_jobs draw definition run_id ders,
      subst (All (λ (j : SweepJob). (process_job j).status ≡ "completed")) (sym listed)
          (planned_jobs-Completed draw definition run_id ders),
    )

-- There are three jobs more than evaluators.
pub length-planned_jobs :
    (draw : ℕ → Draw) (definition : SweepDefinition) (run_id : String) (ders : List String)
    → length (planned_jobs draw definition run_id ders) ≡ length definition.evaluator_ids + 3
unfolding planned_jobs
length-planned_jobs draw definition run_id ders =
    omega (arith, length-evaluate_jobs draw definition run_id ders 3 definition.evaluator_ids)
