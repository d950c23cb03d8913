-- ===== src/Sweep/Runner.antt =====
-- `SweepRunner` of src/notary_platform/sweep/runner.py. An operation takes the clock's reading and
-- the storage, and returns what the source returns with the storage after it. The theorems are in
-- the modules below.
pub mod Phases
pub mod Guards
use notary_platform.Prelude.{
  ℕ, String, Bool, Option, none, some, not, ◌||◌, ◌==◌, if◌then◌else◌, ◌<>◌, join,
}
use notary_platform.Records.Run.{SweepRun}
use notary_platform.Records.Assessment.{AssessmentRecord}
use notary_platform.Storage.{MemoryStorage, get_sweep_run, update_sweep_run, create_assessment}
use notary_platform.Sweep.Budget.{BudgetState, check}

-- Each operation begins by fetching the run; `x_found` is what follows.
abbrev start_found :
    String → String → MemoryStorage → Option SweepRun → Option SweepRun × MemoryStorage
start_found now org_id s none = (none, s)
start_found now org_id s (some run) =
    if not (run.org_id == org_id)
    then (none, s)
    else if not (run.status == "queued")
    then (none, s)
    else let run' = record run { status = "profiling"; started_at = now } in
      (some run', update_sweep_run run' s)

pub start_run : String → String → String → MemoryStorage → Option SweepRun × MemoryStorage
start_run now run_id org_id s = start_found now org_id s (get_sweep_run run_id s)

abbrev complete_found :
    String → String → String → MemoryStorage → Option SweepRun → Option SweepRun × MemoryStorage
complete_found now org_id status s none = (none, s)
complete_found now org_id status s (some run) =
    if not (run.org_id == org_id)
    then (none, s)
    else let run' = record run { status = status; completed_at = now } in
      (some run', update_sweep_run run' s)

pub complete_run :
    String → String → String → String → MemoryStorage → Option SweepRun × MemoryStorage
complete_run now run_id org_id status s =
    complete_found now org_id status s (get_sweep_run run_id s)

-- run.status in ("completed", "completed_with_errors", "failed", "cancelled")
abbrev is_terminal : String → Bool
is_terminal status =
    status == "completed"
    || (status == "completed_with_errors" || (status == "failed" || status == "cancelled"))

abbrev cancel_found :
    String → String → MemoryStorage → Option SweepRun → Option SweepRun × MemoryStorage
cancel_found now org_id s none = (none, s)
cancel_found now org_id s (some run) =
    if not (run.org_id == org_id)
    then (none, s)
    else if is_terminal run.status
    then (none, s)
    else let run' = record run { status = "cancelled"; completed_at = now } in
      (some run', update_sweep_run run' s)

unfoldable pub cancel_run :
    String → String → String → MemoryStorage → Option SweepRun × MemoryStorage
cancel_run now run_id org_id s = cancel_found now org_id s (get_sweep_run run_id s)

pub record_evaluation :
    AssessmentRecord → String → MemoryStorage → Option AssessmentRecord × MemoryStorage
record_evaluation evaluation org_id s =
    if not (evaluation.org_id == org_id)
    then (none, s)
    else (some evaluation, create_assessment evaluation s)

-- the status that the chain of `elif`s on `run.status` assigns
pub next_status : String → String
next_status status =
    if status == "profiling"
    then "resolving"
    else if status == "resolving"
    then "evaluating"
    else if status == "evaluating"
    then "assembling"
    else if status == "assembling"
    then "completed"
    else status

-- the run after `advance_run_status`: `clock` is read by the budget check, `now` is written
pub advanced : ℕ → String → BudgetState → SweepRun → SweepRun
unfolding next_status
advanced clock now budget run =
    let (within, checked) = check clock budget in
    if not within
    then record run {
      status = "failed";
      error_message = "budget exceeded: " <> join ", " checked.exceeded_reasons;
      completed_at = now;
    }
    else record run {
      status = next_status run.status;
      completed_at = if run.status == "assembling" then now else run.completed_at;
    }

pub advance_run_status :
    ℕ → String → SweepRun → BudgetState → MemoryStorage → SweepRun × MemoryStorage
unfolding advanced
advance_run_status clock now run budget s =
    let run' = advanced clock now budget run in (run', update_sweep_run run' s)
