-- ===== src/Sweep/Worker.antt =====
-- `process_job` of src/notary_platform/sweep_worker/main.py.
use notary_platform.Prelude.{◌==◌, if◌then◌else◌, ◌<>◌}
use notary_platform.Records.Job.{SweepJob}

-- `_run_profile`, `_run_resolve`, `_run_evaluate` and `_run_assemble` do the same
abbrev run_job : SweepJob → SweepJob
run_job job = record job { status = "completed" }

unfoldable pub process_job : SweepJob → SweepJob
process_job job =
    if job.job_type == "profile"
    then run_job job
    else if job.job_type == "resolve"
    then run_job job
    else if job.job_type == "evaluate"
    then run_job job
    else if job.job_type == "assemble"
    then run_job job
    else record job { status = "failed"; error_message = "unknown job_type: " <> job.job_type }
