-- ===== src/Sweep/Runner/Phases.antt =====
-- The phases of a run as `advance_run_status` of src/notary_platform/sweep/runner.py moves it.
use notary_platform.Prelude.{
  ap, ◌∙◌, ℕ, ◌+◌, ◌≤◌, String, ◌≡◌, true, false, some, arith, ◌==◌, Bool-cases, if◌then◌else◌, inl,
  inr,
}
use notary_platform.Dict.{get-put_self}
use notary_platform.Records.Run.{SweepRun}
use notary_platform.Storage.{MemoryStorage, get_sweep_run, update_sweep_run}
use notary_platform.Sweep.Budget.{BudgetState, check}
use notary_platform.Sweep.Runner.{next_status, advanced, advance_run_status}

-- The place of a status in the pipeline; every other status, terminal or not started, is 0.
abbrev pub phase : String → ℕ
phase status =
    if status == "profiling"
    then 1
    else if status == "resolving"
    then 2
    else if status == "evaluating"
    then 3
    else if status == "assembling"
    then 4
    else if status == "completed"
    then 5
    else 0

phase-next_status :
    (status : String)
    → 1 ≤ phase status
    → phase status ≤ 4
    → phase (next_status status) ≡ phase status + 1
unfolding next_status
phase-next_status status lo hi = elim (Bool-cases (status == "profiling")) [
  | inl a ↦ rw a
  | inr a ↦ elim (Bool-cases (status == "resolving")) [
    | inl b ↦ rw (a, b)
    | inr b ↦ elim (Bool-cases (status == "evaluating")) [
      | inl c ↦ rw (a, b, c)
      | inr c ↦ elim (Bool-cases (status == "assembling")) [
        | inl d ↦ rw (a, b, c, d)
        | inr d ↦ absurd (ground arith)
      ]
    ]
  ]
]

-- a status outside the working phases is kept
next_status_idle :
    (status : String)
    → phase status ≡ 0
    → (next_status status ≡ status) × ((status == "assembling") ≡ false)
unfolding next_status
next_status_idle status idle = elim (Bool-cases (status == "profiling")) [
  | inl a ↦ absurd (ground arith)
  | inr a ↦ elim (Bool-cases (status == "resolving")) [
    | inl b ↦ absurd (ground arith)
    | inr b ↦ elim (Bool-cases (status == "evaluating")) [
      | inl c ↦ absurd (ground arith)
      | inr c ↦ elim (Bool-cases (status == "assembling")) [
        | inl d ↦ absurd (ground arith)
        | inr d ↦ (rw (a, b, c, d), d)
      ]
    ]
  ]
]

-- Within the budget a run in one of the four working phases moves to the next one, and the storage
-- holds the returned run under its id.
pub advance_within_budget :
    (clock : ℕ) (now : String) (run : SweepRun) (budget : BudgetState) (s : MemoryStorage)
    → (check clock budget).0 ≡ true
    → 1 ≤ phase run.status
    → phase run.status ≤ 4
    → (phase (advance_run_status clock now run budget s).0.status ≡ phase run.status + 1)
      × (get_sweep_run run.id (advance_run_status clock now run budget s).1
          ≡ some (advance_run_status clock now run budget s).0)
unfolding advance_run_status advanced get_sweep_run update_sweep_run
advance_within_budget clock now run budget s h lo hi =
    (rw h (phase-next_status run.status lo hi), rw h (get-put_self run.id _ s.sweep_runs))

-- Within the budget a run that is in no phase of the pipeline, such as a queued, failed or
-- cancelled one, is returned as it was.
pub advance_idle :
    (clock : ℕ) (now : String) (run : SweepRun) (budget : BudgetState) (s : MemoryStorage)
    → (check clock budget).0 ≡ true
    → phase run.status ≡ 0
    → (advance_run_status clock now run budget s).0 ≡ run
unfolding advance_run_status advanced
advance_idle clock now run budget s h idle =
    rw h (let (same, other) = next_status_idle run.status idle in rw (same, other))

advanced-status :
    (clock : ℕ) (now : String) (budget : BudgetState) (run : SweepRun)
    → (check clock budget).0 ≡ true
    → (advanced clock now budget run).status ≡ next_status run.status
unfolding advanced
advanced-status clock now budget run h = rw h

advanced-completed_at :
    (clock : ℕ) (now : String) (budget : BudgetState) (run : SweepRun)
    → (check clock budget).0 ≡ true
    → run.status ≡ "assembling"
    → (advanced clock now budget run).completed_at ≡ now
unfolding advanced
advanced-completed_at clock now budget run h e = rw h (rw e)

-- Four advances within the budget take a profiling run through every phase: it is completed, at
-- the time of the fourth.
pub pipeline_completes :
    (budget : BudgetState) (run : SweepRun) (c₁ c₂ c₃ c₄ : ℕ) (t₁ t₂ t₃ t₄ : String)
    → run.status ≡ "profiling"
    → (check c₁ budget).0 ≡ true
    → (check c₂ budget).0 ≡ true
    → (check c₃ budget).0 ≡ true
    → (check c₄ budget).0 ≡ true
    → let final =
        advanced c₄ t₄ budget
          (advanced c₃ t₃ budget (advanced c₂ t₂ budget (advanced c₁ t₁ budget run))) in
      (final.status ≡ "completed") × (final.completed_at ≡ t₄)
unfolding next_status
pipeline_completes budget run c₁ c₂ c₃ c₄ t₁ t₂ t₃ t₄ start h₁ h₂ h₃ h₄ =
    let r₁ = advanced c₁ t₁ budget run in
    let r₂ = advanced c₂ t₂ budget r₁ in
    let r₃ = advanced c₃ t₃ budget r₂ in
    let e₁ : r₁.status ≡ "resolving" = advanced-status c₁ t₁ budget run h₁ ∙ ap next_status start in
    let e₂ : r₂.status ≡ "evaluating" = advanced-status c₂ t₂ budget r₁ h₂ ∙ ap next_status e₁ in
    let e₃ : r₃.status ≡ "assembling" = advanced-status c₃ t₃ budget r₂ h₃ ∙ ap next_status e₂ in
    (
      advanced-status c₄ t₄ budget r₃ h₄ ∙ ap next_status e₃,
      advanced-completed_at c₄ t₄ budget r₃ h₄ e₃,
    )
