-- ===== src/Sweep/Budget.antt =====
-- `BudgetState` of src/notary_platform/sweep/budgets.py. Times are whole microseconds: the source
-- compares the seconds since `start_time`, as floats, with the whole seconds of the timeout. The
-- limits are taken as natural numbers.
use notary_platform.Prelude.{
  ℕ, ◌+◌, ◌*◌, ◌≤◌, ◌<◌, String, ◌≡◌, ◌↔◌, ◌⊎◌, Bool, not, ◌&&◌, List, [], ◌∷◌, ◌++◌, arith, ltb,
  leb, nat_eq, if◌then◌else◌, nonempty, ◌<>◌, show,
}

pub record BudgetState : Type 0 where
  pub record_count : ℕ
  pub evaluator_count : ℕ
  pub elapsed_seconds : ℕ
  pub record_limit : ℕ
  pub evaluator_limit : ℕ
  pub timeout_seconds : ℕ
  pub start_time : ℕ
  pub exceeded_reasons : List String

-- the field defaults
abbrev pub new_budget : BudgetState
new_budget = record {
  record_count = 0;
  evaluator_count = 0;
  elapsed_seconds = 0;
  record_limit = 10000;
  evaluator_limit = 50;
  timeout_seconds = 300;
  start_time = 0;
  exceeded_reasons = [];
}

abbrev pub reason_if : Bool → String → List String
reason_if b text = if b then text ∷ [] else []

-- `start_time` is 0 until the clock of the run is started
unfoldable pub timed_out : ℕ → BudgetState → Bool
timed_out now b =
    not (nat_eq b.start_time 0) && ltb (b.start_time + b.timeout_seconds * 1000000) now

unfoldable pub check : ℕ → BudgetState → Bool × BudgetState
unfolding timed_out
check now b =
    let reasons =
      reason_if (leb b.record_limit b.record_count) ("record limit (" <> show b.record_limit <> ")")
      ++ (reason_if (leb b.evaluator_limit b.evaluator_count)
            ("evaluator limit (" <> show b.evaluator_limit <> ")")
          ++ reason_if (timed_out now b) ("timeout (" <> show b.timeout_seconds <> "s)")) in
    (not (nonempty reasons), record b { exceeded_reasons = reasons })

-- The budget check passes exactly when both counts are below their limits and the run has either
-- not been started or is not older than its timeout.
pub check_iff :
    (now : ℕ) (b : BudgetState)
    → ((check now b).0 ≡ Bool.true) ↔ (
        (b.record_count < b.record_limit)
        × (b.evaluator_count < b.evaluator_limit)
        × ((b.start_time ≡ 0) ⊎ (now ≤ b.start_time + b.timeout_seconds * 1000000)))
unfolding check
check_iff now b = ground arith
