-- ===== src/Sweep.antt =====
-- The sweep runtime: src/notary_platform/sweep/ and src/notary_platform/sweep_worker/.
pub mod Budget
pub mod Runner
pub mod Evidence
pub mod Sufficiency
pub mod Evaluators
pub mod Worker
pub mod Registry
pub mod Planner
pub mod Candidates
pub mod Bridge
pub mod Promotion
