-- ===== src/Records.antt =====
-- The dataclasses of src/notary_platform/sweep/models.py, src/notary_platform/sweep/jobs.py and
-- src/notary_platform/discovery/models.py, one module each.
pub mod Contract
pub mod Definition
pub mod Run
pub mod Assessment
pub mod Candidate
pub mod Review
pub mod Suppression
pub mod Suggestion
pub mod Delegation
pub mod Job
pub mod Resource
pub mod Integrity
pub mod Link
pub mod Binding
pub mod Conflict
pub mod Trace
pub mod Evidence
