-- ===== src/Services.antt =====
-- The application services of src/notary_platform/services/services.py.
pub mod Actions
pub mod Gate
pub mod Replayability
pub mod Labels
pub mod Replays
pub mod Mutations
