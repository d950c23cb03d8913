-- ===== src/Discovery.antt =====
-- The discovery services of src/notary_platform/discovery.
pub mod Assembly
pub mod Context
pub mod Identity
pub mod Ingress
pub mod Suggestions
