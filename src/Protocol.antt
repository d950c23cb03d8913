-- ===== src/Protocol.antt =====
-- The decision evidence protocol: the checks that an envelope passes before it is ingested.
pub mod Digest
pub mod Validation
