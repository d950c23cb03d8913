-- ===== src/Replay.antt =====
-- The replay engine, src/notary_platform/replay_engine: the cassette of recorded responses, and the
-- replay of an agent on a sealed snapshot.
pub mod Cassette
pub mod Snapshot
