-- ===== src/Ingest.antt =====
-- The feeds: crates/obschain-ingest/src.
pub mod Sequence
pub mod Cache
pub mod Enricher
pub mod Replay
pub mod Tests
pub mod Coordinator
pub mod JobTests
mod EnricherTests
