-- ===== src/Detectors.antt =====
-- crates/obschain-detectors: the detectors, the engine that runs them, and the deduplicator of what
-- they report.
pub mod Dedup
pub mod Engine
pub mod Metadata
pub mod FanOut
pub mod Dormant
pub mod Tests
pub mod Blocks
pub mod Transactions
pub mod TransactionTests
