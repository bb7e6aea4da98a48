-- ===== src/Core.antt =====
-- crates/obschain-core: the types that every other crate shares, and the arithmetic on amounts.
pub mod External
pub mod Source
pub mod Mode
pub mod Observation
pub mod Occurrence
pub mod Event
pub mod Amount
pub mod Replay
pub mod Incident
pub mod Watch
pub mod Baseline
pub mod Samples
pub mod Tests
