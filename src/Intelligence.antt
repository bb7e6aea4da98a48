-- ===== src/Intelligence.antt =====
-- crates/obschain-intelligence: what the program concludes from the observations.
pub mod WatchEngine
pub mod Baseline
mod Tests
mod BaselineTests
