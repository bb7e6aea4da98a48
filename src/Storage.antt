-- ===== src/Storage.antt =====
-- crates/obschain-storage: where events, incidents and baselines are kept.
pub mod Equalities
pub mod Memory
pub mod Events
pub mod Incidents
pub mod Finding
pub mod Baselines
pub mod Ranks
pub mod Keys
pub mod Lookup
pub mod Checked
mod Tests
pub mod Kept
pub mod History
pub mod Seeding
pub mod Retention
