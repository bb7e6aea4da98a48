-- ===== src/Incidents.antt =====
-- Incident dossiers: crates/obschain-incidents/src.
pub mod Validation
pub mod Tests
