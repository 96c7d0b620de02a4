-- ===== src/Intelligence.antt =====
-- src/zeroshield/intelligence: records of the feeds, one merged view of each CVE, its priority, and
-- what a sync does.
pub mod Models
pub mod Texts
pub mod Normalisation
pub mod Dedup
pub mod Priority
pub mod Candidates
pub mod Repository
pub mod Sync
pub mod Http
pub mod Tests
