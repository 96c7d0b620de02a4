-- ===== src/Models.antt =====
-- The Pydantic models of src/zeroshield/models: enumerations, records, and their validators.
pub mod Enums
pub mod Values
pub mod Paths
pub mod Texts
pub mod Patterns
pub mod Experiment
pub mod Policy
pub mod Runs
pub mod Metrics
pub mod Versions
