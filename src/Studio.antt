-- ===== src/Studio.antt =====
-- src/zeroshield/studio: the approval workflow of experiment versions.
pub mod Approval
pub mod Repository
pub mod Service
pub mod Routes
mod Tests
