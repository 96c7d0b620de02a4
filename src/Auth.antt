-- ===== src/Auth.antt =====
-- src/zeroshield/auth: users, sessions, and the rules of logging in.
pub mod Models
pub mod Accounts
pub mod Service
pub mod Sessions
