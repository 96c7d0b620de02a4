-- ===== src/Strategies.antt =====
-- src/zeroshield/strategies: the processing strategies and their registry. A strategy is a function
-- of the input dict that may raise; an exception is its message.
pub mod Checks
pub mod Vpn
pub mod Telecom
pub mod Registry
mod Tests
