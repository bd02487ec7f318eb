-- ===== src/Tests.antt =====
-- Runs of the properties on concrete inputs.
pub mod Rules
pub mod Conditions
pub mod Presence
pub mod Tasks
pub mod Forms
pub mod Requests
pub mod Providers
pub mod Upgrades
pub mod Logins
pub mod Queries
pub mod Apps
pub mod Calls
