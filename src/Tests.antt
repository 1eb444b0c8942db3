-- ===== src/Tests.antt =====
-- Concrete inputs, and each theorem at one of them.
pub mod Services
pub mod Paths
pub mod Checks
pub mod Reviews
pub mod Documents
pub mod Orders
pub mod Gates
pub mod Roles
pub mod Baseline
pub mod SelfCheck
pub mod Stages
pub mod Drill
