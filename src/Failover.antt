-- ===== src/Failover.antt =====
-- scripts/dr/seal-failover-evidence.py: the evidence of a failover drill is validated, written as
-- canonical JSON, and sealed with the hash of what was written.
pub mod Sensitive
pub mod Single
pub mod Rules
pub mod Validate
pub mod Storage
pub mod Seal
pub mod Sealed
pub mod Clean
pub mod Sound
pub mod Accepted
