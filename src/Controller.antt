-- ===== src/Controller.antt =====
-- scripts/ai_controller/core.py, the deterministic control plane of the repository's automation.
pub mod Constants
pub mod Decision
pub mod Scope
pub mod Registry
pub mod Schema
pub mod Origin
pub mod RequiredChecks
pub mod PatchIdentity
pub mod Loop
pub mod ReviewRecord
pub mod Appointment
pub mod Disposition
pub mod Threat
pub mod ControlPlane
pub mod WorkOrder
pub mod Manufacturing
pub mod ReviewGate
