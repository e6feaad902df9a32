-- ===== src/Telemetry.antt =====
-- pkg/telemetry.
pub mod Instruments
pub mod Methods
pub mod Requeues
pub mod Absent
pub mod Effects
pub mod Reconciles
pub mod Creation
pub mod Setup
pub mod Tracing
