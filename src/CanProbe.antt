-- ===== src/CanProbe.antt =====
-- The CAN probe (apps/can_probe): frame parser, detectors, pipeline and reporting.
pub mod Frame
pub mod Alert
pub mod Floods
pub mod Diagnostics
pub mod Pipeline
pub mod Report
pub mod Parsing
pub mod Windows
pub mod Routing
pub mod Context
pub mod Delivery
pub mod Setup
pub mod Shutdown
mod Tests
