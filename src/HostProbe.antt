-- ===== src/HostProbe.antt =====
-- The host probe (apps/host_probe): events, detectors, pipeline, reporting.
pub mod Event
pub mod Alert
pub mod Names
pub mod Detectors
pub mod Floods
pub mod Pipeline
pub mod Keyed
pub mod Muting
pub mod Routing
pub mod Report
pub mod Context
pub mod Delivery
pub mod Storms
pub mod Setup
pub mod Hex
pub mod Baseline
pub mod Cleaning
mod Tests
