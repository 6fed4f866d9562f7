-- ===== src/EthProbe.antt =====
-- The Ethernet probe (apps/eth_probe): packet parser, detectors, fragment reassembly.
pub mod Memory
pub mod Packet
pub mod Bounds
pub mod Alert
pub mod Detectors
pub mod Scanning
pub mod Stream
pub mod Advance
pub mod Coverage
pub mod Ranges
pub mod Copying
pub mod Fragment
pub mod Defrag
pub mod Reassembly
pub mod Pool
pub mod Settling
pub mod Feeding
pub mod Refinement
pub mod Evicting
pub mod Expiry
mod Tests
