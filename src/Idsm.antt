-- ===== src/Idsm.antt =====
-- The IDS manager (src/IdsM_Manager.cpp, src/IdsM.c, include/IdsM_Types.h, include/IdsM_Internal.h).
pub mod Types
pub mod Filters
pub mod Manager
pub mod Api
pub mod Worker
pub mod Sampling
pub mod Aggregation
pub mod Threshold
pub mod Passing
pub mod Verdicts
pub mod Sinks
pub mod Frame
pub mod Windows
pub mod Tally
pub mod Pending
pub mod Accounting
pub mod Reporting
mod Tests
