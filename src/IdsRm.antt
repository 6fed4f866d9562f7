-- ===== src/IdsRm.antt =====
-- The IDS reporter (src/IdsRm_Manager.cpp, include/IdsRm_Types.h, include/IdsRm_Internal.h).
pub mod Types
pub mod Reporter
pub mod Posting
pub mod Sections
pub mod Steps
pub mod Turns
pub mod Lifecycle
pub mod Serial
pub mod Outcomes
mod Tests
