-- ===== src/Protocol.antt =====
-- The IDS Message serializer (src/IdsM_Protocol.c, include/IdsM_Protocol.h).
pub mod Serialize
pub mod Masks
pub mod Write
pub mod Decode
pub mod Frames
pub mod RoundTrip
mod Tests
