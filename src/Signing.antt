-- ===== src/Signing.antt =====
-- The signed artifacts of the bot gate: backend/packages/botblocker-signing/src.
pub mod Canonical
pub mod Keys
pub mod Artifacts
pub mod Replay
mod Tests
