-- ===== src/BotGate.antt =====
-- The scores of the bot gate: backend/packages/api/src/botblocker-profile-scoring.ts and
-- botblocker-risk-event-scoring.ts.
pub mod Scoring
pub mod Scores
pub mod Profile
pub mod RiskEvent
mod Tests
