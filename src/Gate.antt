-- ===== src/Gate.antt =====
-- The gate of a page in the browser: libraries/gate-core/src.
pub mod States
pub mod Decision
pub mod Variables
pub mod Controller
mod Tests
