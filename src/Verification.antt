-- ===== src/Verification.antt =====
-- Phone verification: the life of an interaction, and the service that moves it.
pub mod State
pub mod Store
pub mod Grading
pub mod Service
pub mod Delivery
pub mod Desk
pub mod Create
mod Examples
mod Tests
mod CreateTests
