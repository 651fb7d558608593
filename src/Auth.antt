-- ===== src/Auth.antt =====
-- Hosted auth: the scopes, the transition reducer and the machines that it runs.
pub mod Scope
pub mod Core
pub mod Request
pub mod Polling
pub mod Webauthn
pub mod Contact
pub mod Recovery
pub mod Grant
pub mod Assurance
mod Tests
mod MachineTests
