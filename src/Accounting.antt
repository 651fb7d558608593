-- ===== src/Accounting.antt =====
-- Amounts and the shares of a payout: backend/packages/api/src/accounting-money.ts.
pub mod Money
pub mod Payout
mod Tests
