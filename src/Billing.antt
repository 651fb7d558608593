-- ===== src/Billing.antt =====
-- Money and price tiers: backend/packages/api/src/money.ts, with `tierForBalance` of
-- backend/packages/api/src/balance-service.ts and the types of
-- backend/packages/contracts/src/billing.ts.
-- A stored amount is a whole number of millionths of a dollar, which is what `roundCurrency`
-- leaves; an amount to be rounded is a number of millionths of those.
pub mod Books
pub mod Ledger
pub mod Rates
pub mod Charge
mod Tests
use powerotp.Prelude.{
  ℕ, ◌+◌, ◌/◌, Bool, if◌then◌else◌, ℤ, pos, negsuc, sub_ℕ, leb_ℤ, times, ◌≡◌, arith,
}
use powerotp.Verification.State.{VerificationType}

pub data BillingTier : Type 0 where
  tier1 tier2 tier3 : BillingTier

-- `tierForBalance`, from 100 and from 50 dollars.
abbrev pub tier_for_balance : ℤ → BillingTier
tier_for_balance balance =
    if leb_ℤ (pos 100000000) balance
    then tier3
    else if leb_ℤ (pos 50000000) balance
    then tier2
    else tier1

-- `roundCurrency`: `Math.round` takes a half up.
unfoldable pub round_currency : ℤ → ℤ
round_currency (pos n) = pos ((n + 500000) / 1000000)
round_currency (negsuc n) = sub_ℕ 0 ((n + 500000) / 1000000)

-- A stored amount as an amount to be rounded.
abbrev pub exact : ℤ → ℤ
exact a = times 1000000 a

pub round_currency-exact : (a : ℤ) → round_currency (exact a) ≡ a
unfolding round_currency times
round_currency-exact a = ground arith

pub data FinancialTransactionType : Type 0 where
  visit : FinancialTransactionType
  otp : VerificationType → FinancialTransactionType
  daily_charge signup_threshold_charge signin_threshold_charge : FinancialTransactionType
  ad_revenue signup_referral_credit signin_referral_credit : FinancialTransactionType
  ad_revenue_referral_credit recurring_referral_credit : FinancialTransactionType
  age_verification topup admin_adjustment : FinancialTransactionType
