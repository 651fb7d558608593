-- ===== src/Billing/Books.antt =====
-- The documents of the ledger and of balances: backend/packages/api/src/billing-persistence.ts and
-- balance-service.ts.
use powerotp.Prelude.{ℕ, Bool, Option, List, nat_eq, Text, text, text_eq, ℤ}
use powerotp.Billing.{BillingTier, FinancialTransactionType}

abbrev pub platform_admin_user_id : Text
platform_admin_user_id = text "usr_platform_admin"

-- `FinancialTransactionDocument`
pub record Entry : Type 0 where
  pub id : Text
  pub user_id : Text
  pub project_id : Option Text
  pub interaction_id : Option Text
  pub session_id : Option Text
  pub payment_processor : Option Text
  pub payment_processor_transaction_id : Option Text
  pub payment_processor_event_id : Option Text
  pub payment_request_id : Option Text
  pub source_transaction_id : Option Text
  pub referral_processed : Bool
  pub referral_transaction_id : Option Text
  pub ad_payout_id : Option Text
  pub ad_settlement_id : Option Text
  pub threshold_rule_id : Option Text
  pub referral_code : Option Text
  pub commission_percent : Option ℕ
  pub commission_base_usd : Option ℤ
  pub type : FinancialTransactionType
  pub country : Option Text
  pub note : Option Text
  pub opening_balance_usd : ℤ
  pub tier_at_transaction : BillingTier
  pub amount_usd : ℤ
  pub closing_balance_usd : ℤ
  pub created_at : ℕ

-- An amount to be rounded: fixed, or found from the tier and the rows that stand before.
pub data Amount : Type 0 where
  fixed : ℤ → Amount
  resolved : (BillingTier → (ℕ → Option Entry) → ℤ) → Amount

pub record LedgerEntryInput : Type 0 where
  pub user_id : Text
  pub type : FinancialTransactionType
  pub amount_usd : Amount
  pub project_id : Option Text
  pub interaction_id : Option Text
  pub session_id : Option Text
  pub payment_processor : Option Text
  pub payment_processor_transaction_id : Option Text
  pub payment_processor_event_id : Option Text
  pub payment_request_id : Option Text
  pub source_transaction_id : Option Text
  pub source_entry_index : Option ℕ
  pub referral_processed : Bool
  pub referral_transaction_id : Option Text
  pub ad_payout_id : Option Text
  pub ad_settlement_id : Option Text
  pub threshold_rule_id : Option Text
  pub referral_code : Option Text
  pub commission_percent : Option ℕ
  pub commission_base_usd : Option ℤ
  pub omit_when_zero : Bool
  pub country : Option Text
  pub note : Option Text

pub record Balance : Type 0 where
  pub balance_usd : ℤ
  pub tier : BillingTier
  pub updated_at : ℕ

-- The three collections. In the ledger the latest row stands first.
pub record Books : Type 0 where
  pub balances : List (Text × Balance)
  pub ledger : List Entry
  pub claims : List Text

-- `{ code: 11000, keyValue }`, by the `_id` of `keyValue`.
pub data Attempt {ℓ} (A : Type ℓ) : Type ℓ where
  committed : A → Attempt A
  duplicate : Option Text → Attempt A

-- What `createSortableId` and the clock give a row.
pub record Draw : Type 0 where
  pub id : Text
  pub now : ℕ

-- The transaction under way: the map `balances` and the array `entries`, up to this input.
pub record Run : Type 0 where
  pub books : Books
  pub running : List (Text × ℤ)
  pub entries : List (Option Entry)
