-- ===== src/Billing/Rates.antt =====
-- The rate charts: backend/packages/api/src/rate-chart-service.ts, with the documents of
-- billing-persistence.ts. A rate is a number of millionths of a stored amount's unit.
use powerotp.Prelude.{ℕ, Option, some, List, Text, text_eq, get, put, HasEq, eq_of}
use powerotp.Billing.{BillingTier, tier1, tier2, tier3}

abbrev BillingTier-discrete : Discrete BillingTier
BillingTier-discrete = hlevel

instance abbrev pub tier_eq : HasEq BillingTier
tier_eq = eq_of BillingTier-discrete

-- The rates of the tiers: per minute, per message or per mail.
pub record RateCard : Type 0 where
  pub tier1_usd : ℕ
  pub tier2_usd : ℕ
  pub tier3_usd : ℕ

pub record PlanCharge : Type 0 where
  pub monthly_display_usd : ℕ
  pub daily_charged_usd : ℕ

-- The collections, by country, for the one global mail rate, and by tier.
pub record Rates : Type 0 where
  pub call_rates : List (Text × RateCard)
  pub sms_rates : List (Text × RateCard)
  pub email_rate : Option RateCard
  pub plan_charges : List (BillingTier × PlanCharge)

-- `` rate[`${tier}PerMinuteUsd`] ``
abbrev pub rate_of : RateCard → BillingTier → ℕ
rate_of card tier1 = card.tier1_usd
rate_of card tier2 = card.tier2_usd
rate_of card tier3 = card.tier3_usd

abbrev pub call_rate_for : Rates → Text → Option RateCard
call_rate_for rates country = get country rates.call_rates

abbrev pub sms_rate_for : Rates → Text → Option RateCard
sms_rate_for rates country = get country rates.sms_rates

abbrev pub email_rate_for : Rates → Option RateCard
email_rate_for rates = rates.email_rate

abbrev pub upsert_call_rate : Text → RateCard → Rates → Rates
upsert_call_rate country card rates = record rates {
  call_rates = put country card rates.call_rates;
}

abbrev pub upsert_sms_rate : Text → RateCard → Rates → Rates
upsert_sms_rate country card rates = record rates { sms_rates = put country card rates.sms_rates }

abbrev pub upsert_email_rate : RateCard → Rates → Rates
upsert_email_rate card rates = record rates { email_rate = some card }

abbrev pub plan_charge_for : Rates → BillingTier → Option PlanCharge
plan_charge_for rates tier = get tier rates.plan_charges

abbrev pub update_plan_charge : BillingTier → PlanCharge → Rates → Rates
update_plan_charge tier charge rates = record rates {
  plan_charges = put tier charge rates.plan_charges;
}
