-- ===== src/Billing/Tests.antt =====
-- A customer that pays in 60 dollars, for which a referrer gets 6, and a call that is charged.
use powerotp.Prelude.{
  ℕ, ◌≡◌, ◌≤◌, refl, false, Option, none, some, List, [], ◌∷◌, Text, text, text_eq, ℤ, get, put,
  negate, arith, times, ◌+ℤ◌, pos,
}
use powerotp.Verification.State.{State, call_reachability, answered, ringing, succeeded, state_eq}
use powerotp.Verification.Store.{Interaction, World}
use powerotp.Verification.Service.Parts.{ChargeKeeps}
use powerotp.Billing.{round_currency, topup, signup_referral_credit}
use powerotp.Billing.Rates.{Rates}
use powerotp.Billing.Books.{LedgerEntryInput, Books, Draw, Entry, fixed, resolved}
use powerotp.Billing.Ledger.{post_all, post, mark_all, mark_source, balance_of}
use powerotp.Billing.Ledger.Apply.{
  applied, transaction, apply_ledger_entries, duplicate_key, refused, require_non_negative_balance,
  insufficient_balance, invalid_payment_processor_reference,
}
use powerotp.Billing.Ledger.Chain.{IsBalanced, total}
use powerotp.Billing.Ledger.Balanced.{apply_ledger_entries-IsBalanced, apply_ledger_entries-total}
use powerotp.Billing.Ledger.Log.{IsRecorded}
use powerotp.Billing.Ledger.Once.{
  unraced, rows_of, IsUnchanged, apply_ledger_entries-IsLogged, apply_ledger_entries_once,
}
use powerotp.Billing.Ledger.Single.{single_row}
use powerotp.Billing.Charge.{
  Moment, ChargeTry, retry_pending_charges, charge_rest, charge_completed_interaction,
  compute_billable_minutes,
}
use powerotp.Billing.Charge.Minutes.{Covers, compute_billable_minutes-Covers}
use powerotp.Billing.Charge.Keeps.{reported, charge_completed_interaction-ChargeKeeps}
use powerotp.Billing.Charge.Once.{
  Billed, one, all_pending, bill_all, charges_of, charged_at_most_once,
}
use powerotp.Billing.Charge.Debit.{unraced_charge}

abbrev customer : Text
customer = text "customer"

abbrev paid_in : LedgerEntryInput
paid_in = record {
  user_id = customer;
  type = topup;
  amount_usd = fixed (pos 60000000000000);
  project_id = none;
  interaction_id = none;
  session_id = none;
  payment_processor = some (text "stripe");
  payment_processor_transaction_id = some (text "pi_1");
  payment_processor_event_id = none;
  payment_request_id = none;
  source_transaction_id = none;
  source_entry_index = none;
  referral_processed = false;
  referral_transaction_id = none;
  ad_payout_id = none;
  ad_settlement_id = none;
  threshold_rule_id = none;
  referral_code = none;
  commission_percent = none;
  commission_base_usd = none;
  omit_when_zero = false;
  country = none;
  note = none;
}

-- 6 dollars, where the row before was written.
abbrev share : Option Entry → ℤ
share none = pos 0
share (some e) = pos 6000000000000

abbrev commission : LedgerEntryInput
commission = record paid_in {
  user_id = text "referrer";
  type = signup_referral_credit;
  amount_usd = resolved (λ tier prior. share (prior 0));
  payment_processor = none;
  payment_processor_transaction_id = none;
  source_entry_index = some 0;
  referral_code = some (text "friend");
}

abbrev empty : Books
empty = record { balances = []; ledger = []; claims = [] }

abbrev numbered : ℕ → Draw
numbered i = record { id = i ∷ []; now = 5 }

abbrev renumbered : ℕ → Draw
renumbered i = record { id = 7 ∷ i ∷ []; now = 6 }

abbrev key : Text
key = text "topup:1"

abbrev paid : Books
paid =
    (apply_ledger_entries empty (paid_in ∷ commission ∷ []) (some key) (unraced numbered)
      (unraced numbered)).0

empty-IsBalanced : IsBalanced empty
unfolding get
empty-IsBalanced = (tt, λ user. (refl, refl))

-- Both are credited, and the payment names the row of the commission.
paid_balances :
    (balance_of paid customer ≡ pos 60000000) × (balance_of paid (text "referrer") ≡ pos 6000000)
unfolding apply_ledger_entries transaction post_all post mark_all mark_source get put round_currency
    times ◌+ℤ◌
paid_balances = (refl, refl)

apply_ledger_entries-IsBalanced_example : IsBalanced paid
apply_ledger_entries-IsBalanced_example =
    apply_ledger_entries-IsBalanced empty (paid_in ∷ commission ∷ []) (some key) (unraced numbered)
      (unraced numbered) empty-IsBalanced tt tt

apply_ledger_entries-total_example : balance_of paid customer ≡ total customer paid.ledger
apply_ledger_entries-total_example =
    apply_ledger_entries-total empty (paid_in ∷ commission ∷ []) (some key) (unraced numbered)
      (unraced numbered) customer empty-IsBalanced tt tt

apply_ledger_entries-IsLogged_example :
    let (after, outcome) =
      apply_ledger_entries paid (paid_in ∷ []) none (unraced renumbered) (unraced numbered) in
    IsRecorded paid.ledger (rows_of outcome) after.ledger × IsUnchanged paid (after, outcome)
apply_ledger_entries-IsLogged_example =
    apply_ledger_entries-IsLogged paid (paid_in ∷ []) none renumbered numbered

abbrev once : Books
once =
    (apply_ledger_entries empty (paid_in ∷ []) (some key) (unraced numbered) (unraced numbered)).0

paid_once :
    apply_ledger_entries empty (paid_in ∷ []) (some key) (unraced numbered) (unraced numbered)
    ≡ (once, applied (single_row paid_in (numbered 0) empty ∷ []))
unfolding apply_ledger_entries transaction post_all post mark_all get put
paid_once = refl

apply_ledger_entries_once_example :
    apply_ledger_entries once (paid_in ∷ []) (some key) (unraced renumbered) (unraced renumbered)
    ≡ (once, applied [])
apply_ledger_entries_once_example =
    apply_ledger_entries_once empty once (paid_in ∷ []) (paid_in ∷ []) _ _ (unraced numbered)
      (unraced numbered) renumbered renumbered _ _ paid_once refl

-- Without a key the payment is refused as a duplicate of the processor's transaction.
paid_twice :
    (apply_ledger_entries paid (paid_in ∷ []) none (unraced renumbered) (unraced numbered)).1
    ≡ refused duplicate_key
unfolding apply_ledger_entries transaction post_all post mark_all mark_source get put
paid_twice = refl

unpaid : require_non_negative_balance empty customer 9 ≡ refused insufficient_balance
unfolding get
unpaid = refl

half_reference :
    (apply_ledger_entries empty
      (record paid_in { payment_processor = none } ∷ [])
      none
      (unraced numbered)
      (unraced numbered)).1
    ≡ refused invalid_payment_processor_reference
unfolding apply_ledger_entries
half_reference = refl

abbrev moment : State → ℕ → Moment
moment s at = record { state = s; occurred_at = at }

abbrev talk : List Moment
talk = moment ringing 1000 ∷ moment answered 5000 ∷ moment succeeded 70000 ∷ []

compute_billable_minutes-Covers_example : Covers (compute_billable_minutes talk) 65000
compute_billable_minutes-Covers_example =
    compute_billable_minutes-Covers talk (moment answered 5000) (moment succeeded 70000) refl refl

two_minutes : compute_billable_minutes talk ≡ 2
unfolding compute_billable_minutes
two_minutes = refl

abbrev call : Interaction
call = record {
  id = text "call";
  project_id = text "project";
  customer_id = customer;
  type = call_reachability;
  target_number = text "+15550001111";
  state = answered;
  reason_code = none;
  sequence = 3;
  correlation_id = text "request";
  browser_response = false;
  hosted_auth_contact = none;
  expected_code_encrypted = none;
  challenge_answers = none;
  token_nonce = none;
  token_consumed_at = none;
  call_trunk_id = some (text "trunk");
  sms_did = none;
  email_sent = false;
  provider_record = none;
  end_user_ip = none;
  end_user_user_agent = none;
  provider_record_status = none;
  email_branding = none;
  free_quota_covered = false;
  billing_pending_at = some 40;
  billing_applied_at = none;
  created_at = 10;
  updated_at = 40;
  expires_at = 100;
}

abbrev world : World
world = record { requests = (text "call", call) ∷ []; events = []; callbacks = []; reconciles = [] }

-- 2 cents a minute at the lowest tier, and 1 at the second.
abbrev rates : Rates
rates = record {
  call_rates =
      (text "US", record { tier1_usd = 20000000000; tier2_usd = 10000000000; tier3_usd = 0 }) ∷ [];
  sms_rates = [];
  email_rate = none;
  plan_charges = [];
}

abbrev country : Text → Option Text
country number = some (text "US")

abbrev try : ChargeTry
try = unraced_charge renumbered renumbered 50

-- The customer is at the second tier.
charged_balance :
    balance_of (charge_completed_interaction country rates world paid call try).1 customer
    ≡ pos 59990000
unfolding charge_completed_interaction apply_ledger_entries transaction post_all post mark_all
    mark_source get put round_currency times ◌+ℤ◌ negate compute_billable_minutes
charged_balance = refl

charge_completed_interaction-ChargeKeeps_example :
    ChargeKeeps (λ x w. reported (charge_completed_interaction country rates w paid x try))
charge_completed_interaction-ChargeKeeps_example =
    charge_completed_interaction-ChargeKeeps country rates paid try

abbrev bills : List Billed
bills = one world call try ∷ all_pending world (λ i. try) ∷ []

charged_at_most_once_example :
    charges_of (text "call") (bill_all country rates bills empty).ledger ≤ 1
charged_at_most_once_example =
    charged_at_most_once country rates (text "call") bills empty ((tt, tt), ((λ i. (tt, tt)), tt))
      (omega arith)

-- The run over the pending ones finds the call again, and leaves it at its one row.
charged_one_row : charges_of (text "call") (bill_all country rates bills empty).ledger ≡ 1
unfolding retry_pending_charges charge_rest charge_completed_interaction apply_ledger_entries
    transaction post_all post mark_all get put
charged_one_row = refl
