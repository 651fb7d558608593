-- ===== src/Billing/Charge.antt =====
-- The charge of a completed delivery: backend/packages/api/src/billing-charge-service.ts.
-- `country_for_e164`, which asks a library of phone numbers, is a parameter.
pub mod Minutes
pub mod Keeps
pub mod Once
pub mod Debit
use powerotp.Prelude.{
  ℕ, ◌+◌, ◌-◌, ◌*◌, ◌/◌, max, Bool, true, false, not, ◌&&◌, ◌||◌, Option, Option-map, none, some,
  List, [], ◌∷◌, ◌++◌, ◌==◌, nat_eq, leb, if◌then◌else◌, Text, text, text_eq, get, find, filter,
  is_some, ℤ, pos, negate,
}
use powerotp.Verification.State.{
  VerificationType, sms_code, email_code, State, answered, type_eq, state_eq,
}
use powerotp.Verification.Store.{Interaction, Event, World, is_given, was_attempted, store_found}
use powerotp.Billing.{BillingTier, FinancialTransactionType, otp}
use powerotp.Billing.Rates.{Rates, RateCard, rate_of, call_rate_for, sms_rate_for, email_rate_for}
use powerotp.Billing.Books.{
  Entry, LedgerEntryInput, Amount, fixed, resolved, Books, platform_admin_user_id,
}
use powerotp.Billing.Ledger.{is_nonempty}
use powerotp.Billing.Ledger.Apply.{Outcome, applied, refused, LedgerError, Try, apply_ledger_entry}

-- What the minutes are computed from: a state, and when it occurred.
pub record Moment : Type 0 where
  pub state : State
  pub occurred_at : ℕ

abbrev last_or : Moment → List Moment → Moment
last_or m [] = m
last_or m (n ∷ events) = last_or n events

-- `events[events.length - 1]`
abbrev pub last : List Moment → Option Moment
last [] = none
last (m ∷ events) = some (last_or m events)

abbrev minutes_between : Option Moment → Option Moment → ℕ
minutes_between none terminal = 0
minutes_between (some a) none = 0
minutes_between (some a) (some z) = max 1 ((z.occurred_at - a.occurred_at + 59999) / 60000)

-- `computeBillableMinutes`, over milliseconds: `Math.ceil` of the difference, which is 0 where the
-- terminal event is the earlier.
unfoldable pub compute_billable_minutes : List Moment → ℕ
compute_billable_minutes events =
    minutes_between (find (λ m. m.state == answered) events) (last events)

-- `.sort({ sequence: 1 })`
abbrev insert_event : Event → List Event → List Event
insert_event e [] = e ∷ []
insert_event e (f ∷ fs) = if leb e.sequence f.sequence then e ∷ f ∷ fs else f ∷ insert_event e fs

abbrev sort_events : List Event → List Event
sort_events [] = []
sort_events (e ∷ es) = insert_event e (sort_events es)

abbrev moments : List Event → List Moment
moments [] = []
moments (e ∷ es) = record { state = e.state; occurred_at = e.occurred_at } ∷ moments es

abbrev is_last_sequence : List Event → ℕ → Bool
is_last_sequence [] n = false
is_last_sequence (e ∷ []) n = e.sequence == n
is_last_sequence (e ∷ f ∷ es) n = is_last_sequence (f ∷ es) n

-- The events of the interaction, with its own state where the last of them is not written yet.
abbrev pub timeline : World → Interaction → List Moment
timeline w x =
    let events = sort_events (filter (λ e. e.interaction_id == x.id) w.events) in
    if is_last_sequence events x.sequence
    then moments events
    else moments events ++ (record { state = x.state; occurred_at = x.updated_at } ∷ [])

-- `-rate`, or nothing where no rate is set.
abbrev pub minus_rate : Option RateCard → ℕ → BillingTier → ℤ
minus_rate none units tier = pos 0
minus_rate (some card) units tier = negate (pos (rate_of card tier * units))

abbrev country_rate : (Text → Option RateCard) → Option Text → Option RateCard
country_rate rate none = none
country_rate rate (some country) = if is_nonempty (some country) then rate country else none

-- `otpChargeTypeFor`
abbrev pub otp_charge_type_for : VerificationType → FinancialTransactionType
otp_charge_type_for t = otp t

-- The attempts that the ledger makes, and the clock for `billingAppliedAt`.
pub record ChargeTry : Type 0 where
  pub first : Try
  pub again : Try
  pub now : ℕ

abbrev pub applied_at : ℕ → Interaction → Interaction
applied_at now r = record r { billing_applied_at = some now }

-- `updateOne({ _id }, { $set: { billingAppliedAt } })`
abbrev pub set_applied : ℕ → Text → World → World
set_applied now id w = store_found w id (Option-map (applied_at now) (get id w.requests))

abbrev pub charge_key : Text → Text
charge_key id = text "otp:" ++ id

abbrev pub after_charge :
    World → Text → ℕ → Books × Outcome (List Entry) → World × Books × Outcome (Unit {0})
after_charge w id now (books, applied rows) = (set_applied now id w, books, applied tt)
after_charge w id now (books, refused e) = (w, books, refused e)

-- The requests that `retryPendingCharges` finds.
abbrev pub pending_of : List (Text × Interaction) → List Interaction
pending_of [] = []
pending_of ((id, r) ∷ requests) =
    if is_some r.billing_pending_at && not (is_some r.billing_applied_at)
    then r ∷ pending_of requests
    else pending_of requests

module _ (country_for_e164 : Text → Option Text) (rates : Rates) where
  abbrev pub country_of : Interaction → Option Text
  country_of x = if x.type == email_code then none else country_for_e164 x.target_number

  -- The amount that the four branches ask for.
  abbrev pub charge_amount : World → Interaction → Amount
  charge_amount w x =
      if x.free_quota_covered
      then fixed (pos 0)
      else if x.type == sms_code
      then resolved
          (λ tier prior. minus_rate (country_rate (sms_rate_for rates) (country_of x)) 1 tier)
      else if x.type == email_code
      then resolved (λ tier prior. minus_rate (email_rate_for rates) 1 tier)
      else let minutes = compute_billable_minutes (timeline w x) in
        resolved (λ tier prior.
          if leb minutes 0
          then pos 0
          else minus_rate (country_rate (call_rate_for rates) (country_of x)) minutes tier)

  abbrev pub charge_input : World → Interaction → LedgerEntryInput
  charge_input w x = record {
    user_id = x.customer_id;
    type = otp_charge_type_for x.type;
    amount_usd = charge_amount w x;
    project_id = some x.project_id;
    interaction_id = some x.id;
    session_id = none;
    payment_processor = none;
    payment_processor_transaction_id = none;
    payment_processor_event_id = none;
    payment_request_id = none;
    source_transaction_id = none;
    source_entry_index = none;
    referral_processed = false;
    referral_transaction_id = none;
    ad_payout_id = none;
    ad_settlement_id = none;
    threshold_rule_id = none;
    referral_code = none;
    commission_percent = none;
    commission_base_usd = none;
    omit_when_zero = false;
    country = country_of x;
    note = if x.free_quota_covered then some (text "free_quota") else none;
  }

  -- `#applyCharge`
  abbrev pub apply_charge :
      World → Books → Interaction → ChargeTry → World × Books × Outcome (Unit {0})
  apply_charge w books x try =
      after_charge w x.id try.now
        (apply_ledger_entry books (charge_input w x) (some (charge_key x.id)) try.first try.again)

  -- `chargeCompletedInteraction`
  unfoldable pub charge_completed_interaction :
      World → Books → Interaction → ChargeTry → World × Books × Outcome (Unit {0})
  charge_completed_interaction w books x try =
      if x.customer_id == platform_admin_user_id
      then (set_applied try.now x.id w, books, applied tt)
      else if not (was_attempted x)
      then (w, books, applied tt)
      else apply_charge w books x try

  unfoldable pub charge_rest :
      List Interaction
      → (ℕ → ChargeTry)
      → ℕ
      → World × Books × Outcome (Unit {0})
      → World × Books × Outcome (Unit {0})
  charge_rest [] tries i (w, books, outcome) = (w, books, outcome)
  charge_rest (x ∷ xs) tries i (w, books, refused e) = (w, books, refused e)
  charge_rest (x ∷ xs) tries i (w, books, applied done) =
      charge_rest xs tries (i + 1) (charge_completed_interaction w books x (tries i))

  -- `retryPendingCharges`: one that is refused ends the run.
  unfoldable pub retry_pending_charges :
      World → Books → (ℕ → ChargeTry) → World × Books × Outcome (Unit {0})
  retry_pending_charges w books tries =
      charge_rest (pending_of w.requests) tries 0 (w, books, applied tt)
