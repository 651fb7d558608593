-- ===== src/Billing/Ledger.antt =====
-- One transaction on the documents of the customer ledger:
-- backend/packages/api/src/balance-service.ts, with the collections of billing-persistence.ts.
pub mod Attempts
pub mod Single
pub mod Log
pub mod Once
pub mod Chain
pub mod Balanced
pub mod Apply
use powerotp.Prelude.{
  ℕ, ◌+◌, Bool, true, false, not, ◌&&◌, ◌||◌, Option, none, some, List, [], ◌∷◌, ◌++◌, ◌==◌, nat_eq,
  if◌then◌else◌, Text, text, text_eq, get, put, get_elem?, length, exists, every, is_some, map, ℤ,
  pos, ◌+ℤ◌, is_zero, abs, filter,
}
use powerotp.Billing.{
  BillingTier, tier_for_balance, round_currency, exact, FinancialTransactionType,
}
use powerotp.Billing.Books.{
  Amount, Attempt, Balance, Books, Draw, Entry, LedgerEntryInput, Run, committed, duplicate, fixed,
  platform_admin_user_id, resolved,
}

-- `PLATFORM_ADMIN_USER_ID`

abbrev pub amount_of : Option Balance → ℤ
amount_of none = pos 0
amount_of (some b) = b.balance_usd

-- `findOne({ _id })`, where a missing balance is 0.
abbrev pub balance_of : Books → Text → ℤ
balance_of books user = amount_of (get user books.balances)

abbrev pub or_else {ℓ} : {A : Type ℓ} → Option A → A → A
or_else none a = a
or_else (some b) a = b

abbrev pub opening_of : Run → Text → ℤ
opening_of run user = or_else (get user run.running) (balance_of run.books user)

abbrev pub entry_at : List (Option Entry) → ℕ → Option Entry
entry_at entries i = or_else (get_elem? entries i) none

abbrev pub resolve_amount : Amount → BillingTier → (ℕ → Option Entry) → ℤ
resolve_amount (fixed a) tier prior = a
resolve_amount (resolved f) tier prior = f tier prior

abbrev id_of : Option Entry → Option Text
id_of none = none
id_of (some e) = some e.id

abbrev charged_amount : Option Entry → ℤ
charged_amount none = pos 0
charged_amount (some e) = e.amount_usd

-- `given ?? (index === undefined ? undefined : …entries[index]…)`
abbrev source_id : Option Text → Option ℕ → List (Option Entry) → Option Text
source_id (some given) index entries = some given
source_id none none entries = none
source_id none (some i) entries = id_of (entry_at entries i)

abbrev commission_base : Option ℤ → Option ℕ → List (Option Entry) → Option ℤ
commission_base (some given) index entries = some given
commission_base none none entries = none
commission_base none (some i) entries = some (abs (charged_amount (entry_at entries i)))

abbrev pub row_of : Draw → LedgerEntryInput → List (Option Entry) → ℤ → ℤ → Entry
row_of draw input entries opening amount = record {
  id = draw.id;
  user_id = input.user_id;
  project_id = input.project_id;
  interaction_id = input.interaction_id;
  session_id = input.session_id;
  payment_processor = input.payment_processor;
  payment_processor_transaction_id = input.payment_processor_transaction_id;
  payment_processor_event_id = input.payment_processor_event_id;
  payment_request_id = input.payment_request_id;
  source_transaction_id = source_id input.source_transaction_id input.source_entry_index entries;
  referral_processed = input.referral_processed;
  referral_transaction_id = input.referral_transaction_id;
  ad_payout_id = input.ad_payout_id;
  ad_settlement_id = input.ad_settlement_id;
  threshold_rule_id = input.threshold_rule_id;
  referral_code = input.referral_code;
  commission_percent = input.commission_percent;
  commission_base_usd = commission_base input.commission_base_usd input.source_entry_index entries;
  type = input.type;
  country = input.country;
  note = input.note;
  opening_balance_usd = opening;
  tier_at_transaction = tier_for_balance opening;
  amount_usd = amount;
  closing_balance_usd = round_currency (exact (opening +ℤ amount));
  created_at = draw.now;
}

abbrev both_equal : Option Text → Option Text → Bool
both_equal (some a) (some b) = a == b
both_equal _ _ = false

-- The unique indexes of the ledger: `_id`, and the processor with its transaction.
abbrev same_payment : Entry → Entry → Bool
same_payment row e =
    both_equal row.payment_processor e.payment_processor
    && both_equal row.payment_processor_transaction_id e.payment_processor_transaction_id

abbrev pub conflict : Entry → List Entry → Option (Option Text)
conflict row ledger =
    if exists (λ e. e.id == row.id) ledger
    then some (some row.id)
    else if exists (same_payment row) ledger
    then some none
    else none

-- The row, its customer's balance, and the two variables of the loop.
abbrev pub insert : Entry → Run → Run
insert row run = record {
  books = record run.books {
    ledger = row ∷ run.books.ledger;
    balances =
        put row.user_id
          (record {
            balance_usd = row.closing_balance_usd;
            tier = tier_for_balance row.closing_balance_usd;
            updated_at = row.created_at;
          })
          run.books.balances;
  };
  running = put row.user_id row.closing_balance_usd run.running;
  entries = run.entries ++ (some row ∷ []);
}

abbrev pub insert_unless : Option (Option Text) → Entry → Run → Attempt Run
insert_unless none row run = committed (insert row run)
insert_unless (some key) row run = duplicate key

abbrev pub skip : Run → Run
skip run = record run { entries = run.entries ++ (none ∷ []) }

-- One turn of the loop over the inputs.
unfoldable pub post : Draw → LedgerEntryInput → Run → Attempt Run
post draw input run =
    if input.user_id == platform_admin_user_id
    then committed (skip run)
    else let opening = opening_of run input.user_id in
      let amount =
        round_currency
          (resolve_amount input.amount_usd (tier_for_balance opening) (entry_at run.entries)) in
      if input.omit_when_zero && is_zero amount
      then committed (skip run)
      else let row = row_of draw input run.entries opening amount in
        insert_unless (conflict row run.books.ledger) row run

abbrev pub bind_attempt {ℓ κ} : {A : Type ℓ} {B : Type κ} → Attempt A → (A → Attempt B) → Attempt B
bind_attempt (committed a) k = k a
bind_attempt (duplicate key) k = duplicate key

unfoldable pub post_all : List LedgerEntryInput → (ℕ → Draw) → Run → Attempt Run
post_all [] draws run = committed run
post_all (input ∷ inputs) draws run =
    bind_attempt (post (draws (length run.entries)) input run) (post_all inputs draws)

abbrev pub referred : Text → Entry → Entry
referred by e = record e { referral_processed = true; referral_transaction_id = some by }

abbrev pub mark_row : Text → Text → Entry → Entry
mark_row id by e = if e.id == id then referred by e else e

abbrev pub mark_entry : Text → Text → Option Entry → Option Entry
mark_entry id by none = none
mark_entry id by (some e) = some (mark_row id by e)

-- The source row names the referral's row, in the array and in the ledger.
unfoldable pub mark_source : Option Entry → Option Entry → Run → Run
mark_source (some referral) (some source) run = record run {
  entries = map (mark_entry source.id referral.id) run.entries;
  books = record run.books { ledger = map (mark_row source.id referral.id) run.books.ledger };
}
mark_source _ _ run = run

abbrev pub is_nonempty : Option Text → Bool
is_nonempty (some (c ∷ t)) = true
is_nonempty _ = false

abbrev pub mark_input : ℕ → Option ℕ → Bool → Run → Run
mark_input i (some source) true run =
    mark_source (entry_at run.entries i) (entry_at run.entries source) run
mark_input i _ _ run = run

-- The second loop over the inputs, from the index `i`.
unfoldable pub mark_all : List LedgerEntryInput → ℕ → Run → Run
mark_all [] i run = run
mark_all (input ∷ inputs) i run =
    mark_all inputs (i + 1)
      (mark_input i input.source_entry_index (is_nonempty input.referral_code) run)
