-- ===== src/Billing/Ledger/Apply.antt =====
-- The methods of `BalanceService`: backend/packages/api/src/balance-service.ts.
-- A call makes at most two attempts at its transaction. What another session does meanwhile is
-- the `race` of an attempt: it wrote the customer's first balance, and left the books as given.
use powerotp.Prelude.{
  ℕ, Bool, true, false, not, ◌&&◌, ◌||◌, Option, none, some, List, [], ◌∷◌, ◌==◌, nat_eq, ltb,
  if◌then◌else◌, Text, text_eq, get, includes, length, exists, every, is_some, filter, pos, leb_ℤ,
  trim, within, is_digit,
}
use powerotp.Billing.{tier_for_balance}
use powerotp.Billing.Books.{
  Entry, LedgerEntryInput, Balance, Books, Attempt, committed, duplicate, Draw, Run,
  platform_admin_user_id,
}
use powerotp.Billing.Ledger.{bind_attempt, post_all, mark_all, is_nonempty, or_else}

-- What the methods throw.
pub data LedgerError : Type 0 where
  invalid_payment_processor_reference duplicate_key insufficient_balance : LedgerError

pub data Outcome {ℓ} (A : Type ℓ) : Type ℓ where
  applied : A → Outcome A
  refused : LedgerError → Outcome A

abbrev pub is_admin_input : LedgerEntryInput → Bool
is_admin_input input = input.user_id == platform_admin_user_id

-- `PaymentProcessorSchema`: `/^[a-z][a-z0-9_-]{1,31}$/` of the trimmed text.
abbrev is_slug : Text → Bool
is_slug [] = false
is_slug (c ∷ s) =
    within 97 122 c
    && every (λ d. within 97 122 d || is_digit d || d == 95 || d == 45) s
    && within 1 31 (length s)

abbrev is_processor : Option Text → Bool
is_processor none = false
is_processor (some s) = is_slug (trim s)

abbrev is_bad_length : Option Text → Bool
is_bad_length none = false
is_bad_length (some s) = ltb (length s) 1 || ltb 200 (length s)

abbrev differ : Bool → Bool → Bool
differ true b = not b
differ false b = b

abbrev pub has_bad_reference : LedgerEntryInput → Bool
has_bad_reference input =
    let has_processor = is_some input.payment_processor in
    let has_transaction_id = is_some input.payment_processor_transaction_id in
    let has_evidence =
      is_some input.payment_processor_event_id || is_some input.payment_request_id in
    differ has_processor has_transaction_id
    || (has_evidence && not has_processor)
    || (has_processor && not (is_processor input.payment_processor))
    || is_bad_length input.payment_processor_transaction_id

-- The claim of the key, `insertOne({ _id: idempotencyKey, … })`.
abbrev pub claim : Books → Option Text → Attempt Books
claim books none = committed books
claim books (some key) =
    if not (is_nonempty (some key))
    then committed books
    else if includes books.claims key
    then duplicate (some key)
    else committed (record books { claims = key ∷ books.claims })

abbrev pub release : Books → Option Text → Books
release books none = books
release books (some key) = record books { claims = filter (λ c. not (c == key)) books.claims }

-- A claim that stands for no row is given back.
abbrev pub close_claim : Option Text → Run → Books
close_claim key run =
    if is_nonempty key && every (λ e. not (is_some e)) run.entries
    then release run.books key
    else run.books

abbrev pub start : Books → Run
start books = record { books = books; running = []; entries = [] }

abbrev pub close : List LedgerEntryInput → Option Text → Run → Attempt (Books × List (Option Entry))
close inputs key run =
    let marked = mark_all inputs 0 run in committed (close_claim key marked, marked.entries)

-- The body of `withTransaction`.
unfoldable pub transaction :
    Books → List LedgerEntryInput → Option Text → (ℕ → Draw) → Attempt (Books × List (Option Entry))
transaction books inputs key draws =
    bind_attempt (claim books key)
      λ claimed. bind_attempt (post_all inputs draws (start claimed)) (close inputs key)

-- One attempt: what its rows draw, and the session that gets ahead of it, if one does.
pub record Try : Type 0 where
  pub draws : ℕ → Draw
  pub race : Option (Text × Books)

abbrev pub attempt_under :
    Option (Text × Books)
    → Books
    → List LedgerEntryInput
    → Option Text
    → (ℕ → Draw)
    → Books × Attempt (Books × List (Option Entry))
attempt_under none books inputs key draws = (books, transaction books inputs key draws)
attempt_under (some (user, later)) books inputs key draws = (later, duplicate (some user))

abbrev pub present : List (Option Entry) → List Entry
present [] = []
present (none ∷ entries) = present entries
present (some e ∷ entries) = e ∷ present entries

-- A call whose key is claimed already has nothing to do; any other duplicate is thrown.
abbrev pub give_up : Books → Option Text → Outcome (List Entry)
give_up books none = refused duplicate_key
give_up books (some key) =
    if is_nonempty (some key) && includes books.claims key
    then applied []
    else refused duplicate_key

abbrev pub finish_last :
    Option Text → Books × Attempt (Books × List (Option Entry)) → Books × Outcome (List Entry)
finish_last key (books, committed (after, entries)) = (after, applied (present entries))
finish_last key (books, duplicate id) = (books, give_up books key)

-- The duplicate is the balance of a customer of this call, and is there.
abbrev pub is_own_balance : Books → List LedgerEntryInput → Option Text → Bool
is_own_balance books inputs none = false
is_own_balance books inputs (some id) =
    is_nonempty (some id)
    && exists (λ input. input.user_id == id) inputs
    && is_some (get id books.balances)

-- `retriedBalanceInitialization`: the first attempt that loses such a race is made again.
abbrev pub finish_first :
    List LedgerEntryInput
    → Option Text
    → Try
    → Books × Attempt (Books × List (Option Entry))
    → Books × Outcome (List Entry)
finish_first inputs key again (books, committed (after, entries)) =
    (after, applied (present entries))
finish_first inputs key again (books, duplicate id) =
    if is_own_balance books inputs id
    then finish_last key (attempt_under again.race books inputs key again.draws)
    else (books, give_up books key)

-- `applyLedgerEntries`
unfoldable pub apply_ledger_entries :
    Books → List LedgerEntryInput → Option Text → Try → Try → Books × Outcome (List Entry)
apply_ledger_entries books inputs key first again =
    if every is_admin_input inputs
    then (books, applied [])
    else if exists has_bad_reference inputs
    then (books, refused invalid_payment_processor_reference)
    else finish_first inputs key again (attempt_under first.race books inputs key first.draws)

-- `applyLedgerEntry`
abbrev pub apply_ledger_entry :
    Books → LedgerEntryInput → Option Text → Try → Try → Books × Outcome (List Entry)
apply_ledger_entry books input key first again =
    apply_ledger_entries books (input ∷ []) key first again

-- `getBalance`
abbrev pub get_balance : Books → Text → ℕ → Balance
get_balance books user now =
    or_else (get user books.balances)
      (record { balance_usd = pos 0; tier = tier_for_balance (pos 0); updated_at = now })

-- `requireNonNegativeBalance`
abbrev pub require_non_negative_balance : Books → Text → ℕ → Outcome (Unit {0})
require_non_negative_balance books user now =
    if user == platform_admin_user_id
    then applied tt
    else if leb_ℤ (get_balance books user now).balance_usd (pos 0)
    then refused insufficient_balance
    else applied tt
