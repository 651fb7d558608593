-- ===== src/Billing/Ledger/Balanced.antt =====
-- The books across a call: `applyLedgerEntries` of backend/packages/api/src/balance-service.ts.
use powerotp.Prelude.{
  ℕ, ◌+◌, Bool, true, false, Option, none, some, List, [], ◌∷◌, ◌==◌, Text, text_eq, get, is_zero,
  ◌≡◌, refl, sym, inl, inr, Bool-cases, arith, ◌∙◌, ◌&&◌, length,
}
use powerotp.Billing.{tier_for_balance, round_currency, round_currency-exact}
use powerotp.Billing.Books.{
  Entry, LedgerEntryInput, Books, Run, Attempt, Draw, platform_admin_user_id,
}
use powerotp.Billing.Ledger.{
  balance_of, opening_of, post, post_all, mark_source, mark_all, row_of, insert_unless,
  resolve_amount, entry_at, mark_input, is_nonempty,
}
use powerotp.Billing.Ledger.Chain.{
  IsBalanced, IsSettled, Continues, insert-IsSettled, closing_of-mark, IsChained-mark,
}
use powerotp.Billing.Ledger.Attempts.{Holds, bind-Holds, HoldsOfRace, apply_ledger_entries_ind}
use powerotp.Billing.Ledger.Chain.{total, closing_of-total}
use powerotp.Billing.Ledger.Apply.{
  Try, apply_ledger_entries, transaction, claim, close_claim, start,
}

insert_unless-IsSettled :
    (c : Option (Option Text)) (row : Entry) (run : Run)
    → IsSettled run
    → Continues row run
    → Holds IsSettled (insert_unless c row run)
insert_unless-IsSettled none row run h k = insert-IsSettled row run h k
insert_unless-IsSettled (some key) row run h k = tt

post-IsSettled :
    (draw : Draw) (input : LedgerEntryInput) (run : Run)
    → IsSettled run
    → Holds IsSettled (post draw input run)
unfolding post
post-IsSettled draw input run h = elim (Bool-cases (input.user_id == platform_admin_user_id)) [
  | inl admin ↦ rw admin h
  | inr other ↦
      let opening = opening_of run input.user_id in
      let amount =
        round_currency
          (resolve_amount input.amount_usd (tier_for_balance opening) (entry_at run.entries)) in
      rw other (elim (Bool-cases (input.omit_when_zero && is_zero amount)) [
        | inl zero ↦ rw zero h
        | inr counts ↦ rw counts (
            insert_unless-IsSettled _ (row_of draw input run.entries opening amount) run h
              (refl, refl, round_currency-exact _))
      ])
]

pub post_all-IsSettled :
    (inputs : List LedgerEntryInput) (draws : ℕ → Draw) (run : Run)
    → IsSettled run
    → Holds IsSettled (post_all inputs draws run)
unfolding post_all
post_all-IsSettled [] draws run h = h
post_all-IsSettled (input ∷ inputs) draws run h =
    bind-Holds IsSettled IsSettled (post (draws (length run.entries)) input run)
      (post_all inputs draws) (post-IsSettled (draws (length run.entries)) input run h)
      (post_all-IsSettled inputs draws)

mark_source-IsBalanced :
    (referral source : Option Entry) (run : Run)
    → IsBalanced run.books
    → IsBalanced (mark_source referral source run).books
unfolding mark_source
mark_source-IsBalanced none source run h = h
mark_source-IsBalanced (some by) none run h = h
mark_source-IsBalanced (some by) (some e) run (chained, agrees) = (
  IsChained-mark e.id by.id run.books.ledger chained,
  λ user.
      ((agrees user).0 ∙ sym (closing_of-mark user e.id by.id run.books.ledger), (agrees user).1),
)

mark_input-IsBalanced :
    (i : ℕ) (source : Option ℕ) (referred : Bool) (run : Run)
    → IsBalanced run.books
    → IsBalanced (mark_input i source referred run).books
mark_input-IsBalanced i none referred run h = h
mark_input-IsBalanced i (some source) false run h = h
mark_input-IsBalanced i (some source) true run h = mark_source-IsBalanced _ _ run h

mark_all-IsBalanced :
    (inputs : List LedgerEntryInput) (i : ℕ) (run : Run)
    → IsBalanced run.books
    → IsBalanced (mark_all inputs i run).books
unfolding mark_all
mark_all-IsBalanced [] i run h = h
mark_all-IsBalanced (input ∷ inputs) i run h =
    mark_all-IsBalanced inputs (i + 1) _
      (mark_input-IsBalanced i input.source_entry_index (is_nonempty input.referral_code) run h)

close_claim-IsBalanced :
    (key : Option Text) (run : Run) → IsBalanced run.books → IsBalanced (close_claim key run)
close_claim-IsBalanced none run h = h
close_claim-IsBalanced (some key) run h = ground (arith, h)

claim-IsBalanced :
    (books : Books) (key : Option Text) → IsBalanced books → Holds IsBalanced (claim books key)
claim-IsBalanced books none h = h
claim-IsBalanced books (some key) h = ground (arith, h)

abbrev AfterBalanced : Attempt (Books × List (Option Entry)) → Type 0
AfterBalanced = Holds λ p. IsBalanced p.0

transaction-IsBalanced :
    (books : Books) (inputs : List LedgerEntryInput) (key : Option Text) (draws : ℕ → Draw)
    → IsBalanced books
    → AfterBalanced (transaction books inputs key draws)
unfolding transaction get
transaction-IsBalanced books inputs key draws h =
    bind-Holds IsBalanced (λ p. IsBalanced p.0) (claim books key) _ (claim-IsBalanced books key h)
      λ claimed k.
        bind-Holds IsSettled (λ p. IsBalanced p.0) (post_all inputs draws (start claimed)) _
          (post_all-IsSettled inputs draws (start claimed) (k, λ user. refl))
          λ run settled.
            close_claim-IsBalanced key (mark_all inputs 0 run)
              (mark_all-IsBalanced inputs 0 run settled.0)

pub apply_ledger_entries-IsBalanced :
    (books : Books) (inputs : List LedgerEntryInput) (key : Option Text) (first again : Try)
    → IsBalanced books
    → HoldsOfRace IsBalanced first.race
    → HoldsOfRace IsBalanced again.race
    → IsBalanced (apply_ledger_entries books inputs key first again).0
apply_ledger_entries-IsBalanced books inputs key first again h f r =
    apply_ledger_entries_ind inputs key IsBalanced (λ p. IsBalanced p.0) (λ b k. k) (λ b k e. k)
      (λ b k draws. transaction-IsBalanced b inputs key draws k) again r books first h f

-- The balance that is kept for a customer is the sum of the amounts of the customer's rows.
pub apply_ledger_entries-total :
    (books : Books) (inputs : List LedgerEntryInput) (key : Option Text) (first again : Try)
    (user : Text)
    → IsBalanced books
    → HoldsOfRace IsBalanced first.race
    → HoldsOfRace IsBalanced again.race
    → let (after, outcome) = apply_ledger_entries books inputs key first again in
      balance_of after user ≡ total user after.ledger
apply_ledger_entries-total books inputs key first again user h f r =
    let k = apply_ledger_entries-IsBalanced books inputs key first again h f r in
    (k.1 user).0 ∙ closing_of-total user _ k.0
