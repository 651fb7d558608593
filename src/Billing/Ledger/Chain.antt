-- ===== src/Billing/Ledger/Chain.antt =====
-- The rows of the ledger as chains, one for each customer:
-- backend/packages/api/src/balance-service.ts.
use powerotp.Prelude.{
  Option, none, some, List, [], ◌∷◌, ◌==◌, if◌then◌else◌, Text, text_eq, get, get-put, ==→≡, map, ℤ,
  pos, ◌+ℤ◌, ◌≡◌, refl, sym, ap, inl, inr, Bool-cases, arith, ◌∙◌,
}
use powerotp.Billing.{BillingTier, tier_for_balance}
use powerotp.Billing.Books.{Entry, Balance, Books, Run}
use powerotp.Billing.Ledger.{balance_of, opening_of, or_else, insert, mark_row}

-- The closing balance of the customer's latest row.
abbrev pub closing_of : Text → List Entry → ℤ
closing_of user [] = pos 0
closing_of user (e ∷ es) = if e.user_id == user then e.closing_balance_usd else closing_of user es

-- The sum of the customer's amounts.
abbrev pub total : Text → List Entry → ℤ
total user [] = pos 0
total user (e ∷ es) = if e.user_id == user then total user es +ℤ e.amount_usd else total user es

-- Each row opens where its customer's row before it closed, at the tier of that balance, and
-- closes higher by its amount.
abbrev pub IsChained : List Entry → Type 0
IsChained [] = Unit
IsChained (e ∷ es) =
    (e.opening_balance_usd ≡ closing_of e.user_id es)
    × (e.tier_at_transaction ≡ tier_for_balance e.opening_balance_usd)
    × (e.closing_balance_usd ≡ e.opening_balance_usd +ℤ e.amount_usd)
    × IsChained es

abbrev pub tier_of : Option Balance → BillingTier
tier_of none = tier_for_balance (pos 0)
tier_of (some b) = b.tier

-- The materialised balances say what the ledger says.
abbrev pub IsBalanced : Books → Type 0
IsBalanced books =
    IsChained books.ledger
    × ((user : Text)
        → (balance_of books user ≡ closing_of user books.ledger)
          × (tier_of (get user books.balances) ≡ tier_for_balance (balance_of books user)))

pub closing_of-total :
    (user : Text) (es : List Entry) → IsChained es → closing_of user es ≡ total user es
closing_of-total user [] h = refl
closing_of-total user (e ∷ es) h = elim (Bool-cases (e.user_id == user)) [
  | inl same ↦
      let before : closing_of e.user_id es ≡ total user es =
        ap (λ u. closing_of u es) (==→≡ e.user_id user same) ∙ closing_of-total user es h.3 in
      rw same (h.2 ∙ ap (λ o. o +ℤ e.amount_usd) (h.0 ∙ before))
  | inr other ↦ rw other (closing_of-total user es h.3)
]

pub closing_of-mark :
    (user id by : Text) (es : List Entry)
    → closing_of user (map (mark_row id by) es) ≡ closing_of user es
closing_of-mark user id by [] = refl
closing_of-mark user id by (e ∷ es) = ground (arith, closing_of-mark user id by es)

pub IsChained-mark :
    (id by : Text) (es : List Entry) → IsChained es → IsChained (map (mark_row id by) es)
IsChained-mark id by [] h = tt
IsChained-mark id by (e ∷ es) h =
    ground (arith, h, closing_of-mark e.user_id id by es, IsChained-mark id by es h.3)

module _ (row : Entry) (run : Run) where
  pub balances-insert :
      (user : Text)
      → balance_of (insert row run).books user
        ≡ (if row.user_id == user then row.closing_balance_usd else balance_of run.books user)
  balances-insert user = rw (get-put user row.user_id _ run.books.balances) (ground arith)

  tier-insert :
      (user : Text)
      → tier_of (get user run.books.balances) ≡ tier_for_balance (balance_of run.books user)
      → tier_of (get user (insert row run).books.balances)
        ≡ tier_for_balance (balance_of (insert row run).books user)
  tier-insert user h =
      rw (get-put user row.user_id _ run.books.balances) (elim (Bool-cases (row.user_id == user)) [
        | inl same ↦ rw same refl
        | inr other ↦ rw other h
      ])

  pub opening_of-insert :
      (user : Text)
      → opening_of (insert row run) user
        ≡ (if row.user_id == user then row.closing_balance_usd else opening_of run user)
  opening_of-insert user = elim (Bool-cases (row.user_id == user)) [
    | inl same ↦ rw (get-put user row.user_id row.closing_balance_usd run.running) (rw same refl)
    | inr other ↦
        let kept : balance_of (insert row run).books user ≡ balance_of run.books user =
          balances-insert user ∙ rw other refl in
        rw (get-put user row.user_id row.closing_balance_usd run.running)
          (rw other (ap (or_else (get user run.running)) kept))
  ]

-- The books are balanced, and the map of the running transaction says what the collection says.
abbrev pub IsSettled : Run → Type 0
IsSettled run =
    IsBalanced run.books × ((user : Text) → opening_of run user ≡ balance_of run.books user)

-- A row that continues its customer's chain.
abbrev pub Continues : Entry → Run → Type 0
Continues row run =
    (row.opening_balance_usd ≡ opening_of run row.user_id)
    × (row.tier_at_transaction ≡ tier_for_balance row.opening_balance_usd)
    × (row.closing_balance_usd ≡ row.opening_balance_usd +ℤ row.amount_usd)

pub insert-IsSettled :
    (row : Entry) (run : Run) → IsSettled run → Continues row run → IsSettled (insert row run)
insert-IsSettled row run (balanced, current) (opens, tier, closes) =
    let or_closing : Text → ℤ → ℤ =
      λ user b. if row.user_id == user then row.closing_balance_usd else b in
    (
      (
        (opens ∙ current row.user_id ∙ (balanced.1 row.user_id).0, tier, closes, balanced.0),
        λ user. (
          balances-insert row run user ∙ ap (or_closing user) (balanced.1 user).0,
          tier-insert row run user (balanced.1 user).1,
        ),
      ),
      λ user.
          opening_of-insert row run user
          ∙ ap (or_closing user) (current user)
          ∙ sym (balances-insert row run user),
    )
