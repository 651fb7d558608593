-- ===== src/Billing/Ledger/Single.antt =====
-- A call with one input that names no other row: `applyLedgerEntry` of
-- backend/packages/api/src/balance-service.ts.
use powerotp.Prelude.{
  ℕ, false, Option, none, some, List, [], ◌∷◌, ◌==◌, Text, text_eq, get, ◌≡◌, refl, inl, inr,
  Bool-cases, includes, ℤ,
}
use powerotp.Billing.{tier_for_balance, round_currency}
use powerotp.Billing.Books.{Entry, LedgerEntryInput, Books, Run, Draw, platform_admin_user_id}
use powerotp.Billing.Ledger.{
  balance_of, row_of, post, post_all, mark_all, bind_attempt, insert_unless, resolve_amount, insert,
  entry_at,
}
use powerotp.Billing.Ledger.Attempts.{Holds}
use powerotp.Billing.Ledger.Apply.{transaction, start, close}

module _ (input : LedgerEntryInput) (draw : Draw) (books : Books) where
  abbrev pub single_amount : ℤ
  single_amount = round_currency (
      resolve_amount input.amount_usd (tier_for_balance (balance_of books input.user_id))
        (entry_at []))

  abbrev pub single_row : Entry
  single_row = row_of draw input [] (balance_of books input.user_id) single_amount

  -- The books with the claim, the row and its balance.
  abbrev pub posted : Text → Books
  posted key = (insert single_row (start (record books { claims = key ∷ books.claims }))).books

module _ (input : LedgerEntryInput) (paying : (input.user_id == platform_admin_user_id) ≡ false)
    (kept : input.omit_when_zero ≡ false) (alone : input.source_entry_index ≡ none) where
  abbrev pub IsSingle : Books → Text → Draw → Books × List (Option Entry) → Type 0
  IsSingle books key draw p =
      (includes books.claims key ≡ false)
      × (p ≡ (posted input draw books key, some (single_row input draw books) ∷ []))

  mark_all-alone : (run : Run) → mark_all (input ∷ []) 0 run ≡ run
  unfolding mark_all
  mark_all-alone run = rw alone refl

  module _ (books : Books) (c : ℕ) (t : Text) (draws : ℕ → Draw) where
    abbrev claimed : Books
    claimed = record books { claims = (c ∷ t) ∷ books.claims }

    insert_unless-IsSingle :
        (dup : Option (Option Text))
        → includes books.claims (c ∷ t) ≡ false
        → Holds (IsSingle books (c ∷ t) (draws 0)) (
            bind_attempt
              (bind_attempt
                (insert_unless dup (single_row input (draws 0) books) (start claimed))
                (post_all [] draws))
              (close (input ∷ []) (some (c ∷ t))))
    unfolding post_all
    insert_unless-IsSingle none free =
        let same = mark_all-alone (insert (single_row input (draws 0) books) (start claimed)) in
        (free, rw same refl)
    insert_unless-IsSingle (some key) free = tt

    pub transaction-IsSingle :
        Holds
          (IsSingle books (c ∷ t) (draws 0))
          (transaction books (input ∷ []) (some (c ∷ t)) draws)
    unfolding transaction post_all post get mark_all
    transaction-IsSingle = elim (Bool-cases (includes books.claims (c ∷ t))) [
      | inl held ↦ rw held tt
      | inr free ↦ rw (free, paying, kept) (insert_unless-IsSingle _ free)
    ]
