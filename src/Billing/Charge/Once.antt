-- ===== src/Billing/Charge/Once.antt =====
-- The ledger rows of an interaction: `chargeCompletedInteraction` and `retryPendingCharges` of
-- backend/packages/api/src/billing-charge-service.ts.
use powerotp.Prelude.{
  ℕ, ◌+◌, ◌≤◌, Bool, false, Option, none, some, List, [], ◌∷◌, ◌==◌, Text, text_eq, not, includes,
  if◌then◌else◌, Bool-cases, inl, inr, refl, ◌≡◌, sym, subst, arith, ==→≡,
}
use powerotp.Verification.Store.{Interaction, World, was_attempted}
use powerotp.Billing.Rates.{Rates}
use powerotp.Billing.Books.{Entry, LedgerEntryInput, Books, Draw, platform_admin_user_id}
use powerotp.Billing.Ledger.Attempts.{Holds, Holds-map, HoldsOfRace, apply_ledger_entries_ind}
use powerotp.Billing.Ledger.Single.{posted, IsSingle, transaction-IsSingle}
use powerotp.Billing.Ledger.Apply.{Outcome, applied, refused, Try, apply_ledger_entry, transaction}
use powerotp.Billing.Charge.{
  ChargeTry, charge_completed_interaction, charge_rest, retry_pending_charges, pending_of,
  after_charge, charge_input, charge_key,
}

abbrev is_for : Text → Option Text → Bool
is_for id none = false
is_for id (some j) = j == id

-- How many rows stand for the interaction.
abbrev pub charges_of : Text → List Entry → ℕ
charges_of id [] = 0
charges_of id (e ∷ es) =
    if is_for id e.interaction_id then charges_of id es + 1 else charges_of id es

-- No row without the claim of the interaction's key, and one row at most.
abbrev pub IsOnce : Text → Books → Type 0
IsOnce id books =
    charges_of id books.ledger ≤ (if includes books.claims (charge_key id) then 1 else 0)

pub books-after_charge :
    (w : World) (i : Text) (now : ℕ) (made : Books × Outcome (List Entry))
    → (after_charge w i now made).1 ≡ made.0
books-after_charge w i now (books, applied rows) = refl
books-after_charge w i now (books, refused e) = refl

module _ (country_for_e164 : Text → Option Text) (rates : Rates) (id : Text) where
  module _ (w : World) (x : Interaction)
      (paying : (x.customer_id == platform_admin_user_id) ≡ false) where
    abbrev input : LedgerEntryInput
    input = charge_input country_for_e164 rates w x

    posted-IsOnce :
        (draw : Draw) (books : Books)
        → includes books.claims (charge_key x.id) ≡ false
        → IsOnce id books
        → IsOnce id (posted input draw books (charge_key x.id))
    posted-IsOnce draw books free h = elim (Bool-cases (x.id == id)) [
      | inl same ↦
          let absent : includes books.claims (charge_key id) ≡ false =
            subst (λ i. includes books.claims (charge_key i) ≡ false) (==→≡ x.id id same) free in
          ground (arith, h, same, absent)
      | inr other ↦ ground (arith, h, other)
    ]

    transaction-IsOnce :
        (books : Books) (draws : ℕ → Draw)
        → IsOnce id books
        → Holds (λ p. IsOnce id p.0) (transaction books (input ∷ []) (some (charge_key x.id)) draws)
    transaction-IsOnce books draws h =
        Holds-map (IsSingle input paying refl refl books (charge_key x.id) (draws 0))
          (λ p. IsOnce id p.0) (transaction books (input ∷ []) (some (charge_key x.id)) draws)
          (λ p s. subst (λ q. IsOnce id q.0) (sym s.1) (posted-IsOnce (draws 0) books s.0 h))
          (transaction-IsSingle input paying refl refl books _ _ draws)

    apply_ledger_entry-IsOnce :
        (books : Books) (first again : Try)
        → IsOnce id books
        → HoldsOfRace (IsOnce id) first.race
        → HoldsOfRace (IsOnce id) again.race
        → IsOnce id (apply_ledger_entry books input (some (charge_key x.id)) first again).0
    apply_ledger_entry-IsOnce books first again h f r =
        apply_ledger_entries_ind (input ∷ []) (some (charge_key x.id)) (IsOnce id)
          (λ p. IsOnce id p.0) (λ b k. k) (λ b k e. k) (λ b k draws. transaction-IsOnce b draws k)
          again r books first h f

  -- The books that other sessions leave are ones that the charge keeps.
  abbrev pub Quiet : ChargeTry → Type 0
  Quiet try = HoldsOfRace (IsOnce id) try.first.race × HoldsOfRace (IsOnce id) try.again.race

  pub charge_completed_interaction-IsOnce :
      (w : World) (books : Books) (x : Interaction) (try : ChargeTry)
      → IsOnce id books
      → Quiet try
      → IsOnce id (charge_completed_interaction country_for_e164 rates w books x try).1
  unfolding charge_completed_interaction
  charge_completed_interaction-IsOnce w books x try h (f, r) =
      elim (Bool-cases (x.customer_id == platform_admin_user_id)) [
        | inl admin ↦ rw admin h
        | inr paying ↦ elim (Bool-cases (not (was_attempted x))) [
          | inl idle ↦ rw (paying, idle) h
          | inr tried ↦
              let kept = apply_ledger_entry-IsOnce w x paying books try.first try.again h f r in
              rw (paying, tried)
                (subst (IsOnce id)
                  (sym (
                    books-after_charge w x.id try.now (
                      apply_ledger_entry books (charge_input country_for_e164 rates w x)
                        (some (charge_key x.id)) try.first try.again)))
                  kept)
        ]
      ]

  charge_rest-IsOnce :
      (xs : List Interaction) (tries : ℕ → ChargeTry) (i : ℕ) (at : World × Books × Outcome Unit)
      → IsOnce id at.1
      → ((j : ℕ) → Quiet (tries j))
      → IsOnce id (charge_rest country_for_e164 rates xs tries i at).1
  unfolding charge_rest
  charge_rest-IsOnce [] tries i (w, books, outcome) h q = h
  charge_rest-IsOnce (x ∷ xs) tries i (w, books, refused e) h q = h
  charge_rest-IsOnce (x ∷ xs) tries i (w, books, applied done) h q =
      charge_rest-IsOnce xs tries (i + 1)
        (charge_completed_interaction country_for_e164 rates w books x (tries i))
        (charge_completed_interaction-IsOnce w books x (tries i) h (q i)) q

-- A charge of one interaction, or a run over the pending ones.
pub data Billed : Type 0 where
  one : World → Interaction → ChargeTry → Billed
  all_pending : World → (ℕ → ChargeTry) → Billed

module _ (country_for_e164 : Text → Option Text) (rates : Rates) where
  abbrev bill : Billed → Books → Books
  bill (one w x try) books = (charge_completed_interaction country_for_e164 rates w books x try).1
  bill (all_pending w tries) books = (retry_pending_charges country_for_e164 rates w books tries).1

  abbrev pub bill_all : List Billed → Books → Books
  bill_all [] books = books
  bill_all (b ∷ bs) books = bill_all bs (bill b books)

  module _ (id : Text) where
    abbrev IsQuiet : Billed → Type 0
    IsQuiet (one w x try) = Quiet country_for_e164 rates id try
    IsQuiet (all_pending w tries) = (i : ℕ) → Quiet country_for_e164 rates id (tries i)

    abbrev pub AreQuiet : List Billed → Type 0
    AreQuiet [] = Unit
    AreQuiet (b ∷ bs) = IsQuiet b × AreQuiet bs

    bill-IsOnce :
        (b : Billed) (books : Books) → IsQuiet b → IsOnce id books → IsOnce id (bill b books)
    unfolding retry_pending_charges
    bill-IsOnce (one w x try) books q h =
        charge_completed_interaction-IsOnce country_for_e164 rates id w books x try h q
    bill-IsOnce (all_pending w tries) books q h =
        charge_rest-IsOnce country_for_e164 rates id (pending_of w.requests) tries 0
          (w, books, applied tt) h q

    bill_all-IsOnce :
        (bs : List Billed) (books : Books)
        → AreQuiet bs
        → IsOnce id books
        → IsOnce id (bill_all bs books)
    bill_all-IsOnce [] books q h = h
    bill_all-IsOnce (b ∷ bs) books q h =
        bill_all-IsOnce bs (bill b books) q.1 (bill-IsOnce b books q.0 h)

-- Whatever charges and retries are made, of whatever documents and in whatever order, the ledger
-- holds at most one row for an interaction. The books before, and those that another session
-- leaves in a race, hold at most one and only with the claim of its key.
pub charged_at_most_once :
    (country_for_e164 : Text → Option Text) (rates : Rates) (id : Text) (bs : List Billed)
    (books : Books)
    → AreQuiet country_for_e164 rates id bs
    → IsOnce id books
    → charges_of id (bill_all country_for_e164 rates bs books).ledger ≤ 1
charged_at_most_once country_for_e164 rates id bs books q h =
    let once = bill_all-IsOnce country_for_e164 rates id bs books q h in ground (arith, once)
